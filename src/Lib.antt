-- ===== src/Lib.antt =====
-- Komachi is a wiki server written in Go. This library models the parts of its backend that keep
-- state and decide who may change it, and proves what makes them correct.
--
-- The parts:
--
-- - Tree: the page tree of backend/internal/core/tree. Pages are records on a heap indexed by
--   numbers, which stand for Go's pointers, so that aliasing between a parent's list of children,
--   the indexes and the parent pointer is as in the code. TreeService is a record of the heap, the
--   root, the three indexes and the node store; the operations of tree_service.go are functions from
--   it to a result beside the new service. The node store itself (files or PostgreSQL) is the
--   parameter NodeRepository, whose calls may fail or change its own state in any way.
-- - Tree/Types, Tree/Store: the nodes, the node store's interface and what the operations share.
--   Tree/Index: the indexes by id, by title and by slug. Tree/Version: checkNodeVersion.
--   Tree/Create, Tree/Delete, Tree/Update, Tree/Sort, Tree/Move: createNodeLocked, DeleteNode,
--   UpdateNode with ConvertNode and SetPinned, SortPages, and MoveNodeToPosition, each with its
--   rollback; what the last of them keeps is in Tree/Move/WellFormed. Tree/Order: reindexPositions.
--   Tree/Slug and Tree/Slug/Generate: IsValidSlug and the generators of slugs, paths and file names
--   of slug_service.go, where slug.Make of github.com/gosimple/slug is a parameter. Tree/Lookup,
--   Tree/Ensure: lookupPagePathLocked, FindPageByRoutePath and EnsurePagePath.
-- - Auth: the brake on password guessing, backend/internal/core/auth/login_attempt_tracker.go
--   (recordAttempt, reset), in Auth/LoginAttempts.
-- - Auth/Sessions: in Store, the table of sessions of backend/internal/core/auth/session_store.go,
--   each SQL statement a function on the list of rows; in Manager, SessionManager of
--   session_manager.go (IssueSession, RefreshToken, RevokeRefreshToken, ValidateToken and the
--   others), over that table. Signing and parsing a JWT and the lookup of users are fields of a
--   record; the clock, the random ids and the failures of the database during a call are fields of
--   another.
-- - Auth/Users: the users of backend/internal/core/auth. Auth/Users/Store has the table of
--   user_store.go, each SQL statement a function on the rows, which fails or waits for other
--   requests as a parameter says; Transactions, Edits and Creation have UserService of
--   user_service.go (CreateUser, UpdateUser, DeleteUser, InitDefaultAdmin, GetOrCreateRemoteUser,
--   InviteUser, ChangeOwnPassword and the others) with the transactions of postgres.go; Requests
--   runs them one after another. Table and Valid say what a statement does to the rows, Rules gives
--   a rule for each way to put calls together, Kept, Written, Checks and Slots apply the rules.
-- - Auth/Totp: the recovery codes of totp_service.go and verifyTOTPOrRecoveryCode of
--   auth_service.go; in Auth/Totp/Race, the same loop as the steps of requests that interleave.
-- - Auth/Service: AuthService of auth_service.go, which composes users, attempts, sessions and the
--   second factor (Login, CompleteTOTPLogin, IssueSessionForUser; in Factor StartTOTPSetup,
--   ConfirmTOTPSetup, DisableTOTP, GetTOTPStatus).
-- - Http: the gates of backend/internal/http/middleware/auth and the rate limiter of
--   backend/internal/http/middleware/security. Http/Guards has the gates of auth.go and
--   require_auth_or_public.go (resolveSession, RequireAuth, RequireAdmin and so on),
--   Http/RateLimiter has KeyedLimiter, whose Allow is two sections under its mutex that those of
--   other requests may come between, and Http/ApiKey the gate InjectAPIKeyUser of apikey.go with
--   that limiter, and InjectPublicEditor; Http/RemoteUser has InjectRemoteUser of reverse_proxy.go
--   with the parser and test of trusted addresses of trusted_proxies.go, over a record of what Go's
--   package net does. A gate is a function from a request's context to the context that the next
--   handler sees or to a status.
-- - Restore: the write gate of backend/internal/restore/writegate.go as a relation between the
--   states of an interleaved run, in Restore/WriteGate (Freeze, TryEnter, Engage, Disengage); and,
--   in Restore/Middleware, the middleware that puts requests behind it; and, in Restore/Job, the
--   state of a restore job (restore/job.go); in Restore/Swap, the swapper of restore/swap.go with
--   its rollback; and in Restore/Manager, runFromZipPath of restore/manager.go, which composes the
--   job, the gate, the stores and the swapper, for an instance without PostgreSQL.
-- - Import: the import of Markdown folders, backend/internal/importer. Import/PlanStore has the
--   store of the one plan, plan_store.go: its types, in Calls its methods with the state file and
--   what a failure to save does (Set, Get, Clear, TryStartExecution, FinishExecution,
--   UpdateExecutionProgress, RequestCancel, IsCancelRequested, NewPlanStore), where json.Marshal and
--   json.Unmarshal are parameters. Import/Executor has Executor.Execute of executor.go over a record
--   of what it calls in the wiki, with its progress callback and cancel check.
-- - PublicAccess: the switch for anonymous reading, backend/internal/publicaccess (SetEnabled,
--   Reload, the two constructors), with saves that fail before or after they are stored, and with a
--   stored flag that a restore replaces.
-- - Extraction: CopyWithBudget of backend/internal/core/shared/utils.go with its limits on size
--   and ratio, and the loop over the entries of an archive that uses it in restore/swap.go.
-- - Base: strings as lists of code points, Go maps as association lists, calls that may fail.
--
-- Walks of the tree take fuel, for which the service's count of nodes made so far is used: a walk
-- down a forest meets no node twice, so it is not deeper than that. The loops that look for a free
-- slug or file name take fuel for their tests, and the theorems say how many are enough. Which file
-- operations and which openings of a store fail during a restore is a list of faults, one for each
-- call. Times are natural numbers, and a reading of the clock is an argument. Random ids and the
-- answers of the node store are parameters. The loop over recovery codes has three attempts, as in
-- the code; the theorem on their race holds for any order of the steps. bcrypt is a pair of
-- functions that hash and compare.
--
-- Not modelled: API keys but for their gate, e-mail tokens, reading and writing of files and
-- databases, search, links, tags, properties, revisions, the transfer of data between stores,
-- e-mail, Markdown, the frontend, and the wiring of the process. They are I/O or presentation, or
-- call the parts modelled here.
pub mod Auth
pub mod Base
pub mod Extraction
pub mod Http
pub mod Import
pub mod PublicAccess
pub mod Restore
pub mod Tree
