-- ===== src/Auth/Users/Rules/Calls.antt =====
-- What the checks, the lookups and the transactions of the service of users leave in the table.
use komachi.Base.{
  suc, ◌≡◌, refl, Bool, true, false, Option, none, some, Result, ok, err, ◌>>◌, if◌then◌else◌,
}
use komachi.Auth.Users.Store.{
  User, Users, UserError, Setup, World, Call, statement, user_store_unavailable, find,
  row_or_not_found, select, count, select_count,
}
use komachi.Auth.Users.Transactions.{
  bound, commit, committed, locked, postgres_transaction, in_transaction, attempt, require,
  map_user_lookup_err, lookup_user,
}
use komachi.Auth.Users.Rules.Core.{
  Holds, table_of, Leaves, Keeps, Relies, weaker-Leaves, bind-Leaves, statement-Leaves, Attempted,
  attempt-Leaves,
}

module _ (I : Users → Type 0) where
  pub require-Leaves :
      {P : Users → Type 0} (b : Bool) (e : UserError)
      → ((rows : Users) → P rows → I rows)
      → Leaves I P (require b e) (λ _ rows. P rows × (b ≡ true))
  require-Leaves true e weaken = record { from = λ w p. (p, refl) }
  require-Leaves false e weaken = record { from = λ w p. weaken w.rows p }

  pub require-Keeps : (b : Bool) (e : UserError) → Keeps I (require b e)
  require-Keeps true e = record { from = λ w i. i }
  require-Keeps false e = record { from = λ w i. i }

  -- What is required holds in the rest of the call.
  pub require_then :
      {A : Type 0} {P : Users → Type 0} {Q : A → Users → Type 0} (b : Bool) (e : UserError)
      {m : Call A}
      → ((rows : Users) → P rows → I rows)
      → (b ≡ true → Leaves I P m Q)
      → Leaves I P (require b e >> m) Q
  require_then true e weaken h = h refl
  require_then false e weaken h = record { from = λ w p. weaken w.rows p }

  settled :
      {A : Type 0} (r : Result UserError A) (rows : Users) → Attempted I (λ _. I) r rows → I rows
  settled (ok a) rows i = i
  settled (err e) rows i = i

  pub attempt-Keeps : {A : Type 0} {m : Call A} → Keeps I m → Keeps I (attempt m)
  attempt-Keeps h = weaker-Leaves I (attempt-Leaves I h) settled

  mapped_Holds :
      {A : Type 0} (Q : A → Users → Type 0) (e : UserError) (w : World)
      → I w.rows
      → Holds I Q (table_of (map_user_lookup_err (err e) w))
  mapped_Holds Q user_store_unavailable w i = i
  mapped_Holds Q _ w i = i

  map_user_lookup_err-Leaves :
      {A : Type 0} {Q : A → Users → Type 0} (r : Result UserError A)
      → ((a : A) (rows : Users) → Q a rows → I rows)
      → Leaves I (Attempted I Q r) (map_user_lookup_err r) Q
  map_user_lookup_err-Leaves (ok a) weaken = record { from = λ w q. q }
  map_user_lookup_err-Leaves {Q = Q} (err e) weaken = record { from = λ w i. mapped_Holds Q e w i }

  pub lookup_user-Leaves :
      {P : Users → Type 0} {Q : User → Users → Type 0} {m : Call User}
      → Leaves I P m Q
      → ((a : User) (rows : Users) → Q a rows → I rows)
      → Leaves I P (lookup_user m) Q
  lookup_user-Leaves h weaken =
      bind-Leaves I (attempt-Leaves I h) (λ r. map_user_lookup_err-Leaves r weaken)

  committed-Holds :
      {A : Type 0} (Q : A → Users → Type 0) (c : Setup) (before : Users)
      → I before
      → (r : Result UserError A × World) → Holds I Q (table_of r)
      → Holds I Q (table_of (committed c before r))
  committed-Holds Q c before i (err e, w) h = i
  committed-Holds Q c before i (ok a, w) h = choice (c.fault w.step)
    where
      choice :
          (o : Option UserError)
          → Holds I Q (table_of (commit o before a (record w { step = suc w.step })))
      choice none = h
      choice (some e) = i

  pub in_transaction-Leaves :
      {A : Type 0} {Q : A → Users → Type 0} (c : Setup) (work : Setup → Call A)
      → Relies I c
      → (c.postgres ≡ true → Leaves I I (work (bound c)) Q)
      → (c.postgres ≡ false → Leaves I I (work c) Q)
      → Leaves I I (in_transaction c work) Q
  unfolding postgres_transaction locked
  in_transaction-Leaves {Q = Q} c work rely inside outside = choice c.postgres refl
    where
      work_Leaves : c.postgres ≡ true → Leaves I I (postgres_transaction c work) Q
      work_Leaves e =
          bind-Leaves I {Q = λ _. I}
            (statement-Leaves I c (λ rows. (ok tt, rows)) rely (λ rows i. i) (λ rows i. i))
            λ _. record {
              from = λ w i. committed-Holds Q c w.rows i (work (bound c) w) ((inside e).from w i);
            }

      choice :
          (b : Bool)
          → c.postgres ≡ b
          → Leaves I I (if b then postgres_transaction c work else work c) Q
      choice true e = work_Leaves e
      choice false e = outside e

module _ (I P : Users → Type 0) (c : Setup) (rely : Relies P c) where
  found_Holds :
      (p : User → Bool) (rows : Users)
      → P rows
      → (o : Option User) → find p rows ≡ o
      → ((rows : Users) → P rows → I rows)
      → Holds I (λ u rows. P rows × (find p rows ≡ some u)) (row_or_not_found o, rows)
  found_Holds p rows h none e weaken = weaken rows h
  found_Holds p rows h (some u) e weaken = (h, e)

  pub select-Leaves :
      (p : User → Bool)
      → ((rows : Users) → P rows → I rows)
      → Leaves I P (statement c (select p)) (λ u rows. P rows × (find p rows ≡ some u))
  unfolding select
  select-Leaves p weaken =
      statement-Leaves I c (select p) rely weaken
        (λ rows h. found_Holds p rows h (find p rows) refl weaken)

  -- a lookup of which only the answer matters
  pub lookup-Leaves :
      (p : User → Bool)
      → ((rows : Users) → P rows → I rows)
      → Leaves I P (statement c (select p)) (λ u. P)
  lookup-Leaves p weaken = weaker-Leaves I (select-Leaves p weaken) (λ u rows h. h.0)

  pub select_count-Leaves :
      (p : User → Bool)
      → ((rows : Users) → P rows → I rows)
      → Leaves I P (statement c (select_count p)) (λ n rows. P rows × (n ≡ count p rows))
  unfolding select_count
  select_count-Leaves p weaken =
      statement-Leaves I c (select_count p) rely weaken (λ rows h. (h, refl))
