-- ===== src/Auth/Users/Bounded.antt =====
-- The limit of editors and admins, for every sequence of requests to the service.
use komachi.Base.{ℕ, ◌≡◌, refl, inr, Text, List, [], ◌∷◌}
use komachi.Auth.Users.Store.{Setup, World}
use komachi.Auth.Users.Transactions.{bound}
use komachi.Auth.Users.Valid.{IsValid}
use komachi.Auth.Users.Rules.{Keeps, Relies, in_transaction-Leaves}
use komachi.Auth.Users.Edits.{delete_in_store, delete_user}
use komachi.Auth.Users.Requests.{Request, perform, perform_all}
use komachi.Auth.Users.Kept.{perform-Keeps}
use komachi.Auth.Users.Checks.{delete_in_store-Keeps}
use komachi.Auth.Users.Invariant.{IsSerial, IsAlone-outside, kept_rows}
use komachi.Auth.Users.Limit.{IsWithin, IsLimited, columns_keep, removes}
use komachi.Auth.Users.Slots.{create_within, update_within}

IsKept : ℕ → Setup → Type 0
IsKept limit c = Relies (IsLimited limit) c × ((c.editor_limit ≡ limit) × IsSerial c)

delete_within :
    (limit : ℕ) (c : Setup)
    → IsKept limit c
    → (id : Text) → Keeps (IsLimited limit) (delete_user c id)
unfolding delete_user IsKept
delete_within limit c (rely, (e, serial)) id =
    in_transaction-Leaves (IsLimited limit) c (delete_in_store id) rely
      (λ _. delete_in_store-Keeps (IsLimited limit) (bound c) (λ n rows. refl) (removes limit) id)
      (λ o.
        delete_in_store-Keeps (IsLimited limit) c (IsAlone-outside c o serial) (removes limit) id)

perform-IsLimited :
    (limit : ℕ) (c : Setup) (r : Request) → IsKept limit c → Keeps (IsLimited limit) (perform c r)
unfolding IsKept
perform-IsLimited limit c r kept =
    perform-Keeps (IsLimited limit) (IsKept limit) (λ _ k. k.0)
      (λ d k. ((λ n rows v. v), (k.1.0, inr (λ n rows. refl)))) (columns_keep limit)
      (λ un em pw role d k o.
        rw⁻¹ k.1.0 (create_within d (IsAlone-outside d o k.1.1) un em pw role))
      (λ id un em pw role d k o.
        rw⁻¹ k.1.0 (update_within d (IsAlone-outside d o k.1.1) id un em pw role))
      c kept r (λ id _. delete_within limit c kept id)

-- Where the transactions of PostgreSQL serve the requests one at a time, or no other request writes,
-- there are never more admins and editors than the limit that is set, whatever the requests are and
-- whichever of their statements fail, and the table stays valid.
pub perform_all-IsWithin :
    (c : Setup) (requests : List Request) (w : World)
    → Relies (IsLimited c.editor_limit) c
    → IsSerial c
    → IsValid w.rows
    → IsWithin c.editor_limit w.rows
    → IsValid (perform_all c requests w).rows
      × IsWithin c.editor_limit (perform_all c requests w).rows
unfolding perform_all IsKept
perform_all-IsWithin c [] w rely serial v within = (v, within)
perform_all-IsWithin c (r ∷ rs) w rely serial v within =
    let after : IsLimited c.editor_limit (perform c r w).1.rows =
      kept_rows (IsLimited c.editor_limit) (perform c r w)
        ((perform-IsLimited c.editor_limit c r (rely, (refl, serial))).from w (v, within)) in
    perform_all-IsWithin c rs (perform c r w).1 rely serial after.0 after.1
