-- ===== src/Auth/Users/Invariant.antt =====
-- What holds of the table of users at all times, for every sequence of requests to the service, also
-- while other requests write to the table between the statements.
use komachi.Base.{
  ◌≡◌, ◌≢◌, refl, ap, ◌⊎◌, inl, inr, Bool, true, false, some, not, Text, List, [], ◌∷◌, all, Result,
  ok, err, arith,
}
use komachi.Auth.Users.Store.{
  User, Users, UserError, Setup, World, remove, find, has_id, has_role, role_admin,
}
use komachi.Auth.Users.Transactions.{bound}
use komachi.Auth.Users.Valid.{
  IsValid, set_where-IsValid, insert-IsValid, update_row-IsValid, remove-IsValid,
}
use komachi.Auth.Users.Rules.{
  Keeps, Relies, Holds, table_of, IsAlone, weaker-Leaves, lookup-Leaves, in_transaction-Leaves,
}
use komachi.Auth.Users.Edits.{update_in_store, delete_in_store, delete_user}
use komachi.Auth.Users.Creation.{create_in_store}
use komachi.Auth.Users.Requests.{Request, delete, perform, perform_all}
use komachi.Auth.Users.Kept.{perform-Keeps}
use komachi.Auth.Users.Written.{create_in_store-Keeps, update_in_store-Keeps}
use komachi.Auth.Users.Checks.{
  check_editor_limit-Leaves, check_demotion-Leaves, check_promotion-Leaves, delete_in_store-Keeps,
}

-- A statement at a time is alone in PostgreSQL, by the lock of a transaction, and where no other
-- request writes.
abbrev pub IsSerial : Setup → Type 0
IsSerial c = (c.postgres ≡ true) ⊎ IsAlone c

pub IsAlone-outside : (c : Setup) → c.postgres ≡ false → IsSerial c → IsAlone c
IsAlone-outside c e (inl p) = absurd (cc)
IsAlone-outside c e (inr alone) = alone

module _ (c : Setup) (rely : Relies IsValid c) where
  nothing_known : {A : Type 0} (a : A) → Relies (λ rows. IsValid rows × Unit {0}) c
  nothing_known a n rows h = (rely n rows h.0, tt)

  create-Keeps :
      (username email password role : Text)
      → Keeps IsValid (create_in_store username email password role c)
  create-Keeps =
      create_in_store-Keeps IsValid c rely (λ _ _. Unit) nothing_known
        (λ role.
          weaker-Leaves IsValid
            (check_editor_limit-Leaves IsValid IsValid c rely (λ rows v. v) role)
            (λ _ rows v. (v, tt)))
        (λ u rows valid v _. insert-IsValid u rows valid v)

  update-Keeps :
      (id username email password role : Text)
      → Keeps IsValid (update_in_store id username email password role c)
  update-Keeps =
      update_in_store-Keeps IsValid c rely (λ _ _. Unit) (λ _ _ _. Unit) nothing_known
        (λ u role. nothing_known role)
        (λ id.
          weaker-Leaves IsValid (lookup-Leaves IsValid IsValid c rely (has_id id) (λ rows v. v))
            (λ u rows v. (v, tt)))
        (check_demotion-Leaves IsValid (λ rows. IsValid rows × Unit {0}) c (nothing_known tt)
          (λ rows h. h.0))
        (check_promotion-Leaves IsValid (λ rows. IsValid rows × Unit {0}) c (nothing_known tt)
          (λ rows h. h.0))
        (λ u v rows _ valid h _. update_row-IsValid v rows h valid)

delete-Keeps :
    (c : Setup) → Relies IsValid c → IsSerial c → (id : Text) → Keeps IsValid (delete_user c id)
unfolding delete_user
delete-Keeps c rely serial id =
    in_transaction-Leaves IsValid c (delete_in_store id) rely
      (λ _. delete_in_store-Keeps IsValid (bound c) (λ n rows. refl) removes id)
      (λ e. delete_in_store-Keeps IsValid c (IsAlone-outside c e serial) removes id)
  where
    removes :
        (id : Text) (u : User) (rows : Users)
        → find (has_id id) rows ≡ some u
        → has_role role_admin u ≡ false
        → IsValid rows
        → IsValid (remove (has_id id) rows)
    removes id u rows found other v = remove-IsValid id rows found other v

abbrev pub is_delete : Request → Bool
is_delete (delete id) = true
is_delete _ = false

no_delete : {r : Request} (id : Text) → is_delete r ≡ false → r ≢ delete id
no_delete id h e = cc (ap is_delete e)

-- One request, as below.
perform-IsValid :
    (c : Setup) (r : Request)
    → Relies IsValid c
    → IsSerial c ⊎ (is_delete r ≡ false)
    → Keeps IsValid (perform c r)
perform-IsValid c r rely h =
    perform-Keeps IsValid (Relies IsValid) (λ _ s. s) (λ _ _ n rows v. v)
      (λ q f k rows v. set_where-IsValid q f k v)
      (λ un em pw role d s _. create-Keeps d s un em pw role)
      (λ id un em pw role d s _. update-Keeps d s id un em pw role) c rely r
      (λ id e. deletes h id e)
  where
    deletes :
        IsSerial c ⊎ (is_delete r ≡ false)
        → (id : Text) → r ≡ delete id
        → Keeps IsValid (delete_user c id)
    deletes (inl serial) id e = delete-Keeps c rely serial id
    deletes (inr other) id e = absurd (no_delete id other e)

pub kept_rows :
    (I : Users → Type 0) {A : Type 0} (r : Result UserError A × World)
    → Holds {A = A} I (λ _. I) (table_of r)
    → I r.1.rows
kept_rows I (ok a, w) i = i
kept_rows I (err e, w) i = i

-- Whatever the requests are, whichever of their statements fail, and whatever the others write
-- meanwhile that leaves the table valid: no two users share an id, a username or an e-mail, each role
-- exists, and there is an admin, as before. Requests to delete a user are there only in PostgreSQL,
-- whose transactions lock the table, or where no other request writes.
pub perform_all-IsValid :
    (c : Setup) (requests : List Request) (w : World)
    → Relies IsValid c
    → IsSerial c ⊎ (all (λ r. not (is_delete r)) requests ≡ true)
    → IsValid w.rows
    → IsValid (perform_all c requests w).rows
unfolding perform_all
perform_all-IsValid c [] w rely h v = v
perform_all-IsValid c (r ∷ rs) w rely h v =
    perform_all-IsValid c rs (perform c r w).1 rely (rest h)
      (kept_rows IsValid (perform c r w) ((perform-IsValid c r rely (this h)).from w v))
  where
    this :
        IsSerial c ⊎ (all (λ x. not (is_delete x)) (r ∷ rs) ≡ true)
        → IsSerial c ⊎ (is_delete r ≡ false)
    this (inl s) = inl s
    this (inr h) = inr (ground arith)

    rest :
        IsSerial c ⊎ (all (λ x. not (is_delete x)) (r ∷ rs) ≡ true)
        → IsSerial c ⊎ (all (λ x. not (is_delete x)) rs ≡ true)
    rest (inl s) = inl s
    rest (inr h) = inr (ground arith)
