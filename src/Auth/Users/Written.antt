-- ===== src/Auth/Users/Written.antt =====
-- The creation, the update and the deletion of a user, from what is known of the table when it is
-- written to.
use komachi.Base.{
  ◌≡◌, refl, Bool, true, false, ◌==◌, Text, Result, ok, err, pure, raise, if◌then◌else◌,
}
use komachi.Auth.Users.Store
use komachi.Auth.Users.Store.{
  User, Users, UserError, Setup, World, Call, Statement, statement, select, insert, update_row,
  delete_row, delete_user, remove, find, count, has_id, has_role, is_counted, is_valid_role,
  role_admin, role_editor, demotes, already_exists, failed, invalid_role,
  last_admin_cannot_be_demoted,
}
use komachi.Auth.Users.Transactions.{check_editor_limit, attempt, is_empty, new_hash}
use komachi.Auth.Users.Valid.{valid_role}
use komachi.Auth.Users.Rules.{
  Keeps, Leaves, Relies, Holds, pure-Leaves, raise-Leaves, bind-Leaves, statement-Leaves,
  new_hash-Leaves, new_id-Leaves, require-Keeps, attempt-Keeps, require_then, error-Leaves,
  lookup-Leaves, lookup_user-Leaves,
}
use komachi.Auth.Users.Edits.{
  update_in_store, refuse_other, role_or, check_demotion, check_promotion, changed_password, edited,
}
use komachi.Auth.Users.Creation.{create_in_store, refuse_found, new_user}

pub unit_Holds :
    (I : Users → Type 0) (r : Result UserError (Unit {0}) × Users) → I r.1 → Holds I (λ _. I) r
unit_Holds I (ok a, rows) i = i
unit_Holds I (err e, rows) i = i

affected_Holds :
    (I : Users → Type 0) (r : Result UserError Bool × Users) → I r.1 → Holds I (λ _. I) r
affected_Holds I (ok a, rows) i = i
affected_Holds I (err e, rows) i = i

demoted-Leaves :
    (I : Users → Type 0) (b : Bool)
    → Keeps I (if b then raise last_admin_cannot_be_demoted else pure tt)
demoted-Leaves I true = raise-Leaves I (λ rows i. i)
demoted-Leaves I false = pure-Leaves I (λ rows i. i)

module _ (I : Users → Type 0) (c : Setup) (rely : Relies I c) where
  same : (rows : Users) → I rows → I rows
  same rows i = i

  pub refuse_found-Keeps : (found : Result UserError User) → Keeps I (refuse_found found)
  refuse_found-Keeps (ok u) = raise-Leaves I same
  refuse_found-Keeps (err e) = pure-Leaves I same

  pub refuse_other-Keeps :
      (id : Text) (found : Result UserError User) → Keeps I (refuse_other id found)
  refuse_other-Keeps id (ok u) = require-Keeps I (u.id == id) already_exists
  refuse_other-Keeps id (err e) = pure-Leaves I same

-- The creation and the update of a user, from what is known of the table when it is written to.
module _ (I : Users → Type 0) (c : Setup) (rely : Relies I c) (Room : Text → Users → Type 0)
    (rely_room : (role : Text) → Relies (λ rows. I rows × Room role rows) c) where
  forget : (role : Text) (rows : Users) → I rows × Room role rows → I rows
  forget role rows h = h.0

  module _
      (check : (role : Text)
        → Leaves I I (check_editor_limit c role) (λ _ rows. I rows × Room role rows))
      (inserts : (u : User) (rows : Users)
        → valid_role u ≡ true
        → I rows
        → Room u.role rows
        → I (insert u rows).1) where
    inserted-Leaves :
        (u : User)
        → valid_role u ≡ true
        → Leaves I (λ rows. I rows × Room u.role rows) (Store.create_user c u) (λ _. I)
    unfolding Store.create_user
    inserted-Leaves u valid =
        statement-Leaves I c (insert u) (rely_room u.role) (forget u.role)
          (λ rows h. unit_Holds I (insert u rows) (inserts u rows valid h.0 h.1))

    pub create_in_store-Keeps :
        (username email password role : Text)
        → Keeps I (create_in_store username email password role c)
    unfolding create_in_store
    create_in_store-Keeps username email password role =
        bind-Leaves I
          (attempt-Keeps I (lookup-Leaves I I c rely (λ u. u.username == username) (same I c rely)))
          λ a. bind-Leaves I (refuse_found-Keeps I c rely a) λ _.
            bind-Leaves I
              (attempt-Keeps I (lookup-Leaves I I c rely (λ u. u.email == email) (same I c rely)))
              λ b. bind-Leaves I (refuse_found-Keeps I c rely b) λ _.
                require_then I (is_valid_role role) invalid_role (same I c rely) λ valid.
                  bind-Leaves I (check role) λ _.
                    bind-Leaves I (new_hash-Leaves I c (forget role) password) λ hash.
                      bind-Leaves I (new_id-Leaves I c (forget role)) λ id.
                        bind-Leaves I (inserted-Leaves (new_user id username email hash role) valid)
                          λ _.
                            pure-Leaves I {a = new_user id username email hash role} (same I c rely)

module _ (I : Users → Type 0) (c : Setup) (rely : Relies I c) (Known : User → Users → Type 0)
    (Room : User → Text → Users → Type 0)
    (rely_known : (u : User) → Relies (λ rows. I rows × Known u rows) c)
    (rely_room : (u : User) (role : Text) → Relies (λ rows. I rows × Room u role rows) c) where
  forget_room : (u : User) (role : Text) (rows : Users) → I rows × Room u role rows → I rows
  forget_room u role rows h = h.0

  forget_known : (u : User) (rows : Users) → I rows × Known u rows → I rows
  forget_known u rows h = h.0

  module _
      (first : (id : Text)
        → Leaves I I (statement c (select (has_id id))) (λ u rows. I rows × Known u rows))
      (demote : (u : User) (role : Text)
        → Leaves I
            (λ rows. I rows × Known u rows)
            (check_demotion c u role)
            (λ _ rows. I rows × Known u rows))
      (promote : (u : User) (role : Text)
        → Leaves I
            (λ rows. I rows × Known u rows)
            (check_promotion c u role)
            (λ _ rows. I rows × Room u role rows))
      (updates : (u v : User) (rows : Users)
        → v.id ≡ u.id
        → valid_role v ≡ true
        → I rows
        → Room u v.role rows
        → I (update_row v rows).1) where
    reading :
        (u : User) (p : User → Bool)
        → Leaves I
            (λ rows. I rows × Known u rows)
            (attempt (statement c (select p)))
            (λ _ rows. I rows × Known u rows)
    reading u p = error-Leaves I (forget_known u) (
        attempt-Keeps (λ rows. I rows × Known u rows)
          (lookup-Leaves (λ rows. I rows × Known u rows) (λ rows. I rows × Known u rows) c
            (rely_known u) p (λ rows h. h)))

    refusing :
        (u : User) (id : Text) (found : Result UserError User)
        → Leaves I
            (λ rows. I rows × Known u rows)
            (refuse_other id found)
            (λ _ rows. I rows × Known u rows)
    refusing u id found =
        error-Leaves I (forget_known u)
          (refuse_other-Keeps (λ rows. I rows × Known u rows) c (rely_known u) id found)

    changing :
        (u : User) (role password : Text)
        → Leaves I
            (λ rows. I rows × Room u role rows)
            (changed_password c password u.password)
            (λ _ rows. I rows × Room u role rows)
    changing u role password = choice (is_empty password)
      where
        choice :
            (b : Bool)
            → Leaves I
                (λ rows. I rows × Room u role rows)
                (if b then pure u.password else new_hash c password)
                (λ _ rows. I rows × Room u role rows)
        choice true = pure-Leaves I {a = u.password} (λ rows h. h)
        choice false = new_hash-Leaves I c (forget_room u role) password

    written-Leaves :
        (u v : User)
        → v.id ≡ u.id
        → valid_role v ≡ true
        → Leaves I (λ rows. I rows × Room u v.role rows) (Store.update_user c v) (λ _. I)
    unfolding Store.update_user
    written-Leaves u v same_id valid =
        bind-Leaves I
          (lookup-Leaves I (λ rows. I rows × Room u v.role rows) c (rely_room u v.role)
            (has_id v.id) (forget_room u v.role))
          λ existing.
            bind-Leaves I {Q = λ _. I}
              (statement-Leaves I c (update_row v) (rely_room u v.role) (forget_room u v.role)
                (λ rows h.
                  affected_Holds I (update_row v rows) (updates u v rows same_id valid h.0 h.1)))
              λ affected. demoted-Leaves I (demotes affected existing v)

    pub update_in_store-Keeps :
        (id username email password role : Text)
        → Keeps I (update_in_store id username email password role c)
    unfolding update_in_store
    update_in_store-Keeps id username email password role =
        bind-Leaves I (lookup_user-Leaves I (first id) (λ u. forget_known u)) λ u.
          bind-Leaves I (reading u (λ x. x.username == username)) λ a.
            bind-Leaves I (refusing u id a) λ _.
              bind-Leaves I (reading u (λ x. x.email == email)) λ b.
                bind-Leaves I (refusing u id b) λ _.
                  require_then I (is_valid_role (role_or role u.role)) invalid_role (forget_known u)
                    λ valid. bind-Leaves I (demote u (role_or role u.role)) λ _.
                      bind-Leaves I (promote u (role_or role u.role)) λ _.
                        bind-Leaves I (changing u (role_or role u.role) password) λ hash.
                          bind-Leaves I
                            (written-Leaves u (edited u username email hash (role_or role u.role))
                              refl valid)
                            λ _.
                              pure-Leaves I {a = edited u username email hash (role_or role u.role)}
                                (λ rows i. i)
