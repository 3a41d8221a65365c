-- ===== src/Auth/Users/Checks.antt =====
-- The checks that a request to the service of users makes, and the deletion of a user.
use komachi.Base.{
  ℕ, ◌≡◌, Bool, true, false, some, not, ◌&&◌, ◌||◌, ◌==◌, Text, pure, raise, ◌>>=◌, eqb, leb, ltb,
  if◌then◌else◌, arith,
}
use komachi.Auth.Users.Store
use komachi.Auth.Users.Store.{
  User, Users, UserError, Setup, World, Call, Statement, statement, select, select_count, insert,
  update_row, delete_row, remove, find, count, has_id, has_role, is_counted, is_valid_role,
  role_admin, role_editor, last_admin_cannot_be_demoted, already_exists, failed,
  editor_limit_reached, admin_cannot_be_deleted, count_editor_users, count_admin_users,
}
use komachi.Auth.Users.Transactions.{check_editor_limit, limit_reached}
use komachi.Auth.Users.Rules.{
  Keeps, Leaves, Relies, IsAlone, IsAlone-Relies, pure-Leaves, raise-Leaves, bind-Leaves,
  statement-Leaves, weaker-Leaves, require-Leaves, require_then, select-Leaves, lookup-Leaves,
  lookup_user-Leaves, select_count-Leaves,
}
use komachi.Auth.Users.Edits.{delete_in_store, check_demotion, check_promotion, more_than_one}

module _ (I P : Users → Type 0) (c : Setup) (rely : Relies P c)
    (weaken : (rows : Users) → P rows → I rows) where
  limit_reached-Leaves : (n : ℕ) → Leaves I P (limit_reached c.editor_limit n) (λ _. P)
  limit_reached-Leaves n = choice (leb c.editor_limit n)
    where
      choice : (b : Bool) → Leaves I P (if b then raise editor_limit_reached else pure tt) (λ _. P)
      choice true = raise-Leaves I weaken
      choice false = pure-Leaves I (λ rows p. p)

  pub count_editors-Leaves :
      Leaves I P (count_editor_users c) (λ n rows. P rows × (n ≡ count is_counted rows))
  count_editors-Leaves = select_count-Leaves I P c rely is_counted weaken

  pub check_editor_limit-Leaves : (role : Text) → Leaves I P (check_editor_limit c role) (λ _. P)
  unfolding check_editor_limit
  check_editor_limit-Leaves role =
      choice (eqb c.editor_limit 0 || not ((role == role_admin) || (role == role_editor)))
    where
      choice :
          (b : Bool)
          → Leaves I P
              (if b then pure tt else count_editor_users c >>= limit_reached c.editor_limit)
              (λ _. P)
      choice true = pure-Leaves I (λ rows p. p)
      choice false =
          bind-Leaves I (weaker-Leaves I count_editors-Leaves (λ n rows h. h.0))
            limit_reached-Leaves

  pub check_demotion-Leaves :
      (u : User) (role : Text) → Leaves I P (check_demotion c u role) (λ _. P)
  unfolding check_demotion
  check_demotion-Leaves u role = choice (has_role role_admin u && not (role == role_admin))
    where
      more : (n : ℕ) → Leaves I P (more_than_one n) (λ _. P)
      more n =
          weaker-Leaves I (require-Leaves I (ltb 1 n) last_admin_cannot_be_demoted weaken)
            (λ _ rows h. h.0)

      choice :
          (b : Bool)
          → Leaves I P (if b then count_admin_users c >>= more_than_one else pure tt) (λ _. P)
      choice false = pure-Leaves I (λ rows p. p)
      choice true =
          bind-Leaves I
            (weaker-Leaves I (select_count-Leaves I P c rely (has_role role_admin) weaken)
              (λ n rows h. h.0))
            more

  pub check_promotion-Leaves :
      (u : User) (role : Text) → Leaves I P (check_promotion c u role) (λ _. P)
  unfolding check_promotion
  check_promotion-Leaves u role = choice (is_counted u)
    where
      choice : (b : Bool) → Leaves I P (if b then pure tt else check_editor_limit c role) (λ _. P)
      choice true = pure-Leaves I (λ rows p. p)
      choice false = check_editor_limit-Leaves role

-- Where no other request writes, a user who is deleted is the one who was looked up.
module _ (I : Users → Type 0) (c : Setup) (alone : IsAlone c)
    (removes : (id : Text) (u : User) (rows : Users)
      → find (has_id id) rows ≡ some u
      → has_role role_admin u ≡ false
      → I rows
      → I (remove (has_id id) rows)) where
  Looked : Text → User → Users → Type 0
  Looked id u rows = I rows × (find (has_id id) rows ≡ some u)

  erased-Leaves :
      (id : Text) (u : User)
      → has_role role_admin u ≡ false
      → Leaves I (Looked id u) (Store.delete_user c id) (λ _. I)
  unfolding Store.delete_user delete_row Looked
  erased-Leaves id u other =
      bind-Leaves I
        (lookup-Leaves I (Looked id u) c (IsAlone-Relies c (Looked id u) alone) (has_id id)
          (λ rows h. h.0))
        λ _.
          statement-Leaves I c (delete_row id) (IsAlone-Relies c (Looked id u) alone)
            (λ rows h. h.0) (λ rows h. removes id u rows h.1 other h.0)

  pub delete_in_store-Keeps : (id : Text) → Keeps I (delete_in_store id c)
  unfolding delete_in_store Looked
  delete_in_store-Keeps id =
      bind-Leaves I
        (lookup_user-Leaves I
          (select-Leaves I I c (IsAlone-Relies c I alone) (has_id id) (λ rows i. i))
          (λ u rows h. h.0))
        λ u.
          require_then I (not (has_role role_admin u)) admin_cannot_be_deleted (λ rows h. h.0)
            λ other. erased-Leaves id u (ground arith)
