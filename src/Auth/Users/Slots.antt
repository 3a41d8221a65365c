-- ===== src/Auth/Users/Slots.antt =====
-- The limit of editors and admins: what a request finds out before it writes.
use komachi.Base.{
  ℕ, ◌<◌, ◌≡◌, refl, subst, sym, ◌⊎◌, inl, inr, Bool, true, false, some, not, ◌||◌, ◌==◌, Text, [],
  ◌∷◌, pure, raise, ◌>>=◌, eqb, leb, if◌then◌else◌, eqb_iff, eq_text_iff, arith,
}
use komachi.Auth.Users.Store.{
  User, Users, Setup, statement, select, find, count, has_id, is_counted, role_admin, role_editor,
  editor_limit_reached, count_editor_users,
}
use komachi.Auth.Users.Transactions.{check_editor_limit, limit_reached}
use komachi.Auth.Users.Rules.{
  Keeps, Leaves, Relies, IsAlone, IsAlone-Relies, pure-Leaves, raise-Leaves, bind-Leaves,
  weaker-Leaves, select-Leaves, select_count-Leaves,
}
use komachi.Auth.Users.Edits.{update_in_store, check_promotion}
use komachi.Auth.Users.Creation.{create_in_store}
use komachi.Auth.Users.Written.{create_in_store-Keeps, update_in_store-Keeps}
use komachi.Auth.Users.Checks.{check_demotion-Leaves}
use komachi.Auth.Users.Limit.{IsLimited, Room, inserts, updates}

id_of_found : (id : Text) (u : User) (rows : Users) → find (has_id id) rows ≡ some u → u.id ≡ id
id_of_found id u [] h = absurd (cc)
id_of_found id u (r ∷ rows) h = ground (arith, eq_text_iff r.id id, id_of_found id u rows)

found_by_id :
    (id : Text) (u : User) (rows : Users)
    → find (has_id id) rows ≡ some u
    → find (has_id u.id) rows ≡ some u
found_by_id id u rows h =
    subst (λ (t : Text). find (has_id t) rows ≡ some u) (sym (id_of_found id u rows h)) h

-- What the check of the limit finds out holds until the row is written.
module _ (c : Setup) (alone : IsAlone c) where
  here : (P : Users → Type 0) → Relies P c
  here P = IsAlone-Relies c P alone

  module _ (P : Users → Type 0)
      (weaken : (rows : Users) → P rows → IsLimited c.editor_limit rows) where
    reached-Leaves :
        (n : ℕ)
        → Leaves
            (IsLimited c.editor_limit)
            (λ rows. P rows × (n ≡ count is_counted rows))
            (limit_reached c.editor_limit n)
            (λ _ rows. P rows × (count is_counted rows < c.editor_limit))
    reached-Leaves n = choice (leb c.editor_limit n) refl
      where
        choice :
            (b : Bool)
            → leb c.editor_limit n ≡ b
            → Leaves
                (IsLimited c.editor_limit)
                (λ rows. P rows × (n ≡ count is_counted rows))
                (if b then raise editor_limit_reached else pure tt)
                (λ _ rows. P rows × (count is_counted rows < c.editor_limit))
        choice true e = raise-Leaves (IsLimited c.editor_limit) (λ rows h. weaken rows h.0)
        choice false e =
            pure-Leaves (IsLimited c.editor_limit) (λ rows h. (h.0, ground (arith, h.1)))

    check-Room :
        (role : Text)
        → Leaves
            (IsLimited c.editor_limit)
            P
            (check_editor_limit c role)
            (λ _ rows. P rows × Room c.editor_limit role rows)
    unfolding check_editor_limit
    check-Room role =
        choice (eqb c.editor_limit 0) (eqb_iff c.editor_limit 0).0
          ((role == role_admin) || (role == role_editor)) refl
      where
        choice :
            (z : Bool)
            → (z ≡ true → c.editor_limit ≡ 0)
            → (b : Bool) → ((role == role_admin) || (role == role_editor)) ≡ b
            → Leaves
                (IsLimited c.editor_limit)
                P
                (if z || not b
                  then pure tt
                  else count_editor_users c >>= limit_reached c.editor_limit)
                (λ _ rows. P rows × Room c.editor_limit role rows)
        choice true z b e = pure-Leaves (IsLimited c.editor_limit) (λ rows p. (p, inl (z refl)))
        choice false z false e = pure-Leaves (IsLimited c.editor_limit) (λ rows p. (p, inr (inl e)))
        choice false z true e =
            bind-Leaves (IsLimited c.editor_limit)
              (select_count-Leaves (IsLimited c.editor_limit) P c (here P) is_counted weaken)
              λ n.
                weaker-Leaves (IsLimited c.editor_limit) (reached-Leaves n)
                  (λ _ rows h. (h.0, inr (inr h.1)))

  pub create_within :
      (username email password role : Text)
      → Keeps (IsLimited c.editor_limit) (create_in_store username email password role c)
  create_within =
      create_in_store-Keeps (IsLimited c.editor_limit) c (here (IsLimited c.editor_limit))
        (Room c.editor_limit)
        (λ role. here (λ rows. IsLimited c.editor_limit rows × Room c.editor_limit role rows))
        (check-Room (IsLimited c.editor_limit) (λ rows h. h))
        (λ u rows valid h room. inserts c.editor_limit u rows valid h room)

  -- the row that was looked up, and a slot for its new role
  Known : User → Users → Type 0
  Known u rows = find (has_id u.id) rows ≡ some u

  Slot : User → Text → Users → Type 0
  Slot u role rows = Known u rows × ((is_counted u ≡ true) ⊎ Room c.editor_limit role rows)

  promote :
      (u : User) (role : Text)
      → Leaves
          (IsLimited c.editor_limit)
          (λ rows. IsLimited c.editor_limit rows × Known u rows)
          (check_promotion c u role)
          (λ _ rows. IsLimited c.editor_limit rows × Slot u role rows)
  unfolding check_promotion Slot
  promote u role = choice (is_counted u) refl
    where
      choice :
          (b : Bool)
          → is_counted u ≡ b
          → Leaves
              (IsLimited c.editor_limit)
              (λ rows. IsLimited c.editor_limit rows × Known u rows)
              (if b then pure tt else check_editor_limit c role)
              (λ _ rows. IsLimited c.editor_limit rows × Slot u role rows)
      choice true e = pure-Leaves (IsLimited c.editor_limit) (λ rows h. (h.0, (h.1, inl e)))
      choice false e =
          weaker-Leaves (IsLimited c.editor_limit)
            (check-Room (λ rows. IsLimited c.editor_limit rows × Known u rows) (λ rows h. h.0) role)
            (λ _ rows h. (h.0.0, (h.0.1, inr h.1)))

  first :
      (id : Text)
      → Leaves
          (IsLimited c.editor_limit)
          (IsLimited c.editor_limit)
          (statement c (select (has_id id)))
          (λ u rows. IsLimited c.editor_limit rows × Known u rows)
  unfolding Known
  first id =
      weaker-Leaves (IsLimited c.editor_limit)
        (select-Leaves (IsLimited c.editor_limit) (IsLimited c.editor_limit) c
          (here (IsLimited c.editor_limit)) (has_id id) (λ rows h. h))
        (λ u rows h. (h.0, found_by_id id u rows h.1))

  pub update_within :
      (id username email password role : Text)
      → Keeps (IsLimited c.editor_limit) (update_in_store id username email password role c)
  unfolding Slot Known
  update_within =
      update_in_store-Keeps (IsLimited c.editor_limit) c (here (IsLimited c.editor_limit)) Known
        Slot (λ u. here (λ rows. IsLimited c.editor_limit rows × Known u rows))
        (λ u role. here (λ rows. IsLimited c.editor_limit rows × Slot u role rows)) first
        (λ u.
          check_demotion-Leaves (IsLimited c.editor_limit)
            (λ rows. IsLimited c.editor_limit rows × Known u rows) c
            (here (λ rows. IsLimited c.editor_limit rows × Known u rows)) (λ rows h. h.0) u)
        promote
        (λ u v rows e valid h slot. updates c.editor_limit u v rows (rw e slot.0) valid h slot.1)
