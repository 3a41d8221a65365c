-- ===== src/Auth/Users/Limit.antt =====
-- The limit of editors and admins: what each statement does to it.
use komachi.Base.{
  ℕ, ◌+◌, ◌≤◌, ◌<◌, ◌≡◌, ◌⊎◌, inl, inr, Bool, true, false, some, ◌||◌, ◌==◌, Text, arith,
}
use komachi.Auth.Users.Store.{
  User, Users, insert, update_row, set_where, remove, find, count, has_id, has_role, is_counted,
  role_admin, role_editor,
}
use komachi.Auth.Users.Table.{count-remove-find, weight}
use komachi.Auth.Users.Valid.{
  IsValid, KeepsKeys, set_where-IsValid, count_counted-set_where, insert-IsValid,
  update_row-IsValid, count_counted-update_row, remove-IsValid, valid_role,
}

-- at most so many admins and editors, or any number of them
abbrev pub IsWithin : ℕ → Users → Type 0
IsWithin limit rows = (limit ≡ 0) ⊎ (count is_counted rows ≤ limit)

abbrev pub IsLimited : ℕ → Users → Type 0
IsLimited limit rows = IsValid rows × IsWithin limit rows

-- there may be one more of that role
abbrev pub Room : ℕ → Text → Users → Type 0
Room limit role rows =
    (limit ≡ 0)
    ⊎ ((((role == role_admin) || (role == role_editor)) ≡ false) ⊎ (count is_counted rows < limit))

-- One more where there is room, or none.
more_within :
    (limit n m : ℕ) (b : Bool)
    → m ≤ n + weight b
    → (limit ≡ 0) ⊎ (n ≤ limit)
    → (limit ≡ 0) ⊎ ((b ≡ false) ⊎ (n < limit))
    → (limit ≡ 0) ⊎ (m ≤ limit)
more_within limit n m b h (inl z) room = inl z
more_within limit n m b h (inr le) (inl z) = inl z
more_within limit n m b h (inr le) (inr (inl other)) = inr (ground arith)
more_within limit n m b h (inr le) (inr (inr lt)) = inr (ground arith)

count-insert :
    (u : User) (rows : Users)
    → count is_counted (insert u rows).1 ≤ count is_counted rows + weight (is_counted u)
unfolding insert
count-insert u rows = ground arith

count-update_row :
    (u v : User) (rows : Users)
    → IsValid rows
    → find (has_id v.id) rows ≡ some u
    → (count is_counted (update_row v rows).1 ≤ count is_counted rows + weight (is_counted v))
      × (is_counted u ≡ true → count is_counted (update_row v rows).1 ≤ count is_counted rows)
count-update_row u v rows valid found = split (count_counted-update_row v rows valid found)
  where
    split :
        (count is_counted (update_row v rows).1 ≡ count is_counted rows)
          ⊎ (count is_counted (update_row v rows).1 + weight (is_counted u)
              ≡ count is_counted rows + weight (is_counted v))
        → (count is_counted (update_row v rows).1 ≤ count is_counted rows + weight (is_counted v))
          × (is_counted u ≡ true → count is_counted (update_row v rows).1 ≤ count is_counted rows)
    split (inl e) = (ground arith, λ _. ground arith)
    split (inr e) = (ground arith, λ h. ground arith)

module _ (limit : ℕ) where
  pub columns_keep :
      (q : User → Bool) (f : User → User)
      → KeepsKeys f
      → (rows : Users) → IsLimited limit rows
      → IsLimited limit (set_where q f rows)
  columns_keep q f k rows (v, within) =
      (set_where-IsValid q f k v, rw (count_counted-set_where q f k rows) within)

  pub inserts :
      (u : User) (rows : Users)
      → valid_role u ≡ true
      → IsLimited limit rows
      → Room limit u.role rows
      → IsLimited limit (insert u rows).1
  inserts u rows valid (v, within) room = (
    insert-IsValid u rows valid v,
    more_within limit (count is_counted rows) (count is_counted (insert u rows).1) (is_counted u)
        (count-insert u rows) within room,
  )

  pub updates :
      (u v : User) (rows : Users)
      → find (has_id v.id) rows ≡ some u
      → valid_role v ≡ true
      → IsLimited limit rows
      → (is_counted u ≡ true) ⊎ Room limit v.role rows
      → IsLimited limit (update_row v rows).1
  updates u v rows found valid (w, within) room =
      (update_row-IsValid v rows w valid, slot within room)
    where
      slot :
          IsWithin limit rows
          → (is_counted u ≡ true) ⊎ Room limit v.role rows
          → IsWithin limit (update_row v rows).1
      slot (inl z) room = inl z
      slot (inr le) (inl old) =
          let few : count is_counted (update_row v rows).1 ≤ count is_counted rows =
            (count-update_row u v rows w found).1 old in
          inr (omega arith)
      slot (inr le) (inr room) =
          more_within limit (count is_counted rows) (count is_counted (update_row v rows).1)
            (is_counted v) (count-update_row u v rows w found).0 (inr le) room

  pub removes :
      (id : Text) (u : User) (rows : Users)
      → find (has_id id) rows ≡ some u
      → has_role role_admin u ≡ false
      → IsLimited limit rows
      → IsLimited limit (remove (has_id id) rows)
  removes id u rows found other (v, within) = (remove-IsValid id rows found other v, fewer within)
    where
      fewer : IsWithin limit rows → IsWithin limit (remove (has_id id) rows)
      fewer (inl z) = inl z
      fewer (inr le) = inr (omega (arith, count-remove-find is_counted id rows v.ids found))
