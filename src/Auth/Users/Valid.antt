-- ===== src/Auth/Users/Valid.antt =====
-- The table of users at all times: three columns without a repeated value, roles that exist, and an
-- admin. What each statement does to this.
use komachi.Base.{
  ◌+◌, ◌<◌, ◌≡◌, refl, ◌∙◌, ◌⊎◌, inl, inr, Text, Bool, true, false, some, [], ◌∷◌, ◌==◌, ◌&&◌, ◌||◌,
  not, any, all, Result, err, ok, if◌then◌else◌, Bool-cases, eq_text-sym, arith,
}
use komachi.Auth.Users.Store.{
  User, Users, find, count, set_where, remove, has_id, with_fields, clashes, insert, update_row,
  keeps_admin, has_role, role_admin, is_valid_role, is_counted, already_exists, failed, UserError,
}
use komachi.Auth.Users.Table.{
  Distinct, Distinct-set_where, Distinct-remove, all-set_where, count-set_where, all-remove,
  count-set_where-find, count-remove-find, set_where_absent, find-any, weight, absent_behind,
}

abbrev pub valid_role : User → Bool
valid_role u = is_valid_role u.role

pub record IsValid (rows : Users) : Type 0 where
  pub ids : Distinct (λ r. r.id) rows
  pub usernames : Distinct (λ r. r.username) rows
  pub emails : Distinct (λ r. r.email) rows
  pub roles : all valid_role rows ≡ true
  pub admin : 0 < count (has_role role_admin) rows

-- a change of other columns than those
pub record KeepsKeys (f : User → User) : Type 0 where
  pub id : (r : User) → (f r).id ≡ r.id
  pub username : (r : User) → (f r).username ≡ r.username
  pub email : (r : User) → (f r).email ≡ r.email
  pub role : (r : User) → (f r).role ≡ r.role

module _ (q : User → Bool) (f : User → User) (k : KeepsKeys f) where
  pub set_where-IsValid : {rows : Users} → IsValid rows → IsValid (set_where q f rows)
  set_where-IsValid {rows} v = record {
    ids = Distinct-set_where (λ r. r.id) q f k.id rows v.ids;
    usernames = Distinct-set_where (λ r. r.username) q f k.username rows v.usernames;
    emails = Distinct-set_where (λ r. r.email) q f k.email rows v.emails;
    roles = all-set_where valid_role q f (λ r. rw (k.role r)) rows ∙ v.roles;
    admin =
        let e : count (has_role role_admin) (set_where q f rows)
            ≡ count (has_role role_admin) rows =
          count-set_where (has_role role_admin) q f (λ r. rw (k.role r)) rows in
        rw e v.admin;
  }

  pub count_counted-set_where :
      (rows : Users) → count is_counted (set_where q f rows) ≡ count is_counted rows
  count_counted-set_where rows = count-set_where is_counted q f (λ r. rw (k.role r)) rows

any_narrower :
    (p q : User → Bool)
    → ((r : User) → p r ≡ true → q r ≡ true)
    → (rows : Users) → any q rows ≡ false
    → any p rows ≡ false
any_narrower p q sub [] h = h
any_narrower p q sub (r ∷ rows) h = ground (arith, sub r, any_narrower p q sub rows)

all_written :
    (p q : User → Bool) (f : User → User)
    → ((r : User) → p (f r) ≡ true)
    → (rows : Users) → all p rows ≡ true
    → all p (set_where q f rows) ≡ true
unfolding set_where
all_written p q f new [] h = h
all_written p q f new (r ∷ rows) h = ground (arith, new r, all_written p q f new rows)

pub insert-IsValid :
    (u : User) (rows : Users) → valid_role u ≡ true → IsValid rows → IsValid (insert u rows).1
unfolding insert
insert-IsValid u rows role v = choice (any same rows) refl (any (has_id u.id) rows) refl
  where
    same : User → Bool
    same r = (r.username == u.username) || (r.email == u.email)

    choice :
        (a : Bool)
        → any same rows ≡ a
        → (b : Bool) → any (has_id u.id) rows ≡ b
        → IsValid (
            let after : Result UserError (Unit {0}) × Users =
              if a
              then (err already_exists, rows)
              else if b
              then (err failed, rows)
              else (ok tt, u ∷ rows) in
            after.1)
    choice true e b g = v
    choice false e true g = v
    choice false e false g = record {
      ids = (g, v.ids);
      usernames = (
        any_narrower (λ r. r.username == u.username) same (λ r h. ground arith) rows e,
        v.usernames,
      );
      emails = (any_narrower (λ r. r.email == u.email) same (λ r h. ground arith) rows e, v.emails);
      roles = ground (arith, role, v.roles);
      admin = omega (arith, v.admin);
    }

fresh_value :
    (g : User → Text) (id : Text) (f : User → User) (t s : Text)
    → ((r : User) → g (f r) ≡ t)
    → (t == s) ≡ false
    → (rows : Users) → any (λ (x : User). g x == s) rows ≡ false
    → any (λ (x : User). g x == s) (set_where (has_id id) f rows) ≡ false
unfolding set_where
fresh_value g id f t s value other [] h = h
fresh_value g id f t s value other (r ∷ rows) h =
    ground (arith, value r, other, fresh_value g id f t s value other rows)

others_have :
    (id : Text) (k : User → Bool) (rows : Users)
    → any (has_id id) rows ≡ false
    → any (λ (r : User). not (r.id == id) && k r) rows ≡ any k rows
others_have id k [] h = refl
others_have id k (r ∷ rows) h = ground (arith, others_have id k rows)

-- One row gets a value of the column that no other row has.
Distinct-set_one :
    (g : User → Text) (id : Text) (f : User → User) (t : Text)
    → ((r : User) → g (f r) ≡ t)
    → (rows : Users) → Distinct (λ r. r.id) rows
    → Distinct g rows
    → any (λ (r : User). not (r.id == id) && (g r == t)) rows ≡ false
    → Distinct g (set_where (has_id id) f rows)
unfolding set_where
Distinct-set_one g id f t value [] i d h = d
Distinct-set_one g id f t value (r ∷ rows) (new, i) (fresh, d) h = elim (Bool-cases (has_id id r)) [
  | inl e ↦
      let absent : any (has_id id) rows ≡ false = absent_behind id r rows e new in
      let only : set_where (has_id id) f rows ≡ rows = set_where_absent id f rows absent in
      let rest : any (λ (x : User). g x == t) rows ≡ false =
        ground (arith, h, e, others_have id (λ x. g x == t) rows absent) in
      rw (e, only, value r) (rest, d)
  | inr e ↦
      let other : (t == g r) ≡ false = ground (arith, h, e, eq_text-sym t (g r)) in
      rw e (
        fresh_value g id f t (g r) value other rows fresh,
        Distinct-set_one g id f t value rows i d (ground (arith, h)),
      )
]

module _ (u : User) (rows : Users) (v : IsValid rows) where
  -- the row that is written
  touched : User → Bool
  touched r = (r.id == u.id) && keeps_admin u rows r

  written-IsValid :
      any touched rows ≡ true
      → any (clashes u) rows ≡ false
      → valid_role u ≡ true
      → IsValid (set_where (has_id u.id) (with_fields u) rows)
  unfolding touched
  written-IsValid there fresh role =
      let (r, found, kept) = find-any u.id (keeps_admin u rows) rows v.ids there in
      record {
        ids = Distinct-set_where (λ x. x.id) (has_id u.id) (with_fields u) (λ x. refl) rows v.ids;
        usernames =
            Distinct-set_one (λ x. x.username) u.id (with_fields u) u.username (λ x. refl) rows
              v.ids v.usernames
              (any_narrower (λ x. not (x.id == u.id) && (x.username == u.username)) (clashes u)
                (λ x h. ground arith) rows fresh);
        emails =
            Distinct-set_one (λ x. x.email) u.id (with_fields u) u.email (λ x. refl) rows v.ids
              v.emails
              (any_narrower (λ x. not (x.id == u.id) && (x.email == u.email)) (clashes u)
                (λ x h. ground arith) rows fresh);
        roles = all_written valid_role (has_id u.id) (with_fields u) (λ x. role) rows v.roles;
        admin = ground (
          arith,
          v.admin,
          kept,
          count-set_where-find (has_role role_admin) u.id (with_fields u) rows v.ids found,
        );
      }

  after_update : Bool → Bool → Users
  after_update there clash =
      if not there
      then rows
      else if clash
      then rows
      else set_where (has_id u.id) (with_fields u) rows

  update_row-after_update :
      (update_row u rows).1 ≡ after_update (any touched rows) (any (clashes u) rows)
  unfolding update_row touched after_update
  update_row-after_update = ground arith

  pub update_row-IsValid : valid_role u ≡ true → IsValid (update_row u rows).1
  unfolding after_update
  update_row-IsValid role =
      rw update_row-after_update (choice (any touched rows) refl (any (clashes u) rows) refl)
    where
      choice :
          (a : Bool)
          → any touched rows ≡ a
          → (b : Bool) → any (clashes u) rows ≡ b
          → IsValid (after_update a b)
      choice false e b g = v
      choice true e true g = v
      choice true e false g = written-IsValid e g role

  -- What an update does to the number of admins and editors.
  pub count_counted-update_row :
      {r : User}
      → find (has_id u.id) rows ≡ some r
      → (count is_counted (update_row u rows).1 ≡ count is_counted rows)
        ⊎ (count is_counted (update_row u rows).1 + weight (is_counted r)
            ≡ count is_counted rows + weight (is_counted u))
  unfolding after_update
  count_counted-update_row {r} found =
      rw update_row-after_update (choice (any touched rows) (any (clashes u) rows))
    where
      choice :
          (a b : Bool)
          → (count is_counted (after_update a b) ≡ count is_counted rows)
            ⊎ (count is_counted (after_update a b) + weight (is_counted r)
                ≡ count is_counted rows + weight (is_counted u))
      choice false b = inl refl
      choice true true = inl refl
      choice true false =
          inr (count-set_where-find is_counted u.id (with_fields u) rows v.ids found)

pub remove-IsValid :
    (id : Text) (rows : Users) {u : User}
    → find (has_id id) rows ≡ some u
    → has_role role_admin u ≡ false
    → IsValid rows
    → IsValid (remove (has_id id) rows)
remove-IsValid id rows found other v = record {
  ids = Distinct-remove (λ r. r.id) (has_id id) rows v.ids;
  usernames = Distinct-remove (λ r. r.username) (has_id id) rows v.usernames;
  emails = Distinct-remove (λ r. r.email) (has_id id) rows v.emails;
  roles = all-remove valid_role (has_id id) rows v.roles;
  admin =
      ground (arith, v.admin, count-remove-find (has_role role_admin) id rows v.ids found, other);
}
