-- ===== src/Auth/Users/Table.antt =====
-- The rows of the table of users: how a statement changes the number of users of a kind, and which
-- columns stay different from row to row.
use komachi.Base.{
  ℕ, ◌+◌, ◌≡◌, refl, sym, ◌∙◌, inl, inr, Text, Bool, true, false, some, [], ◌∷◌, ◌==◌, ◌&&◌, any,
  all, if◌then◌else◌, Bool-cases, eq_text_iff, arith,
}
use komachi.Auth.Users.Store.{User, Users, find, count, set_where, remove, has_id}

-- No two rows agree in the column.
abbrev pub Distinct : (User → Text) → Users → Type 0
Distinct f [] = Unit
Distinct f (r ∷ rows) = (any (λ (x : User). f x == f r) rows ≡ false) × Distinct f rows

-- A change of a row that the predicate does not see.
pub any-set_where :
    (p q : User → Bool) (f : User → User)
    → ((r : User) → p (f r) ≡ p r)
    → (rows : Users) → any p (set_where q f rows) ≡ any p rows
unfolding set_where
any-set_where p q f same [] = refl
any-set_where p q f same (r ∷ rows) = ground (arith, same r, any-set_where p q f same rows)

pub count-set_where :
    (p q : User → Bool) (f : User → User)
    → ((r : User) → p (f r) ≡ p r)
    → (rows : Users) → count p (set_where q f rows) ≡ count p rows
unfolding set_where
count-set_where p q f same [] = refl
count-set_where p q f same (r ∷ rows) = ground (arith, same r, count-set_where p q f same rows)

pub all-set_where :
    (p q : User → Bool) (f : User → User)
    → ((r : User) → p (f r) ≡ p r)
    → (rows : Users) → all p (set_where q f rows) ≡ all p rows
unfolding set_where
all-set_where p q f same [] = refl
all-set_where p q f same (r ∷ rows) = ground (arith, same r, all-set_where p q f same rows)

pub Distinct-set_where :
    (g : User → Text) (q : User → Bool) (f : User → User)
    → ((r : User) → g (f r) ≡ g r)
    → (rows : Users) → Distinct g rows
    → Distinct g (set_where q f rows)
unfolding set_where
Distinct-set_where g q f same [] d = d
Distinct-set_where g q f same (r ∷ rows) (fresh, d) =
    (choice (q r), Distinct-set_where g q f same rows d)
  where
    alone : any (λ (x : User). g x == g r) (set_where q f rows) ≡ false
    alone = any-set_where (λ (x : User). g x == g r) q f (λ x. rw (same x)) rows ∙ fresh

    choice :
        (b : Bool)
        → any (λ (x : User). g x == g (if b then f r else r)) (set_where q f rows) ≡ false
    choice true = rw (same r) alone
    choice false = alone

-- What a statement that removes rows leaves had no such row before.
pub any-remove :
    (p q : User → Bool) (rows : Users) → any p rows ≡ false → any p (remove q rows) ≡ false
unfolding remove
any-remove p q [] h = h
any-remove p q (r ∷ rows) h = ground (arith, any-remove p q rows)

pub all-remove :
    (p q : User → Bool) (rows : Users) → all p rows ≡ true → all p (remove q rows) ≡ true
unfolding remove
all-remove p q [] h = h
all-remove p q (r ∷ rows) h = ground (arith, all-remove p q rows)

Distinct-choice :
    (g : User → Text) (r : User) (rows : Users) (q : User → Bool)
    → any (λ (x : User). g x == g r) rows ≡ false
    → Distinct g (remove q rows)
    → (b : Bool) → Distinct g (if b then remove q rows else r ∷ remove q rows)
Distinct-choice g r rows q fresh d true = d
Distinct-choice g r rows q fresh d false = (any-remove (λ (x : User). g x == g r) q rows fresh, d)

pub Distinct-remove :
    (g : User → Text) (q : User → Bool) (rows : Users)
    → Distinct g rows
    → Distinct g (remove q rows)
unfolding remove
Distinct-remove g q [] d = d
Distinct-remove g q (r ∷ rows) (fresh, d) =
    Distinct-choice g r rows q fresh (Distinct-remove g q rows d) (q r)

-- Where the id is that of no row, nothing changes.
pub set_where_absent :
    (id : Text) (f : User → User) (rows : Users)
    → any (has_id id) rows ≡ false
    → set_where (has_id id) f rows ≡ rows
unfolding set_where
set_where_absent id f [] h = refl
set_where_absent id f (r ∷ rows) h = ground (arith, set_where_absent id f rows)

pub remove_absent :
    (id : Text) (rows : Users) → any (has_id id) rows ≡ false → remove (has_id id) rows ≡ rows
unfolding remove
remove_absent id [] h = refl
remove_absent id (r ∷ rows) h = ground (arith, remove_absent id rows)

abbrev pub weight : Bool → ℕ
weight b = if b then 1 else 0

-- What a list of different ids holds behind a row of that id.
pub absent_behind :
    (id : Text) (r : User) (rows : Users)
    → has_id id r ≡ true
    → any (λ (x : User). x.id == r.id) rows ≡ false
    → any (has_id id) rows ≡ false
absent_behind id r rows e h = rw (sym ((eq_text_iff r.id id).0 e)) h

-- The number of users of a kind after one user changed.
pub count-set_where-find :
    (p : User → Bool) (id : Text) (f : User → User) (rows : Users) {u : User}
    → Distinct (λ r. r.id) rows
    → find (has_id id) rows ≡ some u
    → count p (set_where (has_id id) f rows) + weight (p u) ≡ count p rows + weight (p (f u))
unfolding set_where
count-set_where-find p id f [] d h = ground arith
count-set_where-find p id f (r ∷ rows) {u = u} (fresh, d) h = elim (Bool-cases (has_id id r)) [
  | inl e ↦
      let s : set_where (has_id id) f rows ≡ rows =
        set_where_absent id f rows (absent_behind id r rows e fresh) in
      ground (arith, s)
  | inr e ↦ ground (arith, count-set_where-find p id f rows {u = u} d)
]

pub count-remove-find :
    (p : User → Bool) (id : Text) (rows : Users) {u : User}
    → Distinct (λ r. r.id) rows
    → find (has_id id) rows ≡ some u
    → count p (remove (has_id id) rows) + weight (p u) ≡ count p rows
unfolding remove
count-remove-find p id [] d h = ground arith
count-remove-find p id (r ∷ rows) {u = u} (fresh, d) h = elim (Bool-cases (has_id id r)) [
  | inl e ↦
      let s : remove (has_id id) rows ≡ rows =
        remove_absent id rows (absent_behind id r rows e fresh) in
      ground (arith, s)
  | inr e ↦ ground (arith, count-remove-find p id rows {u = u} d)
]

any_and :
    (id : Text) (k : User → Bool) (rows : Users)
    → any (has_id id) rows ≡ false
    → any (λ (r : User). (r.id == id) && k r) rows ≡ false
any_and id k [] h = refl
any_and id k (r ∷ rows) h = ground (arith, any_and id k rows)

-- The one row of an id has what some row of that id has.
pub find-any :
    (id : Text) (k : User → Bool) (rows : Users)
    → Distinct (λ r. r.id) rows
    → any (λ (r : User). (r.id == id) && k r) rows ≡ true
    → (u : User) × (find (has_id id) rows ≡ some u) × (k u ≡ true)
find-any id k [] d h = absurd (ground arith)
find-any id k (r ∷ rows) (fresh, d) h = elim (Bool-cases (has_id id r)) [
  | inl e ↦ elim (Bool-cases (k r)) [
    | inl t ↦ (r, rw e, t)
    | inr t ↦ absurd (ground (arith, any_and id k rows (absent_behind id r rows e fresh)))
  ]
  | inr e ↦ let (u, found, t) = find-any id k rows d (ground arith) in (u, rw e found, t)
]
