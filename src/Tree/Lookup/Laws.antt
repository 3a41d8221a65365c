-- ===== src/Tree/Lookup/Laws.antt =====
-- What a lookup of a path reports (backend/internal/core/tree/tree_service.go).
use komachi.Base.{
  ℕ, ◌≡◌, ◌≢◌, ◌⊎◌, inl, inr, refl, sym, subst, ap, ◌∙◌, Text, Bool, true, false, Option, none,
  some, List, [], ◌∷◌, map, arith, ◌==◌, ◌&&◌, ◌||◌, not, all, split, eq_text_iff, Bool-cases,
  Option-cases, Result-cases, Result, ok, err,
}
use komachi.Tree.Types.{NodeRepository, TreeService, TreeError}
use komachi.Tree.Index.{find_child_by_slug}
use komachi.Tree.Slug.{is_valid_slug}
use komachi.Tree.Lookup.{
  PathSegment, PathLookup, missing, merge_slashes, clean_path, is_bad_segment, prepend, existing,
  find_under, lookup_segments, lookup_page_path,
}

abbrev Answer : Type 0
Answer = Result TreeError (List PathSegment × Bool × Bool)

prepend-ok :
    (g : PathSegment) (r : Answer) (gs : List PathSegment) (exists can : Bool)
    → prepend g r ≡ ok (gs, exists, can)
    → (gs' : List PathSegment) × (r ≡ ok (gs', exists, can)) × (gs ≡ g ∷ gs')
prepend-ok g (ok (gs', x, c)) gs exists can e = (gs', ground arith, ground arith)
prepend-ok g (err x) gs exists can e = absurd (ground arith)

-- the part can be looked up or made
abbrev pub can_make : PathSegment → Bool
can_make g = g.exists || is_valid_slug g.slug

module _ {R : NodeRepository} (s : TreeService R) where
  lookup_none :
      (parts : List Text) (x c x' c' : Bool) (gs : List PathSegment)
      → lookup_segments s none x c parts ≡ ok (gs, x', c')
      → gs ≡ map missing parts
  unfolding lookup_segments
  lookup_none [] x c x' c' gs e = ground arith
  lookup_none (part ∷ rest) x c x' c' gs e = elim (Bool-cases (is_bad_segment part)) [
    | inl bad ↦ absurd (ground arith)
    | inr good ↦
        let (gs', e', split_off) =
          prepend-ok (missing part)
            (lookup_segments s none false (c && is_valid_slug part && all is_valid_slug rest) rest)
            gs x' c' (ground arith) in
        split_off
        ∙ ap (λ y. missing part ∷ y)
            (lookup_none rest false (c && is_valid_slug part && all is_valid_slug rest) x' c' gs'
              e')
  ]

can_make-missing : (parts : List Text) → all can_make (map missing parts) ≡ all is_valid_slug parts
can_make-missing [] = refl
can_make-missing (p ∷ ps) = ap (λ b. is_valid_slug p && b) (can_make-missing ps)

slug-missing : (parts : List Text) → map (λ (g : PathSegment). g.slug) (map missing parts) ≡ parts
slug-missing [] = refl
slug-missing (p ∷ ps) = ap (λ y. p ∷ y) (slug-missing ps)

-- Segments that exist come first: after one that is missing, none exists.
abbrev pub ExistFirst : List PathSegment → Type 0
ExistFirst [] = Unit
ExistFirst (g ∷ gs) =
    ((g.exists ≡ true) × ExistFirst gs) ⊎ (all (λ h. not h.exists) (g ∷ gs) ≡ true)

none_exists :
    (parts : List Text) → all (λ (h : PathSegment). not h.exists) (map missing parts) ≡ true
none_exists [] = refl
none_exists (p ∷ ps) = none_exists ps

-- What the accumulators of the loop come to, in terms of the segments.
abbrev pub Reports : Bool → Bool → List Text → List PathSegment → Bool → Bool → Type 0
Reports x c parts gs x' c' =
    (map (λ (g : PathSegment). g.slug) gs ≡ parts)
    × (x' ≡ (x && all (λ (g : PathSegment). g.exists) gs))
    × (c' ≡ (c && all can_make gs))
    × ExistFirst gs

Reports-existing :
    (g : PathSegment) (part : Text) (x c x' c' : Bool) (parts : List Text) (gs : List PathSegment)
    → g.exists ≡ true
    → g.slug ≡ part
    → Reports x c parts gs x' c'
    → Reports x c (part ∷ parts) (g ∷ gs) x' c'
Reports-existing g part x c x' c' parts gs e f (a, b, d, h) =
    (ground arith, ground arith, ground arith, inl (e, h))

Reports-missing :
    (part : Text) (x c : Bool) (rest : List Text)
    → Reports x c
        (part ∷ rest)
        (missing part ∷ map missing rest)
        false
        ((c && is_valid_slug part && all is_valid_slug rest) && all is_valid_slug rest)
Reports-missing part x c rest = (
  ap (λ y. part ∷ y) (slug-missing rest),
  ground arith,
  ground (arith, can_make-missing rest),
  inr (none_exists rest),
)

module _ {R : NodeRepository} (s : TreeService R) where
  lookup_ended :
      (parts : List Text) (c x' c' : Bool) (gs : List PathSegment)
      → lookup_segments s none false c parts ≡ ok (gs, x', c')
      → (x' ≡ false) × (c' ≡ (c && all is_valid_slug parts))
  unfolding lookup_segments
  lookup_ended [] c x' c' gs e = ground arith
  lookup_ended (part ∷ rest) c x' c' gs e = elim (Bool-cases (is_bad_segment part)) [
    | inl bad ↦ absurd (ground arith)
    | inr good ↦
        let (gs', e', split_off) =
          prepend-ok (missing part)
            (lookup_segments s none false (c && is_valid_slug part && all is_valid_slug rest) rest)
            gs x' c' (ground arith) in
        let (a, b) =
          lookup_ended rest (c && is_valid_slug part && all is_valid_slug rest) x' c' gs' e' in
        (a, ground arith)
  ]

  lookup_segments-Reports :
      (parent : Option ℕ) (parts : List Text) (x c x' c' : Bool) (gs : List PathSegment)
      → lookup_segments s parent x c parts ≡ ok (gs, x', c')
      → Reports x c parts gs x' c'
  unfolding lookup_segments
  lookup_segments-Reports parent [] x c x' c' gs e =
      let empty : gs ≡ [] = ground arith in rw empty (refl, ground arith, ground arith, tt)
  lookup_segments-Reports parent (part ∷ rest) x c x' c' gs e =
      elim (Bool-cases (is_bad_segment part)) [
        | inl bad ↦ absurd (ground arith)
        | inr good ↦ elim (Option-cases (find_under s parent part)) [
          | inl gone ↦
              let c1 = c && is_valid_slug part && all is_valid_slug rest in
              let (gs', e', split_off) =
                prepend-ok (missing part) (lookup_segments s none false c1 rest) gs x' c'
                  (ground arith) in
              let same = lookup_none s rest false c1 x' c' gs' e' in
              let (a, b) = lookup_ended rest c1 x' c' gs' e' in
              let whole = split_off ∙ ap (λ y. missing part ∷ y) same in
              rw (whole, a, b) (Reports-missing part x c rest)
          | inr (n, there) ↦
              let (gs', e', split_off) =
                prepend-ok (existing s part n) (lookup_segments s (some n) x c rest) gs x' c'
                  (ground arith) in
              rw split_off (
                Reports-existing (existing s part n) part x c x' c' rest gs' refl refl
                  (lookup_segments-Reports (some n) rest x c x' c' gs' e'))
        ]
      ]

-- The parts of a path, followed down the tree from a node: a segment that exists is the child with
-- that slug of the node before it, and from the first part with no such child on all are missing.
pub data IsRoute {R : NodeRepository} (s : TreeService R)
    : ℕ → List Text → List PathSegment → Type 0 where
  arrived : {p : ℕ} → IsRoute s p [] []
  steps :
      {p c : ℕ} {part : Text} {rest : List Text} {gs : List PathSegment}
      → find_child_by_slug s p part ≡ some c
      → IsRoute s c rest gs
      → IsRoute s p (part ∷ rest) (existing s part c ∷ gs)
  lost :
      {p : ℕ} {part : Text} {rest : List Text}
      → find_child_by_slug s p part ≡ none
      → IsRoute s p (part ∷ rest) (map missing (part ∷ rest))

lookup_segments-IsRoute :
    {R : NodeRepository} (s : TreeService R) (p : ℕ) (parts : List Text) (x c x' c' : Bool)
    (gs : List PathSegment)
    → lookup_segments s (some p) x c parts ≡ ok (gs, x', c')
    → IsRoute s p parts gs
unfolding lookup_segments
lookup_segments-IsRoute s p [] x c x' c' gs e =
    let empty : gs ≡ [] = ground arith in subst (IsRoute s p []) (sym empty) arrived
lookup_segments-IsRoute s p (part ∷ rest) x c x' c' gs e = elim (Bool-cases (is_bad_segment part)) [
  | inl bad ↦ absurd (ground arith)
  | inr good ↦ elim (Option-cases (find_child_by_slug s p part)) [
    | inl gone ↦
        let c1 = c && is_valid_slug part && all is_valid_slug rest in
        let (gs', e', split_off) =
          prepend-ok (missing part) (lookup_segments s none false c1 rest) gs x' c'
            (ground arith) in
        let same = lookup_none s rest false c1 x' c' gs' e' in
        let whole = split_off ∙ ap (λ y. missing part ∷ y) same in
        subst (IsRoute s p (part ∷ rest)) (sym whole) (lost gone)
    | inr (n, there) ↦
        let (gs', e', split_off) =
          prepend-ok (existing s part n) (lookup_segments s (some n) x c rest) gs x' c'
            (ground arith) in
        subst (IsRoute s p (part ∷ rest)) (sym split_off)
          (steps there (lookup_segments-IsRoute s n rest x c x' c' gs' e'))
  ]
]

-- A lookup of a path that is not empty once trimmed follows the parts of the path from the root:
-- each segment that exists is the child with that slug of the one before, and from the first that
-- has none on they are missing. It lists all the parts in order, and says that the path exists exactly where every segment does, and that the path can
-- be created exactly where each segment exists or is a valid slug.
pub lookup_page_path-Reports :
    {R : NodeRepository} (s : TreeService R) (p : Text) (l : PathLookup)
    → clean_path p ≢ []
    → lookup_page_path s p ≡ ok l
    → (l.path ≡ merge_slashes (clean_path p))
      × Reports true true (split b'/' l.path) l.segments l.exists l.can_create
      × ((root : ℕ) × (s.tree ≡ some root) × IsRoute s root (split b'/' l.path) l.segments)
unfolding lookup_page_path
lookup_page_path-Reports s p l full e =
    let nonempty : (clean_path p == []) ≡ false = ground (arith, eq_text_iff (clean_path p) []) in
    elim (Option-cases s.tree) [
      | inl no_tree ↦ absurd (ground arith)
      | inr (root, tree) ↦
          elim (Result-cases
            (lookup_segments s (some root) true true (split b'/' (merge_slashes (clean_path p))))) [
              | inl ((gs, x', c'), found) ↦
                  let report =
                    lookup_segments-Reports s (some root)
                      (split b'/' (merge_slashes (clean_path p))) true true x' c' gs found in
                  let whole : l ≡ record {
                    path = merge_slashes (clean_path p);
                    segments = gs;
                    exists = x';
                    can_create = c';
                  } =
                    ground arith in
                  let route =
                    lookup_segments-IsRoute s root (split b'/' (merge_slashes (clean_path p))) true
                      true x' c' gs found in
                  rw whole (refl, report, (root, tree, route))
              | inr (x, failed) ↦ absurd (ground arith)
            ]
    ]
