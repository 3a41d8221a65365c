-- ===== src/Tree/Update/Laws.antt =====
-- No update is lost: a writer that read a page before another one changed it is refused
-- (backend/internal/core/tree/tree_service.go).
use komachi.Base.{
  ℕ, ◌≡◌, ◌≢◌, ◌⊎◌, inl, inr, ◌↔◌, refl, sym, ap, ◌∙◌, Text, Bool, Option, none, some, [], arith,
  eq_text_iff, ok, err, Result, Bool-cases, Option-cases, Answer-cases, ◌>>◌,
}
use komachi.Tree.Types.{
  NodeKind, PageNode, NodeRepository, TreeService, TreeError, version_conflict, version_required,
}
use komachi.Tree.Version.{version, version_unchecked, check_node_version}
use komachi.Tree.Index.{get_node_by_id, rebuild_child_slugs}
use komachi.Tree.Store.{Op, call, modify, touch}
use komachi.Tree.Update.{
  Update, slug_conflict, upsert, rename_slug, set_title, update_found, convert_found, pin_found,
  with_node, update_node, convert_node, set_pinned,
}

-- The lock lets through exactly the writers that do not check, those of a page without a version,
-- and those that name the page's version.
check_node_version_iff :
    (rfc3339_nano : ℕ → Text) (n : PageNode) (expected : Text)
    → (check_node_version rfc3339_nano n expected ≡ none) ↔ (
        (expected ≡ version_unchecked)
        ⊎ (version rfc3339_nano n ≡ [])
        ⊎ (version rfc3339_nano n ≡ expected))
unfolding check_node_version
check_node_version_iff f n expected = ground (
  arith,
  eq_text_iff expected version_unchecked,
  eq_text_iff (version f n) [],
  eq_text_iff expected [],
  eq_text_iff (version f n) expected,
)

module _ {R : NodeRepository} where
  -- how to find a node by its id is the same in both
  abbrev SameIds : TreeService R → TreeService R → Type 0
  SameIds s t = (t.tree ≡ s.tree) × (t.nodes_by_id ≡ s.nodes_by_id)

  get_node_by_id-SameIds :
      (s t : TreeService R) (i : Text) → SameIds s t → get_node_by_id t i ≡ get_node_by_id s i
  unfolding get_node_by_id
  get_node_by_id-SameIds s t i (a, b) = rw (a, b) refl

  call-SameIds : (f : R.Disk → Option ℕ × R.Disk) (s : TreeService R) → SameIds s (call f s).1
  call-SameIds f s = (refl, refl)

  upsert-SameIds :
      (n : ℕ) (u : Update) (o : Option Text) (s : TreeService R) → SameIds s (upsert n u o s).1
  unfolding upsert
  upsert-SameIds n u none s = (refl, refl)
  upsert-SameIds n u (some text) s = ground arith

  rename_slug-SameIds :
      (n : ℕ) (slug : Text) (s : TreeService R) → SameIds s (rename_slug n slug s).1
  unfolding rename_slug rebuild_child_slugs
  rename_slug-SameIds n slug s = ground arith

  set_title-SameIds : (n : ℕ) (title : Text) (s : TreeService R) → SameIds s (set_title n title s)
  unfolding set_title
  set_title-SameIds n title s = (refl, refl)

  finish_update-ok :
      (user : Text) (now n : ℕ) (s t : TreeService R)
      → (do modify (touch n now user); (λ x. call (R.sync_frontmatter x.nodes n) x)) s ≡ (ok tt, t)
      → SameIds s t × ((t.nodes n).metadata.updated_at ≡ now)
  finish_update-ok user now n s t e =
      elim (Option-cases (R.sync_frontmatter (touch n now user s.nodes) n s.disk).0) [
        | inl none_there ↦ ground arith
        | inr (x, failed) ↦ absurd (ground arith)
      ]

  update_found-ok :
      (user : Text) (now : ℕ) (u : Update) (n : ℕ) (s t : TreeService R)
      → update_found user now u n s ≡ (ok tt, t)
      → SameIds s t × ((t.nodes n).metadata.updated_at ≡ now)
  unfolding update_found
  update_found-ok user now u n s t e = elim (Bool-cases (slug_conflict s n u.slug)) [
    | inl clash ↦ absurd (ground arith)
    | inr free ↦ elim (Answer-cases (upsert n u u.content s)) [
      | inr (x, s1, e1) ↦ let z = rw (free, e1) at e in absurd (ground arith)
      | inl (a, s1, e1) ↦ elim (Answer-cases (rename_slug n u.slug s1)) [
        | inr (x, s2, e2) ↦ let z = rw (free, e1, e2) at e in absurd (ground arith)
        | inl (b, s2, e2) ↦
            let kept = rw e1 at (upsert-SameIds n u u.content s) in
            let kept' = rw e2 at (rename_slug-SameIds n u.slug s1) in
            let (kept'', now_set) =
              finish_update-ok user now n (set_title n u.title s2) t (rw (free, e1, e2) at e) in
            (
              (
                kept''.0 ∙ (set_title-SameIds n u.title s2).0 ∙ kept'.0 ∙ kept.0,
                kept''.1 ∙ (set_title-SameIds n u.title s2).1 ∙ kept'.1 ∙ kept.1,
              ),
              now_set,
            )
      ]
    ]
  ]

  module _ (rfc3339_nano : ℕ → Text) {A : Type 0} (i : Text) (f : ℕ → Op R A) where
    with_node-ok :
        (expected : Text) (a : A) (s t : TreeService R)
        → with_node rfc3339_nano i expected f s ≡ (ok a, t)
        → (root : ℕ) × (n : ℕ) × (s.tree ≡ some root)
          × (get_node_by_id s i ≡ some n)
          × (f n s ≡ (ok a, t))
    unfolding with_node
    with_node-ok expected a s t e = elim (Option-cases s.tree) [
      | inl no_tree ↦ absurd (ground arith)
      | inr (root, tree) ↦ elim (Option-cases (get_node_by_id s i)) [
        | inl unknown ↦ absurd (ground arith)
        | inr (n, known) ↦
            elim (Option-cases (check_node_version rfc3339_nano (s.nodes n) expected)) [
              | inr (x, refused) ↦ absurd (ground arith)
              | inl passed ↦ (root, n, tree, known, ground arith)
            ]
      ]
    ]

    with_node-refused :
        (expected : Text) (root n : ℕ) (x : TreeError) (s : TreeService R)
        → s.tree ≡ some root
        → get_node_by_id s i ≡ some n
        → check_node_version rfc3339_nano (s.nodes n) expected ≡ some x
        → with_node rfc3339_nano i expected f s ≡ (err x, s)
    unfolding with_node
    with_node-refused expected root n x s tree known refused = ground arith

-- A version that is not the page's is refused.
check_node_version-refused :
    (rfc3339_nano : ℕ → Text) (n : PageNode) (expected : Text)
    → expected ≢ version_unchecked
    → n.metadata.updated_at ≢ 0
    → rfc3339_nano n.metadata.updated_at ≢ []
    → rfc3339_nano n.metadata.updated_at ≢ expected
    → (check_node_version rfc3339_nano n expected ≡ some version_conflict)
      ⊎ (check_node_version rfc3339_nano n expected ≡ some version_required)
unfolding check_node_version version
check_node_version-refused f n expected a b c d = ground (
  arith,
  eq_text_iff expected version_unchecked,
  eq_text_iff (f n.metadata.updated_at) [],
  eq_text_iff expected [],
  eq_text_iff (f n.metadata.updated_at) expected,
)

-- An answer of an operation that the lock refused: the service is as it was.
abbrev pub IsRefused :
    {R : NodeRepository} {A : Type 0} → TreeService R → Result TreeError A × TreeService R → Type 0
IsRefused t r = (r ≡ (err version_conflict, t)) ⊎ (r ≡ (err version_required, t))

refuse :
    {R : NodeRepository} (rfc3339_nano : ℕ → Text) {A : Type 0} (i : Text) (f : ℕ → Op R A)
    (stale : Text) (root n : ℕ) (t : TreeService R)
    → t.tree ≡ some root
    → get_node_by_id t i ≡ some n
    → (check_node_version rfc3339_nano (t.nodes n) stale ≡ some version_conflict)
      ⊎ (check_node_version rfc3339_nano (t.nodes n) stale ≡ some version_required)
    → IsRefused t (with_node rfc3339_nano i stale f t)
refuse g i f stale root n t tree known (inl e) =
    inl (with_node-refused g i f stale root n version_conflict t tree known e)
refuse g i f stale root n t tree known (inr e) =
    inr (with_node-refused g i f stale root n version_required t tree known e)

-- After an update that succeeded at the time `now`, whose stamp is a version, every writer that
-- comes with another version is refused and changes nothing: an update, a conversion, and a change
-- of the pin.
pub update_node-locks :
    {R : NodeRepository} (rfc3339_nano : ℕ → Text) (user i : Text) (u : Update) (expected : Text)
    (now : ℕ) (s t : TreeService R) (stale : Text)
    → update_node rfc3339_nano user i u expected now s ≡ (ok tt, t)
    → now ≢ 0
    → rfc3339_nano now ≢ []
    → stale ≢ version_unchecked
    → stale ≢ rfc3339_nano now
    → ((user' : Text) (u' : Update) (now' : ℕ)
        → IsRefused t (update_node rfc3339_nano user' i u' stale now' t))
      × ((user' : Text) (kind : NodeKind) (now' : ℕ)
          → IsRefused t (convert_node rfc3339_nano user' i kind stale now' t))
      × ((pinned : Bool) → IsRefused t (set_pinned rfc3339_nano i stale pinned t))
unfolding update_node convert_node set_pinned
update_node-locks rfc3339_nano user i u expected now s t stale e a b c d =
    let (root, n, tree, known, done) =
      with_node-ok rfc3339_nano i (update_found user now u) expected tt s t e in
    let (same, stamped) = update_found-ok user now u n s t done in
    let tree' = same.0 ∙ tree in
    let known' = get_node_by_id-SameIds s t i same ∙ known in
    let refused =
      check_node_version-refused rfc3339_nano (t.nodes n) stale c (rw stamped a) (rw stamped b)
        (λ z. d (sym z ∙ ap rfc3339_nano stamped)) in
    (
      λ user' u' now'.
          refuse rfc3339_nano i (update_found user' now' u') stale root n t tree' known' refused,
      λ user' kind now'.
          refuse rfc3339_nano i (convert_found user' now' kind) stale root n t tree' known' refused,
      λ pinned. refuse rfc3339_nano i (pin_found pinned) stale root n t tree' known' refused,
    )
