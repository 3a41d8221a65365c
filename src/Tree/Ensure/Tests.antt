-- ===== src/Tree/Ensure/Tests.antt =====
-- A run of `EnsurePagePath` and an instance of its theorem.
use komachi.Base.{
  ◌≡◌, ◌⊎◌, refl, codes, true, false, none, some, [], ◌∷◌, ok, ◌==◌, trim_space, lookup, lower_code,
  set_key,
}
use komachi.Tree.Index.{find_child_by_slug, scan_fold, get_node_by_id, child_index}
use komachi.Tree.Create.{create_node}
use komachi.Tree.Types.{section, TreeService}
use komachi.Tree.Lookup.{PathLookup, is_bad_segment, lookup_page_path}
use komachi.Tree.Ensure.{Wish, EnsurePathResult, ensure_page_path}
use komachi.Tree.Ensure.Laws.{IsBuilt, slugs_of, missing_slugs, ensure_page_path-created}
use komachi.Tree.Examples.{quiet, sample}

abbrev wish : Wish
wish = record {
  user = codes "u1";
  target_title = codes "Tips";
  kind = none;
  clock = λ k. 7;
  fresh = λ k. some (k ∷ []);
}

abbrev result : EnsurePathResult
result = record {
  page = 4;
  exists = true;
  created =
      record { id = 1 ∷ []; slug = codes "more"; title = codes "more"; kind = section }
      ∷ record { id = 2 ∷ []; slug = codes "tips"; title = codes "Tips"; kind = section }
      ∷ [];
}

abbrev after : TreeService quiet
after = (ensure_page_path wish (codes "guides/more/tips") (sample quiet tt)).1

tips_made : (ensure_page_path wish (codes "guides/more/tips") (sample quiet tt)).0 ≡ ok result
unfolding ensure_page_path lookup_page_path ◌==◌ trim_space is_bad_segment find_child_by_slug lookup
    lower_code scan_fold create_node get_node_by_id set_key child_index
tips_made = refl

ensure_page_path-created_example :
    (l : PathLookup) × (lookup_page_path (sample quiet tt) (codes "guides/more/tips") ≡ ok l)
    × (((l.exists ≡ true) × (result.created ≡ []) × (after ≡ sample quiet tt))
        ⊎ ((l.exists ≡ false)
            × (slugs_of result.created ≡ missing_slugs l.segments)
            × IsBuilt wish none l.segments (sample quiet tt) after result.created))
unfolding ensure_page_path lookup_page_path ◌==◌ trim_space is_bad_segment find_child_by_slug lookup
    lower_code scan_fold create_node get_node_by_id set_key child_index
ensure_page_path-created_example =
    ensure_page_path-created wish (codes "guides/more/tips") (sample quiet tt) after result refl
