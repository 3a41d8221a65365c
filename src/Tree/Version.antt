-- ===== src/Tree/Version.antt =====
-- backend/internal/core/tree/helpers.go and page_node.go: the optimistic lock of a page.
use komachi.Base.{ℕ, Text, Option, none, some, [], ◌∷◌, eqb, ◌==◌, if◌then◌else◌}
use komachi.Tree.Types.{PageNode, TreeError, version_conflict, version_required}

-- `VersionUnchecked`, the string of one zero byte.
abbrev pub version_unchecked : Text
version_unchecked = 0 ∷ []

-- `rfc3339_nano` stands for `time.Time.Format(time.RFC3339Nano)` in UTC.
module _ (rfc3339_nano : ℕ → Text) where
  unfoldable pub version : PageNode → Text
  version n = if eqb n.metadata.updated_at 0 then [] else rfc3339_nano n.metadata.updated_at

  unfoldable pub check_node_version : PageNode → Text → Option TreeError
  unfolding version
  check_node_version n expected =
      if expected == version_unchecked
      then none
      else if version n == []
      then none
      else if expected == []
      then some version_required
      else if version n == expected
      then none
      else some version_conflict
