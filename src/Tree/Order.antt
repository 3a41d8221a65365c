-- ===== src/Tree/Order.antt =====
-- The order of a parent's children: `reindexPositions` of backend/internal/core/tree/tree_service.go,
-- with the `sort.SliceStable` that it and `SortPages` call.
pub mod Laws
use komachi.Base.{ℕ, ◌+◌, List, [], ◌∷◌, leb, if◌then◌else◌}
use komachi.Tree.Types.{Nodes, put_node}

-- `sort.SliceStable` of pointers by a number: equal keys keep their order.
module _ (key : ℕ → ℕ) where
  unfoldable pub insert_stable : ℕ → List ℕ → List ℕ
  insert_stable c [] = c ∷ []
  insert_stable c (d ∷ ds) = if leb (key c) (key d) then c ∷ d ∷ ds else d ∷ insert_stable c ds

  unfoldable pub sort_stable : List ℕ → List ℕ
  sort_stable [] = []
  sort_stable (c ∷ cs) = insert_stable c (sort_stable cs)

-- `for i, child := range children { child.Position = i }`, from `i` on.
unfoldable pub number_from : ℕ → List ℕ → Nodes → Nodes
number_from i [] h = h
number_from i (c ∷ cs) h = number_from (i + 1) cs (put_node c (record (h c) { position = i }) h)

abbrev pub position_of : Nodes → ℕ → ℕ
position_of h c = (h c).position

abbrev pub set_children : ℕ → List ℕ → Nodes → Nodes
set_children p cs h = put_node p (record (h p) { children = cs }) h

unfoldable pub reindex_positions : ℕ → Nodes → Nodes
reindex_positions p h =
    let sorted = sort_stable (position_of h) (h p).children in
    number_from 0 sorted (set_children p sorted h)
