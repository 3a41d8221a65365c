-- ===== src/Tree/Types.antt =====
-- backend/internal/core/tree/page_node.go, errors.go, repository.go and the state of TreeService in
-- tree_service.go. A `*PageNode` is a number into the heap `nodes`, and `nil` is `none`; the
-- addresses from `next` on are free. A time is a count of nanoseconds from Go's zero time. The node
-- store (files or PostgreSQL) is the parameter `NodeRepository`: it reads the heap, changes its own
-- disk, and reports an error or none.
use komachi.Base.{ℕ, Text, Dict, Bool, Option, List, Result, eqb, if◌then◌else◌}

pub data NodeKind : Type 0 where
  page section : NodeKind

pub record PageMetadata : Type 0 where
  pub created_at : ℕ
  pub updated_at : ℕ
  pub creator_id : Text
  pub last_author_id : Text

pub record PageNode : Type 0 where
  pub id : Text
  pub title : Text
  pub slug : Text
  pub children : List ℕ
  pub position : ℕ
  pub parent : Option ℕ
  pub pinned : Bool
  pub kind : NodeKind
  pub metadata : PageMetadata

abbrev pub Nodes : Type 0
Nodes = ℕ → PageNode

-- Errors that only add context to a cause (`fmt.Errorf("…: %w", err)`) are the cause.
pub data TreeError : Type 0 where
  page_not_found parent_not_found tree_not_loaded page_has_children : TreeError
  page_already_exists circular_reference moved_to_itself invalid_sort_order : TreeError
  version_conflict version_required parent_not_section : TreeError
  no_unique_id path_not_ensured id_already_exists duplicate_in_sort_order invalid_segment :
      TreeError
  repository : ℕ → TreeError
  join : TreeError → TreeError → TreeError

pub record NodeRepository : Type 1 where
  pub Disk : Type 0
  pub save_child_order : Nodes → ℕ → Disk → Option ℕ × Disk
  -- the parent and the new entry, which the parent does not list yet
  pub create_page : Nodes → ℕ → ℕ → Disk → Option ℕ × Disk
  pub create_section : Nodes → ℕ → ℕ → Disk → Option ℕ × Disk
  pub delete_page : Nodes → ℕ → Disk → Option ℕ × Disk
  pub delete_section : Nodes → ℕ → Disk → Option ℕ × Disk
  -- also the kind that the entry is left with, which the store sets itself on some paths
  pub convert_node : Nodes → ℕ → NodeKind → Disk → Option ℕ × NodeKind × Disk
  pub move_node : Nodes → ℕ → ℕ → Disk → Option ℕ × Disk
  pub remove_child_order : Nodes → ℕ → Disk → Option ℕ × Disk
  pub rename_node : Nodes → ℕ → Text → Disk → Option ℕ × Disk
  pub upsert_content : Nodes → ℕ → Text → Disk → Option ℕ × Disk
  pub upsert_content_preserving_frontmatter : Nodes → ℕ → Text → Disk → Option ℕ × Disk
  -- with the tags and the properties, where they are given
  pub upsert_content_and_metadata :
      Nodes → ℕ → Text → Option (List Text) → Option (Dict Text) → Disk → Option ℕ × Disk
  -- the content of the page, or an error
  pub set_pinned_frontmatter : Nodes → ℕ → Bool → Disk → Result ℕ Text × Disk
  pub read_page_content : Nodes → ℕ → Disk → Result ℕ Text × Disk
  pub sync_frontmatter : Nodes → ℕ → Disk → Option ℕ × Disk
  -- the store is the one over a PostgreSQL transaction
  pub is_postgres : Bool

pub record TreeService (R : NodeRepository) : Type 0 where
  pub tree : Option ℕ
  pub nodes : Nodes
  pub next : ℕ
  pub nodes_by_id : Dict ℕ
  pub nodes_by_title : Dict (List ℕ)
  pub child_slugs : Dict (Dict ℕ)
  pub disk : R.Disk

-- `*p = n`
abbrev pub put_node : ℕ → PageNode → Nodes → Nodes
put_node p n h q = if eqb q p then n else h q
