-- ===== src/Restore/Swap.antt =====
-- The swapper of backend/internal/restore/swap.go. An item carries what is at its three paths: the
-- live one, the staged one and the copy set aside. The paths of an item differ from each other and
-- from those of every other item, since the names differ, the staging directory is fresh and the
-- copy has a time stamp. A file or directory is a number, and `os.Stat` fails only on a path with
-- nothing there. Which of the calls fail is the list of faults, one for each call that does anything.
pub mod Rollback
pub mod Commit
mod Tests
use komachi.Base.{
  ℕ, Text, codes, Bool, true, false, Option, none, some, List, [], ◌∷◌, ◌&&◌, is_none,
  if◌then◌else◌,
}

-- A call works, or fails; a failed `os.RemoveAll` may leave something else at the path.
pub data Fault : Type 0 where
  fine : Fault
  fails : Option ℕ → Fault

abbrev pub Faults : Type 0
Faults = List Fault

abbrev pub next_fault : Faults → Fault × Faults
next_fault [] = (fine, [])
next_fault (f ∷ fs) = (f, fs)

abbrev pub swap_names : List Text
swap_names =
    codes "root"
    ∷ codes "assets"
    ∷ codes "branding"
    ∷ codes "avatars"
    ∷ codes "branding.json"
    ∷ codes "schema.json"
    ∷ codes "users.db"
    ∷ codes "api_keys.db"
    ∷ codes "favorites.db"
    ∷ codes "usersettings.db"
    ∷ []

pub record SwapItem : Type 0 where
  pub name : Text
  pub live : Option ℕ
  pub staged : Option ℕ
  pub pre_restore : Option ℕ
  pub moved_aside : Bool
  pub swapped : Bool

unfoldable pub new_item : (Text → Option ℕ) → (Text → Option ℕ) → Text → SwapItem
new_item data_dir staging_dir name = record {
  name = name;
  live = data_dir name;
  staged = staging_dir name;
  pre_restore = none;
  moved_aside = false;
  swapped = false;
}

unfoldable pub new_swapper : (Text → Option ℕ) → (Text → Option ℕ) → List Text → List SwapItem
unfolding new_item
new_swapper data_dir staging_dir [] = []
new_swapper data_dir staging_dir (n ∷ ns) =
    new_item data_dir staging_dir n ∷ new_swapper data_dir staging_dir ns

-- Whether it worked, what it left, and the faults that are left.
abbrev pub Tried : Type 0 → Type 0
Tried A = Bool × A × Faults

-- `os.Rename(item.livePath, item.preRestore)`, if there is anything live
unfoldable pub move_aside : SwapItem → Faults → Tried SwapItem
move_aside i fs = elim i.live [
  | none ↦ (true, record i { moved_aside = true }, fs)
  | some x ↦ elim (next_fault fs).0 [
    | fine ↦ (
      true,
      record i { live = none; pre_restore = some x; moved_aside = true },
      (next_fault fs).1,
    )
    | fails _ ↦ (false, i, (next_fault fs).1)
  ]
]

-- `os.Rename(item.stagedPath, item.livePath)`
unfoldable pub move_in : SwapItem → Faults → Tried SwapItem
move_in i fs = elim (next_fault fs).0 [
  | fine ↦ (true, record i { live = i.staged; staged = none; swapped = true }, (next_fault fs).1)
  | fails _ ↦ (false, i, (next_fault fs).1)
]

abbrev then_move_in : Tried SwapItem → Tried SwapItem
then_move_in (true, i, fs) = move_in i fs
then_move_in (false, i, fs) = (false, i, fs)

unfoldable pub swap_item : SwapItem → Faults → Tried SwapItem
unfolding move_aside move_in
swap_item i fs = if is_none i.staged then (true, i, fs) else then_move_in (move_aside i fs)

-- `SwapAll` stops at the first failure.
unfoldable pub swap_all : List SwapItem → Faults → Tried (List SwapItem)
swap_all [] fs = (true, [], fs)
swap_all (i ∷ is) fs =
    let (worked, i', fs') = swap_item i fs in
    let (rest, is', fs'') = swap_all is fs' in
    if worked then (rest, i' ∷ is', fs'') else (false, i' ∷ is, fs')

-- `os.RemoveAll(item.livePath)`, which has nothing to do where nothing is there
unfoldable pub remove_live : SwapItem → Faults → Tried SwapItem
remove_live i fs = elim i.live [
  | none ↦ (true, i, fs)
  | some _ ↦ elim (next_fault fs).0 [
    | fine ↦ (true, record i { live = none }, (next_fault fs).1)
    | fails left ↦ (false, record i { live = left }, (next_fault fs).1)
  ]
]

unfoldable pub move_back : SwapItem → Faults → Tried SwapItem
move_back i fs = elim i.pre_restore [
  | none ↦ (true, record i { moved_aside = false; swapped = false }, fs)
  | some x ↦ elim (next_fault fs).0 [
    | fine ↦ (
      true,
      record i { live = some x; pre_restore = none; moved_aside = false; swapped = false },
      (next_fault fs).1,
    )
    | fails _ ↦ (false, i, (next_fault fs).1)
  ]
]

abbrev then_move_back : Tried SwapItem → Tried SwapItem
then_move_back (true, i, fs) = move_back i fs
then_move_back (false, i, fs) = (false, i, fs)

unfoldable pub rollback_item : SwapItem → Faults → Tried SwapItem
unfolding remove_live move_back
rollback_item i fs = if i.moved_aside then then_move_back (remove_live i fs) else (true, i, fs)

-- `RollbackAll` tries every item.
unfoldable pub rollback_all : List SwapItem → Faults → Tried (List SwapItem)
rollback_all [] fs = (true, [], fs)
rollback_all (i ∷ is) fs =
    let (worked, i', fs') = rollback_item i fs in
    let (rest, is', fs'') = rollback_all is fs' in (worked && rest, i' ∷ is', fs'')

unfoldable pub commit_item : SwapItem → Faults → SwapItem × Faults
commit_item i fs =
    if i.swapped
    then elim i.pre_restore [
      | none ↦ (i, fs)
      | some _ ↦ elim (next_fault fs).0 [
        | fine ↦ (record i { pre_restore = none }, (next_fault fs).1)
        | fails left ↦ (record i { pre_restore = left }, (next_fault fs).1)
      ]
    ]
    else (i, fs)

unfoldable pub commit_all : List SwapItem → Faults → List SwapItem × Faults
commit_all [] fs = ([], fs)
commit_all (i ∷ is) fs =
    let (i', fs') = commit_item i fs in let (is', fs'') = commit_all is fs' in (i' ∷ is', fs'')
