-- ===== src/Daemon/Pools/Assign.antt =====
-- assignSlotIndices of daemon/xray.go: the index of each pool, from which its tags and its port come.
-- An index of -1 is `none`.
pub mod Range
pub mod Count
pub mod Keep
use em_xray.Prelude.{
  ℕ, zero, suc, List, [], ◌∷◌, String, some, none, true, false, Bool, Option, Dict, ◌==◌, get,
  if◌then◌else◌, ◌-◌, leb, put, sort, ◌||◌, ltb, ◌&&◌, not,
}
use em_xray.Xray.Slot.{Slot}

-- SlotCount
abbrev pub slot_count : ℕ
slot_count = 32

-- used[idx]
unfoldable pub is_used : List ℕ → ℕ → Bool
is_used [] i = false
is_used (j ∷ js) i = j == i || is_used js i

-- The index that a pool had before, if it can have it again.
unfoldable pub kept_index : Dict ℕ → List ℕ → String → Option ℕ
kept_index slot_idx used key = elim (get slot_idx key) [
  | some idx ↦ if ltb idx slot_count && not (is_used used idx) then some idx else none
  | none ↦ none
]

abbrev pub with_used : List ℕ → Option ℕ → List ℕ
with_used used none = used
with_used used (some idx) = idx ∷ used

-- The first loop: each pool with its index, and the indices in use after it.
unfoldable pub keep_indices : Dict ℕ → List ℕ → List Slot → List (Slot × Option ℕ) × List ℕ
keep_indices slot_idx used [] = ([], used)
keep_indices slot_idx used (sl ∷ slots) =
    let idx = kept_index slot_idx used sl.key in
    let (rest, used) = keep_indices slot_idx (with_used used idx) slots in ((sl, idx) ∷ rest, used)

-- The search for the lowest index that is not in use, with the number of indices from there on.
unfoldable pub next_free : ℕ → List ℕ → ℕ → ℕ
next_free zero used next = next
next_free (suc left) used next =
    let later = next_free left used (suc next) in if is_used used next then later else next

-- The second loop: the pools without an index get the lowest free one; those past the last are
-- dropped.
unfoldable pub fill_indices : ℕ → List ℕ → List (Slot × Option ℕ) → List Slot
fill_indices next used [] = []
fill_indices next used ((sl, some idx) ∷ slots) =
    record sl { index = idx } ∷ fill_indices next used slots
fill_indices next used ((sl, none) ∷ slots) =
    let free = next_free (slot_count - next) used next in
    let dropped = fill_indices free used slots in
    let rest = fill_indices free (free ∷ used) slots in
    if ltb free slot_count then record sl { index = free } ∷ rest else dropped

abbrev pub index_le : Slot → Slot → Bool
index_le a b = leb a.index b.index

unfoldable pub index_map : List Slot → Dict ℕ
index_map [] = []
index_map (sl ∷ slots) = put (index_map slots) sl.key sl.index

-- assignSlotIndices: the pools by their index, and the indices to keep next time
unfoldable pub assign_slot_indices : Dict ℕ → List Slot → List Slot × Dict ℕ
assign_slot_indices slot_idx slots =
    let (kept, used) = keep_indices slot_idx [] slots in
    let out = fill_indices 0 used kept in (sort index_le out, index_map out)
