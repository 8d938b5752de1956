-- ===== src/Daemon/Pools/Assign/Range.antt =====
-- No two pools share an index: assignSlotIndices of daemon/xray.go.
use em_xray.Daemon.Live.Diff.{one_if}
use em_xray.Daemon.Pools.Assign.{
  kept_index, keep_indices, next_free, fill_indices, assign_slot_indices, is_used, slot_count,
  index_le,
}
use em_xray.Prelude.{
  ℕ, zero, suc, List, [], ◌∷◌, String, some, none, false, Bool, Option, Dict, ◌==◌, ◌≡◌, ◌≤◌, ◌<◌,
  count, ◌+◌, Option-cases, arith, count-sort, get, Bool-cases, not, ◌-◌, inl, ap, if_elim, inr,
  sym, ltb, refl, ◌∙◌, ltb→lt,
}
use em_xray.Xray.Slot.{Slot}

-- How many pools of the first loop have the index k.
abbrev has_index : ℕ → Slot × Option ℕ → Bool
has_index k (sl, none) = false
has_index k (sl, some i) = i == k

pub kept_index_range :
    (slot_idx : Dict ℕ) (used : List ℕ) (key : String) (i : ℕ)
    → kept_index slot_idx used key ≡ some i
    → (i < slot_count) × (is_used used i ≡ false)
unfolding kept_index
kept_index_range slot_idx used key i e = elim (Option-cases (get slot_idx key)) [
  | inl h ↦ absurd (ground arith)
  | inr (j, h) ↦ (ground arith, ground arith)
]

count-keep_indices :
    (slot_idx : Dict ℕ) (used : List ℕ) (slots : List Slot) (k : ℕ)
    → count (has_index k) (keep_indices slot_idx used slots).0 + one_if (is_used used k)
      ≡ one_if (is_used (keep_indices slot_idx used slots).1 k)
unfolding keep_indices is_used
count-keep_indices slot_idx used [] k = ground arith
count-keep_indices slot_idx used (sl ∷ slots) k =
    elim (Option-cases (kept_index slot_idx used sl.key)) [
      | inl e ↦ rw e (count-keep_indices slot_idx used slots k)
      | inr (i, e) ↦
          (let range = kept_index_range slot_idx used sl.key i e in
            let rest = count-keep_indices slot_idx (i ∷ used) slots k in
            let at_k : i ≡ k → is_used used k ≡ false = λ q. ap (is_used used) (sym q) ∙ range.1 in
            rw e (ground (arith, rest, at_k)))
    ]

pub next_free_lem :
    (left : ℕ) (used : List ℕ) (next : ℕ)
    → (next ≤ next_free left used next)
      × (next_free left used next ≤ next + left)
      × (next_free left used next < next + left → is_used used (next_free left used next) ≡ false)
unfolding next_free
next_free_lem zero used next = (omega arith, omega arith, λ h. absurd (omega arith))
next_free_lem (suc left) used next =
    let later = next_free_lem left used (suc next) in
    elim (Bool-cases (is_used used next)) [
      | inl e ↦ rw e (omega (arith, later.0), omega (arith, later.1), λ h. later.2 (omega arith))
      | inr e ↦ rw e (omega arith, omega arith, λ h. e)
    ]

count-fill_indices :
    (next : ℕ) (used : List ℕ) (slots : List (Slot × Option ℕ)) (k : ℕ)
    → next ≤ slot_count
    → count (λ (sl : Slot). sl.index == k) (fill_indices next used slots)
      ≤ count (has_index k) slots + one_if (not (is_used used k))
unfolding fill_indices is_used
count-fill_indices next used [] k h = omega arith
count-fill_indices next used ((sl, some i) ∷ slots) k h =
    ground (arith, count-fill_indices next used slots k h)
count-fill_indices next used ((sl, none) ∷ slots) k h =
    let free = next_free (slot_count - next) used next in
    let lem = next_free_lem (slot_count - next) used next in
    let low : free ≤ slot_count = omega (arith, lem.1) in
    let unused : free < slot_count → is_used used free ≡ false = λ q. lem.2 (omega arith) in
    let dropped = count-fill_indices free used slots k low in
    let rest = count-fill_indices free (free ∷ used) slots k low in
    let at_k : free ≡ k → is_used used free ≡ false → is_used used k ≡ false =
      λ q f. ap (is_used used) (sym q) ∙ f in
    if_elim
      (λ (out : List Slot).
        count (λ (sl : Slot). sl.index == k) out
        ≤ count (has_index k) slots + one_if (not (is_used used k)))
      (ltb free slot_count)
      (λ yes. (let clean = unused (ltb→lt free slot_count yes) in ground (arith, rest, at_k)))
      (λ n. dropped)

kept_low :
    (slot_idx : Dict ℕ) (used : List ℕ) (slots : List Slot) (k : ℕ)
    → slot_count ≤ k
    → count (has_index k) (keep_indices slot_idx used slots).0 ≡ 0
unfolding keep_indices
kept_low slot_idx used [] k h = refl
kept_low slot_idx used (sl ∷ slots) k h = elim (Option-cases (kept_index slot_idx used sl.key)) [
  | inl e ↦ rw e (kept_low slot_idx used slots k h)
  | inr (i, e) ↦
      (let range = kept_index_range slot_idx used sl.key i e in
        rw e (ground (arith, kept_low slot_idx (i ∷ used) slots k h, range)))
]

filled_low :
    (next : ℕ) (used : List ℕ) (slots : List (Slot × Option ℕ)) (k : ℕ)
    → slot_count ≤ k
    → count (λ (sl : Slot). sl.index == k) (fill_indices next used slots)
      ≤ count (has_index k) slots
unfolding fill_indices
filled_low next used [] k h = omega arith
filled_low next used ((sl, some i) ∷ slots) k h = ground (arith, filled_low next used slots k h)
filled_low next used ((sl, none) ∷ slots) k h =
    let free = next_free (slot_count - next) used next in
    let dropped = filled_low free used slots k h in
    let rest = filled_low free (free ∷ used) slots k h in
    if_elim
      (λ (out : List Slot). count (λ (sl : Slot). sl.index == k) out ≤ count (has_index k) slots)
      (ltb free slot_count) (λ yes. ground (arith, rest)) (λ n. dropped)

-- Each index is given to at most one pool, and no index from SlotCount on is given to any.
pub assign_slot_indices_unique :
    (slot_idx : Dict ℕ) (slots : List Slot) (k : ℕ)
    → (count (λ (sl : Slot). sl.index == k) (assign_slot_indices slot_idx slots).0 ≤ 1)
      × (slot_count ≤ k
          → count (λ (sl : Slot). sl.index == k) (assign_slot_indices slot_idx slots).0 ≡ 0)
unfolding assign_slot_indices is_used
assign_slot_indices_unique slot_idx slots k =
    let kept = keep_indices slot_idx [] slots in
    let same = count-sort index_le (λ (sl : Slot). sl.index == k) (fill_indices 0 kept.1 kept.0) in
    let first = count-keep_indices slot_idx [] slots k in
    let second = count-fill_indices 0 kept.1 kept.0 k (omega arith) in
    (
      ground (arith, same, first, second),
      λ h.
          (let low = kept_low slot_idx [] slots k h in
            let fill = filled_low 0 kept.1 kept.0 k h in omega (arith, same, low, fill)),
    )
