-- ===== src/Daemon/Pools/Assign/Count.antt =====
-- Which pools get an index: assignSlotIndices of daemon/xray.go.
use em_xray.Daemon.Pools.Assign.Range.{kept_index_range, next_free_lem}
use em_xray.Daemon.Pools.Assign.{
  is_used, next_free, keep_indices, fill_indices, slot_count, with_used, kept_index,
  assign_slot_indices, index_le,
}
use em_xray.Daemon.Live.Diff.{one_if}
use em_xray.Prelude.{
  ℕ, zero, suc, List, [], ◌∷◌, some, none, true, false, Bool, Option, Dict, ◌≤◌, ◌<◌, ◌+◌, arith,
  ◌≡◌, length, Bool-cases, count, ap, refl, ◌==◌, Option-cases, min, inl, sym, ◌-◌, ◌∙◌,
  count-le-length, inr, ltb, length-sort, ltb→lt, ltb→le, if_elim,
}
use em_xray.Xray.Slot.{Slot}

-- How many of the indices below n are in use.
used_below : ℕ → List ℕ → ℕ
used_below zero used = 0
used_below (suc n) used = one_if (is_used used n) + used_below n used

used_below-le : (n : ℕ) (used : List ℕ) → used_below n used ≤ n
unfolding used_below
used_below-le zero used = omega arith
used_below-le (suc n) used = ground (arith, used_below-le n used)

used_below-new_high :
    (n i : ℕ) (used : List ℕ) → n ≤ i → used_below n (i ∷ used) ≡ used_below n used
unfolding used_below is_used
used_below-new_high zero i used h = refl
used_below-new_high (suc n) i used h = ground (arith, used_below-new_high n i used (omega arith))

used_below-new :
    (n i : ℕ) (used : List ℕ)
    → i < n
    → is_used used i ≡ false
    → used_below n (i ∷ used) ≡ suc (used_below n used)
unfolding used_below is_used
used_below-new zero i used h free = absurd (omega arith)
used_below-new (suc n) i used h free = elim (Bool-cases (i == n)) [
  | inl e ↦
      (let same : i ≡ n = ground arith in
        let free_n : is_used used n ≡ false = ap (is_used used) (sym same) ∙ free in
        ground (arith, used_below-new_high n i used (omega (arith, same))))
  | inr e ↦
      (let rest : used_below n (i ∷ used) ≡ suc (used_below n used) =
          used_below-new n i used (ground arith) free in
        ground (arith, rest))
]

used_below-free : (n i : ℕ) (used : List ℕ) → i < n → is_used used i ≡ false → used_below n used < n
unfolding used_below
used_below-free zero i used h free = absurd (omega arith)
used_below-free (suc n) i used h free = elim (Bool-cases (i == n)) [
  | inl e ↦
      (let same : i ≡ n = ground arith in
        let free_n : is_used used n ≡ false = ap (is_used used) (sym same) ∙ free in
        ground (arith, used_below-le n used))
  | inr e ↦
      (let rest : used_below n used < n = used_below-free n i used (ground arith) free in
        ground (arith, rest))
]

used_below-all :
    (n : ℕ) (used : List ℕ) → ((i : ℕ) → i < n → is_used used i ≡ true) → used_below n used ≡ n
unfolding used_below
used_below-all zero used h = refl
used_below-all (suc n) used h =
    let top = h n (omega arith) in
    let rest = used_below-all n used (λ i q. h i (omega arith)) in ground (arith, top, rest)

-- The search passes over indices in use alone.
next_free-skips :
    (left : ℕ) (used : List ℕ) (next i : ℕ)
    → next ≤ i
    → i < next_free left used next
    → is_used used i ≡ true
unfolding next_free
next_free-skips zero used next i low high = absurd (omega arith)
next_free-skips (suc left) used next i low high = elim (Bool-cases (is_used used next)) [
  | inl e ↦
      (let reach : i < next_free left used (suc next) = ground arith in
        elim (Bool-cases (next == i)) [
          | inl q ↦ (let same : next ≡ i = ground arith in ap (is_used used) (sym same) ∙ e)
          | inr q ↦ next_free-skips left used (suc next) i (ground arith) reach
        ])
  | inr e ↦ absurd (ground arith)
]

-- The number of pools that the first loop gives an index.
abbrev with_index : Slot × Option ℕ → Bool
with_index (sl, none) = false
with_index (sl, some i) = true

keep_indices-used :
    (slot_idx : Dict ℕ) (used : List ℕ) (slots : List Slot)
    → used_below slot_count (keep_indices slot_idx used slots).1
      ≡ count with_index (keep_indices slot_idx used slots).0 + used_below slot_count used
unfolding keep_indices
keep_indices-used slot_idx used [] = omega arith
keep_indices-used slot_idx used (sl ∷ slots) =
    elim (Option-cases (kept_index slot_idx used sl.key)) [
      | inl e ↦ rw e (keep_indices-used slot_idx used slots)
      | inr (i, e) ↦
          (let range = kept_index_range slot_idx used sl.key i e in
            let rest = keep_indices-used slot_idx (i ∷ used) slots in
            let new = used_below-new slot_count i used range.0 range.1 in
            rw e (omega (arith, rest, new)))
    ]

pub keep_indices-length :
    (slot_idx : Dict ℕ) (used : List ℕ) (slots : List Slot)
    → length (keep_indices slot_idx used slots).0 ≡ length slots
unfolding keep_indices
keep_indices-length slot_idx used [] = refl
keep_indices-length slot_idx used (sl ∷ slots) =
    ap suc (keep_indices-length slot_idx (with_used used (kept_index slot_idx used sl.key)) slots)

is_used-cons : (j : ℕ) (used : List ℕ) (i : ℕ) → is_used used i ≡ true → is_used (j ∷ used) i ≡ true
unfolding is_used
is_used-cons j used i h = ground (arith, h)

fill_indices-length :
    (next : ℕ) (used : List ℕ) (slots : List (Slot × Option ℕ))
    → next ≤ slot_count
    → ((i : ℕ) → i < next → is_used used i ≡ true)
    → length (fill_indices next used slots)
      ≡ count with_index slots
        + min (length slots - count with_index slots) (slot_count - used_below slot_count used)
unfolding fill_indices
fill_indices-length next used [] low below = ground arith
fill_indices-length next used ((sl, some i) ∷ slots) low below =
    ground (arith, fill_indices-length next used slots low below, count-le-length with_index slots)
fill_indices-length next used ((sl, none) ∷ slots) low below =
    let free = next_free (slot_count - next) used next in
    let lem = next_free_lem (slot_count - next) used next in
    let top : free ≤ slot_count = omega (arith, lem.1) in
    let passed : (i : ℕ) → i < free → is_used used i ≡ true = λ i q.
      elim (Bool-cases (ltb i next)) [
        | inl e ↦ below i (ltb→lt i next e)
        | inr e ↦ next_free-skips (slot_count - next) used next i (ltb→le i next e) q
      ] in
    let few = count-le-length with_index slots in
    if_elim
      (λ (out : List Slot).
        length out
        ≡ count with_index slots
          + min (suc (length slots) - count with_index slots)
              (slot_count - used_below slot_count used))
      (ltb free slot_count)
      (λ yes.
        (let under : free < slot_count = ltb→lt free slot_count yes in
          let new = used_below-new slot_count free used under (lem.2 (omega arith)) in
          let bound = used_below-free slot_count free used under (lem.2 (omega arith)) in
          let rest =
            fill_indices-length free (free ∷ used) slots top
              (λ i q. is_used-cons free used i (passed i q)) in
          ground (arith, rest, new, bound, few)))
      (λ n.
        (let full : used_below slot_count used ≡ slot_count =
            used_below-all slot_count used
              (λ i q. passed i (omega (arith, ltb→le free slot_count n))) in
          let rest = fill_indices-length free used slots top passed in
          ground (arith, rest, full, few)))

used_below-none : (n : ℕ) → used_below n [] ≡ 0
unfolding used_below is_used
used_below-none zero = refl
used_below-none (suc n) = ground (arith, used_below-none n)

-- No pool is left out while an index is free: of n pools, all get an index where n is at most
-- SlotCount, and SlotCount of them otherwise.
pub length-assign_slot_indices :
    (slot_idx : Dict ℕ) (slots : List Slot)
    → length (assign_slot_indices slot_idx slots).0 ≡ min (length slots) slot_count
unfolding assign_slot_indices
length-assign_slot_indices slot_idx slots =
    let kept = keep_indices slot_idx [] slots in
    let used = keep_indices-used slot_idx [] slots in
    let none_used = used_below-none slot_count in
    let same = keep_indices-length slot_idx [] slots in
    let few = count-le-length with_index kept.0 in
    let bound = used_below-le slot_count kept.1 in
    let filled = fill_indices-length 0 kept.1 kept.0 (omega arith) (λ i q. absurd (omega arith)) in
    let sorted = length-sort index_le (fill_indices 0 kept.1 kept.0) in
    ground (arith, used, none_used, same, few, bound, filled, sorted)
