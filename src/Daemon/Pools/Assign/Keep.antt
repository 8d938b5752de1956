-- ===== src/Daemon/Pools/Assign/Keep.antt =====
-- The pools that keep their index: assignSlotIndices of daemon/xray.go.
use em_xray.Daemon.Pools.Assign.{
  kept_index, is_used, keep_indices, fill_indices, assign_slot_indices, slot_count, next_free,
  index_le,
}
use em_xray.Prelude.{
  ℕ, List, [], ◌∷◌, String, some, none, true, false, Bool, Option, Dict, str_eq, ◌&&◌, get, ◌≡◌,
  ◌==◌, count, ◌<◌, Option-cases, arith, ◌≤◌, inl, Bool-cases, ◌-◌, count-sort, inr, eq_iff,
  if_elim, ap, ltb, refl, ◌∙◌,
}
use em_xray.Xray.Slot.{Slot}

abbrev pub has_key : String → Slot → Bool
has_key k sl = str_eq sl.key k

abbrev pub is_at : String → ℕ → Slot → Bool
is_at k i sl = str_eq sl.key k && sl.index == i

abbrev kept_at : String → ℕ → Slot × Option ℕ → Bool
kept_at k i (sl, none) = false
kept_at k i (sl, some j) = str_eq sl.key k && j == i

kept_index_own :
    (slot_idx : Dict ℕ) (used : List ℕ) (k : String) (i : ℕ)
    → get slot_idx k ≡ some i
    → i < slot_count
    → is_used used i ≡ false
    → kept_index slot_idx used k ≡ some i
unfolding kept_index
kept_index_own slot_idx used k i had low free = rw (had, kept_index) (ground arith)

kept_index_had :
    (slot_idx : Dict ℕ) (used : List ℕ) (k : String) (i : ℕ)
    → kept_index slot_idx used k ≡ some i
    → get slot_idx k ≡ some i
unfolding kept_index
kept_index_had slot_idx used k i e = elim (Option-cases (get slot_idx k)) [
  | inl h ↦ absurd (ground arith)
  | inr (j, h) ↦ ground arith
]

is_used-new :
    (j : ℕ) (used : List ℕ) (i : ℕ)
    → j == i ≡ false
    → is_used used i ≡ false
    → is_used (j ∷ used) i ≡ false
unfolding is_used
is_used-new j used i apart free = ground arith

count-kept_at :
    (slot_idx : Dict ℕ) (used : List ℕ) (slots : List Slot) (k : String) (i : ℕ)
    → get slot_idx k ≡ some i
    → ((j : String) → get slot_idx j ≡ some i → str_eq j k ≡ true)
    → i < slot_count
    → is_used used i ≡ false
    → count (has_key k) slots ≤ 1
    → count (has_key k) slots ≤ count (kept_at k i) (keep_indices slot_idx used slots).0
unfolding keep_indices
count-kept_at slot_idx used [] k i had own low free once = omega arith
count-kept_at slot_idx used (sl ∷ slots) k i had own low free once =
    elim (Bool-cases (str_eq sl.key k)) [
      | inl e ↦
          (let same : sl.key ≡ k = (eq_iff sl.key k).0 e in
            let at : kept_index slot_idx used sl.key ≡ some i =
              ap (kept_index slot_idx used) same ∙ kept_index_own slot_idx used k i had low free in
            rw at (ground arith))
      | inr e ↦ elim (Option-cases (kept_index slot_idx used sl.key)) [
        | inl o ↦
            (let rest = count-kept_at slot_idx used slots k i had own low free (ground arith) in
              rw o (ground (arith, rest)))
        | inr (j, o) ↦
            (let mine = own sl.key in
              let from = kept_index_had slot_idx used sl.key j o in
              let apart : j == i ≡ false = elim (Bool-cases (j == i)) [
                | inl q ↦ absurd (
                    let same : j ≡ i = ground arith in
                    let clash = mine (from ∙ ap some same) in ground (arith, clash))
                | inr q ↦ q
              ] in
              let rest =
                count-kept_at slot_idx (j ∷ used) slots k i had own low
                  (is_used-new j used i apart free) (ground arith) in
              rw o (ground (arith, rest)))
      ]
    ]

count-fill_at :
    (next : ℕ) (used : List ℕ) (slots : List (Slot × Option ℕ)) (k : String) (i : ℕ)
    → count (kept_at k i) slots ≤ count (is_at k i) (fill_indices next used slots)
unfolding fill_indices
count-fill_at next used [] k i = omega arith
count-fill_at next used ((sl, some j) ∷ slots) k i =
    ground (arith, count-fill_at next used slots k i)
count-fill_at next used ((sl, none) ∷ slots) k i =
    let free = next_free (slot_count - next) used next in
    let dropped = count-fill_at free used slots k i in
    let rest = count-fill_at free (free ∷ used) slots k i in
    if_elim (λ (out : List Slot). count (kept_at k i) slots ≤ count (is_at k i) out)
      (ltb free slot_count) (λ yes. ground (arith, rest)) (λ n. dropped)

-- A pool keeps the index it had, so its tags and its port stay: if the index is below SlotCount and
-- no other pool had it, the pool is in the result with that index. The pools have different keys.
pub assign_slot_indices_keeps :
    (slot_idx : Dict ℕ) (slots : List Slot) (k : String) (i : ℕ)
    → get slot_idx k ≡ some i
    → ((j : String) → get slot_idx j ≡ some i → str_eq j k ≡ true)
    → i < slot_count
    → count (has_key k) slots ≡ 1
    → 1 ≤ count (is_at k i) (assign_slot_indices slot_idx slots).0
unfolding assign_slot_indices is_used
assign_slot_indices_keeps slot_idx slots k i had own low once =
    let kept = keep_indices slot_idx [] slots in
    let first = count-kept_at slot_idx [] slots k i had own low refl (omega arith) in
    let second = count-fill_at 0 kept.1 kept.0 k i in
    let sorted = count-sort index_le (is_at k i) (fill_indices 0 kept.1 kept.0) in
    omega (arith, first, second, sorted)
