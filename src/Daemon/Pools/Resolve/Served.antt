-- ===== src/Daemon/Pools/Resolve/Served.antt =====
-- Which masters resolveDialerSlots of daemon/xray.go serves once the indices are given.
use em_xray.Daemon.Pools.Assign.Count.{length-assign_slot_indices, keep_indices-length}
use em_xray.Daemon.Pools.Resolve.{
  resolve_dialer_slots, PoolInputs, XrayEntry, ParkState, resolve_masters, entries_by_name,
  parked_keys, live_masters, is_live_master,
}
use em_xray.Daemon.Pools.Resolve.Seats.{seats, is_named, seats-live_masters}
use em_xray.Daemon.Pools.Assign.{
  keep_indices, fill_indices, index_le, next_free, slot_count, with_used, assign_slot_indices,
  kept_index,
}
use em_xray.Prelude.{
  ℕ, suc, List, [], ◌∷◌, String, some, none, Option, Dict, insert, sort, ◌≡◌, length, ap, ◌≤◌,
  arith, if_elim, ◌∙◌, refl, ◌-◌, ltb, length-sort, count, ◌&&◌,
}
use em_xray.Xray.Slot.{Slot, slot_masters}

seats-insert :
    (sl : Slot) (slots : List Slot) (k : String)
    → seats k (insert index_le sl slots) ≡ seats k (sl ∷ slots)
unfolding insert
seats-insert sl [] k = refl
seats-insert sl (s ∷ slots) k =
    let rest = seats-insert sl slots k in
    if_elim (λ (out : List Slot). seats k out ≡ seats k (sl ∷ s ∷ slots)) (index_le sl s)
      (λ yes. refl) (λ n. omega (arith, rest))

seats-sort : (slots : List Slot) (k : String) → seats k (sort index_le slots) ≡ seats k slots
unfolding sort
seats-sort [] k = refl
seats-sort (sl ∷ slots) k =
    let rest = seats-sort slots k in seats-insert sl (sort index_le slots) k ∙ omega (arith, rest)

-- The slots of the first loop without their indices.
abbrev bare : List (Slot × Option ℕ) → List Slot
bare [] = []
bare ((sl, i) ∷ slots) = sl ∷ bare slots

bare-keep_indices :
    (slot_idx : Dict ℕ) (used : List ℕ) (slots : List Slot)
    → bare (keep_indices slot_idx used slots).0 ≡ slots
unfolding keep_indices
bare-keep_indices slot_idx used [] = refl
bare-keep_indices slot_idx used (sl ∷ slots) =
    ap (λ r. sl ∷ r)
      (bare-keep_indices slot_idx (with_used used (kept_index slot_idx used sl.key)) slots)

length-fill_indices-le :
    (next : ℕ) (used : List ℕ) (slots : List (Slot × Option ℕ))
    → length (fill_indices next used slots) ≤ length slots
unfolding fill_indices
length-fill_indices-le next used [] = omega arith
length-fill_indices-le next used ((sl, some i) ∷ slots) =
    omega (arith, length-fill_indices-le next used slots)
length-fill_indices-le next used ((sl, none) ∷ slots) =
    let free = next_free (slot_count - next) used next in
    let dropped = length-fill_indices-le free used slots in
    let rest = length-fill_indices-le free (free ∷ used) slots in
    if_elim (λ (out : List Slot). length out ≤ suc (length slots)) (ltb free slot_count)
      (λ yes. omega (arith, rest)) (λ n. omega (arith, dropped))

seats-fill_indices :
    (next : ℕ) (used : List ℕ) (slots : List (Slot × Option ℕ)) (k : String)
    → length (fill_indices next used slots) ≡ length slots
    → seats k (fill_indices next used slots) ≡ seats k (bare slots)
unfolding fill_indices slot_masters
seats-fill_indices next used [] k h = refl
seats-fill_indices next used ((sl, some i) ∷ slots) k h =
    let rest = seats-fill_indices next used slots k (omega (arith, h)) in omega (arith, rest)
seats-fill_indices next used ((sl, none) ∷ slots) k h =
    let free = next_free (slot_count - next) used next in
    let dropped = length-fill_indices-le free used slots in
    let rest = seats-fill_indices free (free ∷ used) slots k in
    if_elim
      (λ (out : List Slot).
        length out ≡ suc (length slots) → seats k out ≡ seats k (sl ∷ bare slots))
      (ltb free slot_count) (λ yes q. (let r = rest (omega (arith, q)) in omega (arith, r)))
      (λ n q. absurd (omega (arith, q, dropped))) h

seats-assign_slot_indices :
    (slot_idx : Dict ℕ) (slots : List Slot) (k : String)
    → length slots ≤ slot_count
    → seats k (assign_slot_indices slot_idx slots).0 ≡ seats k slots
unfolding assign_slot_indices
seats-assign_slot_indices slot_idx slots k few =
    let kept = keep_indices slot_idx [] slots in
    let filled = fill_indices 0 kept.1 kept.0 in
    let all = length-assign_slot_indices slot_idx slots in
    let sorted = length-sort index_le filled in
    let same = keep_indices-length slot_idx [] slots in
    seats-sort filled k
    ∙ seats-fill_indices 0 kept.1 kept.0 k (omega (arith, all, sorted, same, few))
    ∙ ap (seats k) (bare-keep_indices slot_idx [] slots)

-- Every enabled master is served, and nobody else: each is the owner or an alias of as many slots as
-- there are entries of its name, also where its dialer cannot be read or its pool is empty. There are at
-- most SlotCount pools.
pub seats-resolve_dialer_slots :
    (inp : PoolInputs) (slot_idx : Dict ℕ) (entries : List XrayEntry) (nodes : Dict ParkState)
    (k : String)
    → length
        (resolve_masters
          (record inp { by_name = entries_by_name entries []; parked = parked_keys inp.now nodes })
          (live_masters entries)
          (record { slots = []; nodes = nodes })).slots
      ≤ slot_count
    → seats k (resolve_dialer_slots inp slot_idx entries nodes).0
      ≡ count (λ e. is_live_master e && is_named k e) entries
unfolding resolve_dialer_slots
seats-resolve_dialer_slots inp slot_idx entries nodes k few =
    seats-assign_slot_indices slot_idx _ k few ∙ seats-live_masters _ entries nodes k
