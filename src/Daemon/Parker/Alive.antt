-- ===== src/Daemon/Parker/Alive.antt =====
-- A live member loses its history in a round of observe in daemon/nodepark.go.
use em_xray.Prelude.{
  ℕ, String, Dict, List, get, ◌≡◌, some, true, false, none, str_eq, [], ◌∙◌, length, if_elim,
  get-put, if◌then◌else◌, arith, ◌∷◌, eq_iff, refl, get-delete, Option, is_some, ◌&&◌,
}
use em_xray.Daemon.Parker.{
  ParkState, statuses, observe_slot, member_key, NodeStatus, Slot, SlotMember, ParkEvent,
  slot_member_tag, never_parks, observe_dead, observe_status, observe_members, Round, count_alive,
  mark_dead, state_of, may_park, park, add_status,
}

get-add_status :
    (o : Option NodeStatus) (j : String) (out : Dict NodeStatus) (k : String)
    → get (add_status o j out) k ≡ (if is_some o && str_eq j k then o else get out k)
unfolding add_status
get-add_status none j out k = refl
get-add_status (some st) j out k = get-put out j k st

get-statuses :
    (by_tag : Dict NodeStatus) (idx : ℕ) (ms : List SlotMember) (out : Dict NodeStatus) (k : String)
    (st : NodeStatus)
    → get by_tag (slot_member_tag idx k) ≡ some st
    → get (statuses by_tag idx ms out) k ≡ (if member_key k ms then some st else get out k)
unfolding statuses member_key
get-statuses by_tag idx [] out k st h = refl
get-statuses by_tag idx (m ∷ ms) out k st h = ground (
  arith,
  get-add_status (get by_tag (slot_member_tag idx m.key)) m.key out k,
  get-statuses by_tag idx ms (add_status (get by_tag (slot_member_tag idx m.key)) m.key out) k st h,
  eq_iff m.key k,
)

module _ (now alive_count : ℕ) (status : Dict NodeStatus) (k : String) (st : NodeStatus)
    (found : get status k ≡ some st) (alive : st.alive ≡ true) where
  get-observe_dead :
      (j : String) (r : Round)
      → str_eq j k ≡ false
      → get (observe_dead now alive_count j r).nodes k ≡ get r.nodes k
  unfolding observe_dead
  get-observe_dead j r other =
      let ps = mark_dead now (state_of r.nodes j) in
      if_elim (λ (r' : Round). get r'.nodes k ≡ get r.nodes k)
        (may_park now alive_count r.remaining ps)
        (λ _. get-put r.nodes j k (park now ps) ∙ rw other) (λ _. get-put r.nodes j k ps ∙ rw other)

  get-observe_status :
      (j : String) (r : Round)
      → get (observe_status now alive_count j (get status j) r).nodes k
        ≡ (if str_eq j k then none else get r.nodes k)
  unfolding observe_status
  get-observe_status j r =
      ground (arith, eq_iff j k, get-delete r.nodes j k, get-observe_dead j r, found, alive)

  get-observe_members :
      (ms : List SlotMember) (r : Round)
      → get (observe_members now alive_count status ms r).nodes k
        ≡ (if member_key k ms then none else get r.nodes k)
  unfolding observe_members member_key
  get-observe_members [] r = refl
  get-observe_members (m ∷ ms) r = ground (
    arith,
    get-observe_status m.key r,
    get-observe_members ms (observe_status now alive_count m.key (get status m.key) r),
  )

-- A member that a round of a parking pool finds alive has no history after the slot's turn, so its
-- next death is counted, and its next park timed, from the start.
pub get-observe_slot_alive :
    (now : ℕ) (by_tag : Dict NodeStatus) (sl : Slot) (nodes : Dict ParkState)
    (events : List ParkEvent) (k : String) (st : NodeStatus)
    → never_parks sl ≡ false
    → member_key k sl.members ≡ true
    → get by_tag (slot_member_tag sl.index k) ≡ some st
    → st.alive ≡ true
    → get (observe_slot now by_tag sl (nodes, events)).0 k ≡ none
unfolding observe_slot
get-observe_slot_alive now by_tag sl nodes events k st parks member polled alive = rw parks (
    get-observe_members now (count_alive by_tag sl.index sl.members)
      (statuses by_tag sl.index sl.members []) k st
      (get-statuses by_tag sl.index sl.members [] k st polled ∙ rw member) alive sl.members
      (record { nodes = nodes; remaining = length sl.members; events = events })
    ∙ rw member)
