-- ===== src/Daemon/Parker/Guards.antt =====
-- The guards before a park in daemon/nodepark.go: what an event of a round says.
use em_xray.Prelude.{
  ℕ, ◌+◌, ◌≤◌, ◌≡◌, String, true, [], ◌∷◌, arith, length, length-append, Option, Dict, List, get,
  ◌<◌, if_elim, ◌∙◌, some, refl, none,
}
use em_xray.Daemon.Parker.{
  Round, mark_dead, state_of, next_park, may_park, observe_dead, observe_status, observe_members,
  observe_slot, NodeStatus, Slot, SlotMember, ParkState, ParkEvent, never_parks, count_alive,
  statuses, is_dead,
}

-- What a round keeps: the members left and the parks add up, and one member is left.
record IsKept (r r' : Round) : Type 0 where
  counted : r'.remaining + length r'.events ≡ r.remaining + length r.events
  some_left : 1 ≤ r.remaining → 1 ≤ r'.remaining

observe_dead-IsKept :
    (now alive_count : ℕ) (k : String) (r : Round) → IsKept r (observe_dead now alive_count k r)
unfolding observe_dead may_park
observe_dead-IsKept now alive_count k r = ground (
  arith,
  length-append r.events (
      record { key = k; parked = true; for_ = next_park (mark_dead now (state_of r.nodes k)) }
      ∷ []),
)

observe_status-IsKept :
    (now alive_count : ℕ) (k : String) (o : Option NodeStatus) (r : Round)
    → IsKept r (observe_status now alive_count k o r)
unfolding observe_status
observe_status-IsKept now alive_count k none r = ground arith
observe_status-IsKept now alive_count k (some st) r =
    if_elim (IsKept r) st.alive (λ _. ground arith)
      λ _.
        if_elim (IsKept r) (is_dead st) (λ _. observe_dead-IsKept now alive_count k r)
          (λ _. ground arith)

observe_members-IsKept :
    (now alive_count : ℕ) (status : Dict NodeStatus) (ms : List SlotMember) (r : Round)
    → IsKept r (observe_members now alive_count status ms r)
unfolding observe_members
observe_members-IsKept now alive_count status [] r = ground arith
observe_members-IsKept now alive_count status (m ∷ ms) r =
    let r' = observe_status now alive_count m.key (get status m.key) r in
    let first : IsKept r r' = observe_status-IsKept now alive_count m.key (get status m.key) r in
    let rest = observe_members-IsKept now alive_count status ms r' in ground arith

-- Parking never empties a pool: a round over a slot with members parks fewer nodes than it has
-- members, whatever their health.
pub parks-lt-members :
    (now : ℕ) (by_tag : Dict NodeStatus) (sl : Slot) (nodes : Dict ParkState)
    (events : List ParkEvent)
    → 0 < length sl.members
    → length (observe_slot now by_tag sl (nodes, events)).1 < length events + length sl.members
unfolding observe_slot
parks-lt-members now by_tag sl nodes events h =
    if_elim
      (λ (p : Dict ParkState × List ParkEvent). length p.1 < length events + length sl.members)
      (never_parks sl) (λ _. omega arith)
      λ _.
        let r : Round = record { nodes = nodes; remaining = length sl.members; events = events } in
        let kept : IsKept r _ =
          observe_members-IsKept now (count_alive by_tag sl.index sl.members)
            (statuses by_tag sl.index sl.members []) sl.members r in
        omega arith

observe_status-events :
    (now : ℕ) (k : String) (o : Option NodeStatus) (r : Round)
    → (observe_status now 0 k o r).events ≡ r.events
unfolding observe_status observe_dead may_park
observe_status-events now k none r = refl
observe_status-events now k (some st) r = ground arith

observe_members-events :
    (now : ℕ) (status : Dict NodeStatus) (ms : List SlotMember) (r : Round)
    → (observe_members now 0 status ms r).events ≡ r.events
unfolding observe_members
observe_members-events now status [] r = refl
observe_members-events now status (m ∷ ms) r =
    observe_members-events now status ms (observe_status now 0 m.key (get status m.key) r)
    ∙ observe_status-events now m.key (get status m.key) r

-- With no member of a slot alive, nothing of the slot is parked: the uplink may be down.
pub observe_slot-events_dead :
    (now : ℕ) (by_tag : Dict NodeStatus) (sl : Slot) (nodes : Dict ParkState)
    (events : List ParkEvent)
    → count_alive by_tag sl.index sl.members ≡ 0
    → (observe_slot now by_tag sl (nodes, events)).1 ≡ events
unfolding observe_slot
observe_slot-events_dead now by_tag sl nodes events none_alive =
    if_elim (λ (p : Dict ParkState × List ParkEvent). p.1 ≡ events) (never_parks sl) (λ _. refl)
      λ _. rw none_alive (observe_members-events now _ sl.members _)
