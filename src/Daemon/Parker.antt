-- ===== src/Daemon/Parker.antt =====
-- Parking dead pool nodes: nodeParker of daemon/nodepark.go. Times and durations are nanoseconds.
pub mod Invariant
pub mod Backoff
pub mod Guards
pub mod Events
pub mod Alive
pub mod Release
pub mod Without
use em_xray.Prelude.{
  ℕ, zero, suc, ◌+◌, ◌-◌, ◌*◌, String, Bool, true, false, ◌&&◌, ◌||◌, not, List, [], ◌∷◌, ◌++◌,
  Option, none, some, length, Dict, get, put, delete, keep_if, is_some, ltb, leb, ◌==◌, str_eq,
  if◌then◌else◌,
}
use em_xray.Xray.Tag.{slot_member_tag}
use em_xray.Xray.Slot.{SlotMember, Slot, never_parks}
use em_xray.Daemon.Clock.{minute, hour}

abbrev pub node_dead_before_park : ℕ
node_dead_before_park = 15 * minute

abbrev pub node_trial_window : ℕ
node_trial_window = 3 * minute

abbrev pub node_park_initial : ℕ
node_park_initial = 30 * minute

abbrev pub node_park_max : ℕ
node_park_max = 6 * hour

-- nodeStatus, with the fields of HealthPing beside the others
pub record NodeStatus : Type 0 where
  pub alive : Bool
  pub delay : ℕ
  pub all : ℕ
  pub fail : ℕ

-- nodeStatus.dead
unfoldable pub is_dead : NodeStatus → Bool
is_dead n = not n.alive && (ltb 0 n.all && n.fail == n.all)

-- parkState: 0 is the zero time
pub record ParkState : Type 0 where
  pub dead_since : ℕ
  pub parked_until : ℕ
  pub park_for : ℕ
  pub on_trial : Bool

-- &parkState{}
abbrev pub fresh : ParkState
fresh = record { dead_since = 0; parked_until = 0; park_for = 0; on_trial = false }

-- parkEvent
pub record ParkEvent : Type 0 where
  pub key : String
  pub parked : Bool
  pub for_ : ℕ

-- parked: the keys parked at `now`, with their release time
unfoldable pub parked_keys : ℕ → Dict ParkState → Dict ℕ
parked_keys now [] = []
parked_keys now ((k, st) ∷ nodes) =
    let rest = parked_keys now nodes in
    if ltb now st.parked_until then (k, st.parked_until) ∷ rest else rest

-- The keys of a slot's members, and of every slot's.
unfoldable pub member_key : String → List SlotMember → Bool
member_key k [] = false
member_key k (m ∷ ms) = str_eq m.key k || member_key k ms

unfoldable pub is_loaded : String → List Slot → Bool
unfolding member_key
is_loaded k [] = false
is_loaded k (sl ∷ slots) = member_key k sl.members || is_loaded k slots

-- The loop that forgets nodes that left every pool, unless they are parked.
unfoldable pub forget : List Slot → Dict ParkState → Dict ParkState
forget slots nodes = keep_if (λ k st. is_loaded k slots || not (st.parked_until == 0)) nodes

-- How long a node must have been dead to be parked.
unfoldable pub wait_of : ParkState → ℕ
wait_of ps = if ps.on_trial then node_trial_window else node_dead_before_park

-- ps.deadSince, set to now if it was zero
unfoldable pub mark_dead : ℕ → ParkState → ParkState
mark_dead now ps = if ps.dead_since == 0 then record ps { dead_since = now } else ps

-- The park length of the next park.
unfoldable pub next_park : ParkState → ℕ
next_park ps =
    if ps.park_for == 0
    then node_park_initial
    else if ps.on_trial
    then if ltb node_park_max (ps.park_for * 2) then node_park_max else ps.park_for * 2
    else ps.park_for

unfoldable pub park : ℕ → ParkState → ParkState
park now ps = record {
  dead_since = 0;
  parked_until = now + next_park ps;
  park_for = next_park ps;
  on_trial = false;
}

-- What the loop over a slot's members carries.
pub record Round : Type 0 where
  pub nodes : Dict ParkState
  pub remaining : ℕ
  pub events : List ParkEvent

-- ps := p.nodes[m.Key], and a fresh state where there is none
unfoldable pub state_of : Dict ParkState → String → ParkState
state_of nodes k = elim (get nodes k) [ some ps ↦ ps | none ↦ fresh ]

-- The guard before a park: dead for long enough, a live sibling, and not the pool's last member.
unfoldable pub may_park : ℕ → ℕ → ℕ → ParkState → Bool
may_park now alive_count remaining ps =
    not (ltb (now - ps.dead_since) (wait_of ps) || (alive_count == 0 || leb remaining 1))

-- The case of a dead member.
unfoldable pub observe_dead : ℕ → ℕ → String → Round → Round
observe_dead now alive_count k r =
    let ps = mark_dead now (state_of r.nodes k) in
    if may_park now alive_count r.remaining ps
    then record {
      nodes = put r.nodes k (park now ps);
      remaining = r.remaining - 1;
      events = r.events ++ (record { key = k; parked = true; for_ = next_park ps } ∷ []);
    }
    else record r { nodes = put r.nodes k ps }

-- One member of a slot, by the status of its tag.
unfoldable pub observe_status : ℕ → ℕ → String → Option NodeStatus → Round → Round
observe_status now alive_count k none r = r
observe_status now alive_count k (some st) r =
    if st.alive
    then record r { nodes = delete r.nodes k }
    else if is_dead st
    then observe_dead now alive_count k r
    else r

-- status[m.Key] = st, unless the tag has no status
unfoldable pub add_status : Option NodeStatus → String → Dict NodeStatus → Dict NodeStatus
add_status none k out = out
add_status (some st) k out = put out k st

-- The statuses of a slot's members by member key, and how many are alive.
unfoldable pub statuses : Dict NodeStatus → ℕ → List SlotMember → Dict NodeStatus → Dict NodeStatus
statuses by_tag idx [] out = out
statuses by_tag idx (m ∷ ms) out =
    statuses by_tag idx ms (add_status (get by_tag (slot_member_tag idx m.key)) m.key out)

unfoldable pub count_alive : Dict NodeStatus → ℕ → List SlotMember → ℕ
count_alive by_tag idx [] = 0
count_alive by_tag idx (m ∷ ms) =
    let rest = count_alive by_tag idx ms in
    elim (get by_tag (slot_member_tag idx m.key)) [
      | none ↦ rest
      | some st ↦ if st.alive then suc rest else rest
    ]

unfoldable pub observe_members : ℕ → ℕ → Dict NodeStatus → List SlotMember → Round → Round
observe_members now alive_count status [] r = r
observe_members now alive_count status (m ∷ ms) r =
    observe_members now alive_count status ms
      (observe_status now alive_count m.key (get status m.key) r)

-- One slot: the nodes and the events so far, and after it.
unfoldable pub observe_slot :
    ℕ → Dict NodeStatus → Slot → Dict ParkState × List ParkEvent → Dict ParkState × List ParkEvent
observe_slot now by_tag sl (nodes, events) =
    if never_parks sl
    then (nodes, events)
    else let r =
        observe_members now (count_alive by_tag sl.index sl.members)
          (statuses by_tag sl.index sl.members []) sl.members
          (record { nodes = nodes; remaining = length sl.members; events = events }) in
      (r.nodes, r.events)

unfoldable pub observe_slots :
    ℕ
    → Dict NodeStatus
    → List Slot
    → Dict ParkState × List ParkEvent
    → Dict ParkState × List ParkEvent
observe_slots now by_tag [] p = p
observe_slots now by_tag (sl ∷ slots) p =
    observe_slots now by_tag slots (observe_slot now by_tag sl p)

-- observe: the new nodes and the events
unfoldable pub observe :
    ℕ → List Slot → Dict NodeStatus → Dict ParkState → Dict ParkState × List ParkEvent
unfolding forget is_loaded observe_slots observe_slot statuses add_status count_alive
    observe_members observe_status is_dead observe_dead state_of mark_dead may_park wait_of park
    next_park
observe now slots by_tag nodes = observe_slots now by_tag slots (forget slots nodes, [])
