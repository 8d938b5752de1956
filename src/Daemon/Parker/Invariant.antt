-- ===== src/Daemon/Parker/Invariant.antt =====
-- What holds of every park state of daemon/nodepark.go, whatever the order of the operations.
use em_xray.Prelude.{
  ℕ, ◌≤◌, ◌≡◌, ◌≢◌, ◌⊎◌, inl, inr, String, true, none, some, Option, List, [], ◌∷◌, Dict, get,
  delete, AllValues, AllValues-put, AllValues-delete, AllValues-keep_if, AllValues-get,
  Option-cases, if_elim, arith,
}
use em_xray.Xray.Slot.{SlotMember, Slot, never_parks}
use em_xray.Daemon.Parker.{
  ParkState, ParkEvent, NodeStatus, Round, fresh, node_park_initial, node_park_max, mark_dead, park,
  state_of, next_park, may_park, observe_dead, observe_status, observe_members, observe_slot,
  observe_slots, observe, forget, is_dead,
}
use em_xray.Daemon.Parker.Release.{release, release_states, unpark, is_due}

-- A park length is unset or within its bounds, and it is set on trial and while parked.
pub record IsSound (ps : ParkState) : Type 0 where
  pub capped : ps.park_for ≤ node_park_max
  pub floored : (ps.park_for ≡ 0) ⊎ (node_park_initial ≤ ps.park_for)
  pub trial_parked : ps.on_trial ≡ true → node_park_initial ≤ ps.park_for
  pub parked_timed : ps.parked_until ≢ 0 → node_park_initial ≤ ps.park_for

pub fresh-IsSound : IsSound fresh
fresh-IsSound = ground arith

pub mark_dead-IsSound : (now : ℕ) (ps : ParkState) → IsSound ps → IsSound (mark_dead now ps)
unfolding mark_dead
mark_dead-IsSound now ps h = ground arith

pub park-IsSound : (now : ℕ) (ps : ParkState) → IsSound ps → IsSound (park now ps)
unfolding park next_park
park-IsSound now ps h = ground arith

pub state_of-IsSound :
    (nodes : Dict ParkState) (k : String) → AllValues IsSound nodes → IsSound (state_of nodes k)
unfolding state_of
state_of-IsSound nodes k h = elim (Option-cases (get nodes k)) [
  | inl e ↦ rw (e, state_of) fresh-IsSound
  | inr (ps, e) ↦ rw (e, state_of) (AllValues-get IsSound nodes k h e)
]

observe_dead-IsSound :
    (now alive_count : ℕ) (k : String) (r : Round)
    → AllValues IsSound r.nodes
    → AllValues IsSound (observe_dead now alive_count k r).nodes
unfolding observe_dead
observe_dead-IsSound now alive_count k r h =
    let marked : IsSound (mark_dead now (state_of r.nodes k)) =
      mark_dead-IsSound now _ (state_of-IsSound r.nodes k h) in
    if_elim (λ (r' : Round). AllValues IsSound r'.nodes) (may_park now alive_count r.remaining _)
      (λ _. AllValues-put IsSound r.nodes k _ (park-IsSound now _ marked) h)
      (λ _. AllValues-put IsSound r.nodes k _ marked h)

pub observe_status-IsSound :
    (now alive_count : ℕ) (k : String) (o : Option NodeStatus) (r : Round)
    → AllValues IsSound r.nodes
    → AllValues IsSound (observe_status now alive_count k o r).nodes
unfolding observe_status
observe_status-IsSound now alive_count k none r h = h
observe_status-IsSound now alive_count k (some st) r h =
    if_elim (λ (r' : Round). AllValues IsSound r'.nodes) st.alive
      (λ _. AllValues-delete IsSound r.nodes k h)
      λ _.
        if_elim (λ (r' : Round). AllValues IsSound r'.nodes) (is_dead st)
          (λ _. observe_dead-IsSound now alive_count k r h) (λ _. h)

observe_members-IsSound :
    (now alive_count : ℕ) (status : Dict NodeStatus) (ms : List SlotMember) (r : Round)
    → AllValues IsSound r.nodes
    → AllValues IsSound (observe_members now alive_count status ms r).nodes
unfolding observe_members
observe_members-IsSound now alive_count status [] r h = h
observe_members-IsSound now alive_count status (m ∷ ms) r h =
    observe_members-IsSound now alive_count status ms _
      (observe_status-IsSound now alive_count m.key (get status m.key) r h)

pub observe_slot-IsSound :
    (now : ℕ) (by_tag : Dict NodeStatus) (sl : Slot) (nodes : Dict ParkState)
    (events : List ParkEvent)
    → AllValues IsSound nodes
    → AllValues IsSound (observe_slot now by_tag sl (nodes, events)).0
unfolding observe_slot
observe_slot-IsSound now by_tag sl nodes events h =
    if_elim (λ (p : Dict ParkState × List ParkEvent). AllValues IsSound p.0) (never_parks sl)
      (λ _. h) (λ _. observe_members-IsSound now _ _ sl.members _ h)

observe_slots-IsSound :
    (now : ℕ) (by_tag : Dict NodeStatus) (slots : List Slot) (p : Dict ParkState × List ParkEvent)
    → AllValues IsSound p.0
    → AllValues IsSound (observe_slots now by_tag slots p).0
unfolding observe_slots
observe_slots-IsSound now by_tag [] p h = h
observe_slots-IsSound now by_tag (sl ∷ slots) p h =
    observe_slots-IsSound now by_tag slots (observe_slot now by_tag sl p)
      (observe_slot-IsSound now by_tag sl p.0 p.1 h)

observe-IsSound :
    (now : ℕ) (slots : List Slot) (by_tag : Dict NodeStatus) (nodes : Dict ParkState)
    → AllValues IsSound nodes
    → AllValues IsSound (observe now slots by_tag nodes).0
unfolding observe
observe-IsSound now slots by_tag nodes h =
    observe_slots-IsSound now by_tag slots (forget slots nodes, [])
      (AllValues-keep_if IsSound _ nodes h)

release_states-IsSound :
    (now : ℕ) (nodes : Dict ParkState)
    → AllValues IsSound nodes
    → AllValues IsSound (release_states now nodes)
unfolding release_states is_due
release_states-IsSound now [] h = tt
release_states-IsSound now ((k, st) ∷ nodes) h =
    (ground arith, release_states-IsSound now nodes h.1)

unpark-IsSound :
    (now : ℕ) (keys : List String) (nodes : Dict ParkState)
    → AllValues IsSound nodes
    → AllValues IsSound (unpark now keys nodes).0
unfolding unpark
unpark-IsSound now [] nodes h = h
unpark-IsSound now (k ∷ keys) nodes h =
    unpark-IsSound now keys (delete nodes k) (AllValues-delete IsSound nodes k h)

-- The calls that change the park states, each with the time that it reads.
pub data Call : Type 0 where
  observing : ℕ → List Slot → Dict NodeStatus → Call
  releasing : ℕ → Call
  unparking : ℕ → List String → Call

unfoldable pub after_call : Call → Dict ParkState → Dict ParkState
after_call (observing now slots by_tag) nodes = (observe now slots by_tag nodes).0
after_call (releasing now) nodes = (release now nodes).0
after_call (unparking now keys) nodes = (unpark now keys nodes).0

-- A parker's states after some calls, from the empty map of newNodeParker.
unfoldable pub after_calls : List Call → Dict ParkState
unfolding after_call
after_calls [] = []
after_calls (c ∷ calls) = after_call c (after_calls calls)

after_call-IsSound :
    (c : Call) (nodes : Dict ParkState)
    → AllValues IsSound nodes
    → AllValues IsSound (after_call c nodes)
unfolding after_call release
after_call-IsSound (observing now slots by_tag) nodes h = observe-IsSound now slots by_tag nodes h
after_call-IsSound (releasing now) nodes h = release_states-IsSound now nodes h
after_call-IsSound (unparking now keys) nodes h = unpark-IsSound now keys nodes h

-- After any observe, release and unpark calls in any order, at any times, every park state is sound:
-- its park length is 0 or between nodeParkInitial and nodeParkMax, and it is not 0 while the node
-- is parked or on trial.
pub after_calls-IsSound : (calls : List Call) → AllValues IsSound (after_calls calls)
unfolding after_calls
after_calls-IsSound [] = tt
after_calls-IsSound (c ∷ calls) =
    after_call-IsSound c (after_calls calls) (after_calls-IsSound calls)
