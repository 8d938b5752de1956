-- ===== src/Daemon/Parker/Events.antt =====
-- What the events of a round of observe in daemon/nodepark.go report.
use em_xray.Daemon.Parker.Invariant.{
  IsSound, observe_status-IsSound, mark_dead-IsSound, state_of-IsSound,
}
use mathlib.Core.Path.{subst}
use em_xray.Prelude.{
  ℕ, String, Dict, get, List, ◌≡◌, All, Option, AllValues, some, ◌⊎◌, inl, true, ◌≤◌, ◌∷◌, arith,
  if_elim, [], inr, none, refl, get-put, eq_iff, All-append, str_eq, ◌∙◌, sym,
}
use em_xray.Daemon.Parker.{
  ParkEvent, statuses, next_park, observe_slot, NodeStatus, ParkState, slot_member_tag,
  observe_dead, observe_status, observe_members, Slot, SlotMember, Round, is_dead,
  node_park_initial, node_park_max, mark_dead, state_of, never_parks, may_park, add_status,
}

add_status_polled :
    (by_tag : Dict NodeStatus) (idx : ℕ) (o : Option NodeStatus) (j : String)
    (out : Dict NodeStatus) (k : String) {st : NodeStatus}
    → get by_tag (slot_member_tag idx j) ≡ o
    → get (add_status o j out) k ≡ some st
    → (get out k ≡ some st) ⊎ (get by_tag (slot_member_tag idx k) ≡ some st)
unfolding add_status
add_status_polled by_tag idx none j out k polled h = inl h
add_status_polled by_tag idx (some new) j out k {st} polled h =
    if_elim
      (λ o. o ≡ some st → (get out k ≡ some st) ⊎ (get by_tag (slot_member_tag idx k) ≡ some st))
      (str_eq j k)
      (λ same e. inr (
        subst (λ i. get by_tag (slot_member_tag idx i) ≡ some st) ((eq_iff j k).0 same)
          (polled ∙ e)))
      (λ _ e. inl e) (sym (get-put out j k new) ∙ h)

-- A status that the round's map holds is the one polled for the member's tag.
statuses_polled :
    (by_tag : Dict NodeStatus) (idx : ℕ) (ms : List SlotMember) (out : Dict NodeStatus) (k : String)
    {st : NodeStatus}
    → get (statuses by_tag idx ms out) k ≡ some st
    → (get out k ≡ some st) ⊎ (get by_tag (slot_member_tag idx k) ≡ some st)
unfolding statuses
statuses_polled by_tag idx [] out k h = inl h
statuses_polled by_tag idx (m ∷ ms) out k {st} h =
    let polled = get by_tag (slot_member_tag idx m.key) in
    elim (statuses_polled by_tag idx ms (add_status polled m.key out) k h) [
      | inl e ↦ add_status_polled by_tag idx polled m.key out k refl e
      | inr e ↦ inr e
    ]

next_park_floor : (ps : ParkState) → IsSound ps → node_park_initial ≤ next_park ps
unfolding next_park
next_park_floor ps h = ground arith

next_park_cap : (ps : ParkState) → IsSound ps → next_park ps ≤ node_park_max
unfolding next_park
next_park_cap ps h = ground arith

-- An event for a node that the polled statuses show dead, for a park of a proper length.
pub record IsPark (by_tag : Dict NodeStatus) (idx : ℕ) (e : ParkEvent) : Type 0 where
  pub status : NodeStatus
  pub found : get by_tag (slot_member_tag idx e.key) ≡ some status
  pub dead : is_dead status ≡ true
  pub parks : e.parked ≡ true
  pub floored : node_park_initial ≤ e.for_
  pub capped : e.for_ ≤ node_park_max

module _ (by_tag : Dict NodeStatus) (idx : ℕ) where
  abbrev AllParks : List ParkEvent → Type 0
  AllParks = All (IsPark by_tag idx)

  observe_dead-AllParks :
      (now alive_count : ℕ) (k : String) (st : NodeStatus) (r : Round)
      → get by_tag (slot_member_tag idx k) ≡ some st
      → is_dead st ≡ true
      → AllValues IsSound r.nodes
      → AllParks r.events
      → AllParks (observe_dead now alive_count k r).events
  unfolding observe_dead
  observe_dead-AllParks now alive_count k st r found dead sound h =
      let ps = mark_dead now (state_of r.nodes k) in
      let marked : IsSound ps = mark_dead-IsSound now _ (state_of-IsSound r.nodes k sound) in
      let e : ParkEvent = record { key = k; parked = true; for_ = next_park ps } in
      let park : IsPark by_tag idx e = record {
        status = st;
        found = found;
        dead = dead;
        parks = refl;
        floored = next_park_floor ps marked;
        capped = next_park_cap ps marked;
      } in
      if_elim (λ (r' : Round). AllParks r'.events) (may_park now alive_count r.remaining ps)
        (λ _. All-append _ r.events (e ∷ []) h (park, tt)) (λ _. h)

  observe_status-AllParks :
      (now alive_count : ℕ) (k : String) (o : Option NodeStatus) (r : Round)
      → ((st : NodeStatus) → o ≡ some st → get by_tag (slot_member_tag idx k) ≡ some st)
      → AllValues IsSound r.nodes
      → AllParks r.events
      → AllParks (observe_status now alive_count k o r).events
  unfolding observe_status
  observe_status-AllParks now alive_count k none r polled sound h = h
  observe_status-AllParks now alive_count k (some st) r polled sound h =
      if_elim (λ (r' : Round). AllParks r'.events) st.alive (λ _. h)
        λ _.
          if_elim (λ (r' : Round). AllParks r'.events) (is_dead st)
            (λ dead. observe_dead-AllParks now alive_count k st r (polled st refl) dead sound h)
            (λ _. h)

  observe_members-AllParks :
      (now alive_count : ℕ) (status : Dict NodeStatus) (ms : List SlotMember) (r : Round)
      → ((k : String) (st : NodeStatus)
          → get status k ≡ some st
          → get by_tag (slot_member_tag idx k) ≡ some st)
      → AllValues IsSound r.nodes
      → AllParks r.events
      → AllParks (observe_members now alive_count status ms r).events
  unfolding observe_members
  observe_members-AllParks now alive_count status [] r polled sound h = h
  observe_members-AllParks now alive_count status (m ∷ ms) r polled sound h =
      observe_members-AllParks now alive_count status ms
        (observe_status now alive_count m.key (get status m.key) r) polled
        (observe_status-IsSound now alive_count m.key (get status m.key) r sound)
        (observe_status-AllParks now alive_count m.key (get status m.key) r (polled m.key) sound h)

not_found : {P : Type 0} (st : NodeStatus) → none ≡ some st → P
not_found st e = cc

-- What a round over one slot reports: from sound states, every new event is the park of a node of
-- the slot's tags whose polled status is dead, for nodeParkInitial at least and nodeParkMax at most.
pub observe_slot-IsPark :
    (now : ℕ) (by_tag : Dict NodeStatus) (sl : Slot) (nodes : Dict ParkState)
    → AllValues IsSound nodes
    → All (IsPark by_tag sl.index) (observe_slot now by_tag sl (nodes, [])).1
unfolding observe_slot get
observe_slot-IsPark now by_tag sl nodes sound =
    if_elim (λ (p : Dict ParkState × List ParkEvent). All (IsPark by_tag sl.index) p.1)
      (never_parks sl) (λ _. tt)
      λ _.
        observe_members-AllParks by_tag sl.index now _ _ sl.members _
          (λ k st h. elim (statuses_polled by_tag sl.index sl.members [] k h) [
            | inl e ↦ not_found st e
            | inr e ↦ e
          ])
          sound tt
