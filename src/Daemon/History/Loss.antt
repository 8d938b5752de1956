-- ===== src/Daemon/History/Loss.antt =====
-- Pick losses in daemon/nodehistory.go: how many poolStats counts, and what an uplink loss is not.
use em_xray.Daemon.Uplink.{uplink_down, any_member, any_slot, sample_alive, any_sampled, any_alive}
use em_xray.Daemon.History.{
  NodeSample, HealthRound, sample_member, sample_members, add_parked, round_of, NodeStatus,
  HealthRole, Slot, SlotMember, PoolHistory, known_keys, sample_of, slot_roles, role_of,
  parked_sample, trim_rounds, record_pool, pool_of, record_slots, record_poll, node_history_window,
  pool_loaded,
}
use mathlib.Core.Path.{subst}
use em_xray.Prelude.{
  ℕ, ◌+◌, Bool, List, ◌≡◌, Option, Dict, ◌≤◌, false, true, String, length, AllValues, if◌then◌else◌,
  some, ◌∷◌, arith, AllValues-put, if_elim, not, none, is_some, [], refl, get, ◌&&◌, ◌*◌, All,
  Bool-cases, ◌-◌, Option-cases, AllValues-keep_if, ltb, inl, ◌++◌, inr, All-append, AllValues-get,
  ◌⊎◌,
}
use em_xray.Daemon.History.Stats.{losses, is_dead_state, is_loss, pool_stats}

losses_bound :
    (in_loss : Bool) (rounds : List HealthRound)
    → (losses in_loss rounds).0 + (losses in_loss rounds).0
      ≤ length rounds + (if in_loss then 0 else 1)
unfolding losses
losses_bound in_loss [] = ground arith
losses_bound in_loss (r ∷ rounds) = ground (arith, losses_bound (is_loss r) rounds)

-- A sample that blames no node.
abbrev Blameless : NodeSample → Type 0
Blameless s = is_dead_state s.state ≡ false

-- Every round of a history is an old one, or no sample in it is dead.
abbrev IsNoBlame : (HealthRound → Type 0) → HealthRound → Type 0
IsNoBlame Old r = Old r ⊎ AllValues Blameless r.nodes

abbrev pub IsFair : (HealthRound → Type 0) → PoolHistory → Type 0
IsFair Old ph = All (IsNoBlame Old) ph.rounds

-- The member did not answer, if it was probed.
abbrev pub IsSilent : Option NodeStatus → Type 0
IsSilent none = Unit
IsSilent (some st) = st.alive ≡ false

-- No loaded member answered.
abbrev pub AreSilent : Dict NodeStatus → List Slot → Type 0
AreSilent by_tag slots =
    All (λ (sl : Slot). All (λ (m : SlotMember). IsSilent (sample_of by_tag sl m)) sl.members) slots

module _ (by_tag : Dict NodeStatus) where
  -- A member that was probed in a poll with this verdict on the uplink is not blamed.
  abbrev Covered : Bool → Slot → SlotMember → Type 0
  Covered down sl m = is_some (sample_of by_tag sl m) ≡ true → down ≡ true

  none_alive-members :
      (sl : Slot) (ms : List SlotMember)
      → All (λ (m : SlotMember). IsSilent (sample_of by_tag sl m)) ms
      → any_member sample_alive by_tag sl ms ≡ false
  unfolding any_member
  none_alive-members sl [] h = refl
  none_alive-members sl (m ∷ ms) h = elim (Option-cases (sample_of by_tag sl m)) [
    | inl q ↦ (let ih = none_alive-members sl ms h.1 in ground (arith, ih, q))
    | inr (st, q) ↦
        (let ih = none_alive-members sl ms h.1 in
          let silent : st.alive ≡ false = subst IsSilent q h.0 in ground (arith, ih, q, silent))
  ]

  none_alive :
      (slots : List Slot) → AreSilent by_tag slots → any_slot sample_alive by_tag slots ≡ false
  unfolding any_slot
  none_alive [] h = refl
  none_alive (sl ∷ slots) h =
      let here = none_alive-members sl sl.members h.0 in
      let rest = none_alive slots h.1 in ground (arith, here, rest)

  members-Covered :
      (down : Bool) (sl : Slot) (ms : List SlotMember)
      → (any_member is_some by_tag sl ms ≡ true → down ≡ true)
      → All (Covered down sl) ms
  unfolding any_member
  members-Covered down sl [] h = tt
  members-Covered down sl (m ∷ ms) h =
      (λ on. h (ground (arith, on)), members-Covered down sl ms (λ on. h (ground (arith, on))))

  slots-Covered :
      (down : Bool) (slots : List Slot)
      → (any_slot is_some by_tag slots ≡ true → down ≡ true)
      → All (λ (sl : Slot). All (Covered down sl) sl.members) slots
  unfolding any_slot
  slots-Covered down [] h = tt
  slots-Covered down (sl ∷ slots) h = (
    members-Covered down sl sl.members (λ on. h (ground (arith, on))),
    slots-Covered down slots (λ on. h (ground (arith, on))),
  )

  poll-Covered :
      (slots : List Slot)
      → AreSilent by_tag slots
      → All (λ (sl : Slot). All (Covered (uplink_down by_tag slots) sl) sl.members) slots
  unfolding uplink_down any_sampled any_alive
  poll-Covered slots h =
      let dead = none_alive slots h in
      slots-Covered (uplink_down by_tag slots) slots (λ on. ground (arith, on, dead))

  sample_member-Blameless :
      (down : Bool) (o : Option NodeStatus) (role : HealthRole)
      → (is_some o ≡ true → down ≡ true)
      → Blameless (sample_member down o role)
  unfolding sample_member
  sample_member-Blameless down none role h = refl
  sample_member-Blameless down (some st) role h = let on = h refl in ground (arith, on)

  sample_members-Blameless :
      (down : Bool) (sl : Slot) (roles : Dict HealthRole) (ms : List SlotMember)
      (nodes : Dict NodeSample)
      → All (Covered down sl) ms
      → AllValues Blameless nodes
      → AllValues Blameless (sample_members down by_tag sl roles ms nodes)
  unfolding sample_members
  sample_members-Blameless down sl roles [] nodes cover h = h
  sample_members-Blameless down sl roles (m ∷ ms) nodes cover h =
      sample_members-Blameless down sl roles ms _ cover.1 (
        AllValues-put Blameless nodes m.key _
          (sample_member-Blameless down (sample_of by_tag sl m) (role_of roles m.key) cover.0) h)

  add_parked-Blameless :
      (parked : Dict ℕ) (ks : List String) (nodes : Dict NodeSample)
      → AllValues Blameless nodes
      → AllValues Blameless (add_parked parked ks nodes)
  unfolding add_parked
  add_parked-Blameless parked [] nodes h = h
  add_parked-Blameless parked (k ∷ ks) nodes h = add_parked-Blameless parked ks _ (
      if_elim (AllValues Blameless) (not (is_some (get nodes k)) && is_some (get parked k))
        (λ _. AllValues-put Blameless nodes k parked_sample refl h) (λ _. h))

  module _ (Old : HealthRound → Type 0) where
    trim_rounds-Fair :
        (cutoff : ℕ) (rounds : List HealthRound)
        → All (IsNoBlame Old) rounds
        → All (IsNoBlame Old) (trim_rounds cutoff rounds)
    unfolding trim_rounds
    trim_rounds-Fair cutoff [] h = tt
    trim_rounds-Fair cutoff (r ∷ rounds) h = elim (Bool-cases (ltb r.at cutoff)) [
      | inl q ↦ rw (q, trim_rounds) (trim_rounds-Fair cutoff rounds h.1)
      | inr q ↦ rw (q, trim_rounds) h
    ]

    record_pool-IsFair :
        (now : ℕ) (down : Bool) (parked : Dict ℕ) (sl : Slot) (ph : PoolHistory)
        → All (Covered down sl) sl.members
        → IsFair Old ph
        → IsFair Old (record_pool now down by_tag parked sl ph)
    unfolding record_pool round_of
    record_pool-IsFair now down parked sl ph cover h =
        trim_rounds-Fair (now - node_history_window)
          (ph.rounds ++ (round_of now down by_tag parked sl ph ∷ []))
          (All-append (IsNoBlame Old) ph.rounds (round_of now down by_tag parked sl ph ∷ []) h (
            inr (
                add_parked-Blameless parked (known_keys ph) _
                  (sample_members-Blameless down sl (slot_roles sl) sl.members [] cover tt)),
            tt,
          ))

    pool_of-IsFair :
        (pools : Dict PoolHistory) (k : String)
        → AllValues (IsFair Old) pools
        → IsFair Old (pool_of pools k)
    unfolding pool_of
    pool_of-IsFair pools k h = elim (Option-cases (get pools k)) [
      | inl q ↦ rw (q, pool_of) tt
      | inr (ph, q) ↦ rw (q, pool_of) (AllValues-get (IsFair Old) pools k h q)
    ]

    record_slots-IsFair :
        (now : ℕ) (down : Bool) (parked : Dict ℕ) (slots : List Slot) (pools : Dict PoolHistory)
        → All (λ (sl : Slot). All (Covered down sl) sl.members) slots
        → AllValues (IsFair Old) pools
        → AllValues (IsFair Old) (record_slots now down by_tag parked slots pools)
    unfolding record_slots
    record_slots-IsFair now down parked [] pools cover h = h
    record_slots-IsFair now down parked (sl ∷ slots) pools cover h =
        record_slots-IsFair now down parked slots _ cover.1 (
          AllValues-put (IsFair Old) pools sl.key _
            (record_pool-IsFair now down parked sl (pool_of pools sl.key) cover.0
              (pool_of-IsFair pools sl.key h))
            h)

    -- A poll in which no loaded member answers blames no node, though every probe of it failed:
    -- whatever the rounds before it have in common, each round after it has that too or holds no dead
    -- member.
    pub record_poll-IsFair :
        (now : ℕ) (slots : List Slot) (parked : Dict ℕ) (pools : Dict PoolHistory)
        → AreSilent by_tag slots
        → AllValues (IsFair Old) pools
        → AllValues (IsFair Old) (record_poll now slots by_tag parked pools)
    unfolding record_poll
    record_poll-IsFair now slots parked pools silent h =
        AllValues-keep_if (IsFair Old) (λ k ph. pool_loaded slots k) _
          (record_slots-IsFair now (uplink_down by_tag slots) parked slots pools
            (poll-Covered slots silent) h)

-- The losses that poolStats counts are apart: no more than every second round begins one.
pub pick_loss_bound :
    (key : String) (masters : List String) (r : HealthRound) (rounds : List HealthRound)
    → (pool_stats key masters r rounds).pick_loss * 2 ≤ length (r ∷ rounds) + 1
unfolding pool_stats
pick_loss_bound key masters r rounds = omega (arith, losses_bound false (r ∷ rounds))
