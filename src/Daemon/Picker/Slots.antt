-- ===== src/Daemon/Picker/Slots.antt =====
-- pickFor, pickSlot, pickSlots, poolOrder, knownDead and wentDown of daemon/nodepick.go.
use em_xray.Daemon.Picker.Stable.{pick}
use em_xray.Daemon.Picker.Agile.{pick_agile}
use em_xray.Daemon.Picker.{
  Floats, NodeScore, score_cost, slot_member_tag, tier_of, tier_dead, tier_healthy,
}
use em_xray.Daemon.Picker.Rank.{ChainVerdict}
use em_xray.Xray.Slot.{
  Slot, MasterPick, SlotMember, pick_of, is_manual, slot_masters, is_agile, pick_active_count,
}
use em_xray.Prelude.{
  ℕ, List, [], ◌∷◌, String, some, none, true, false, Bool, Option, Dict, str_eq, if◌then◌else◌, get,
  not, sort, ◌&&◌, All, ◌||◌, put, ◌==◌, ◌≡◌, if_elim, All-sort, length, ltb, arith, str_le, refl,
}

unfoldable pub has_slot_key : String → List Slot → Bool
has_slot_key key [] = false
has_slot_key key (sl ∷ slots) = str_eq sl.key key || has_slot_key key slots

-- var prev xray.Slot
abbrev pub empty_slot : Slot
empty_slot = record {
  master = "";
  aliases = [];
  key = "";
  index = 0;
  members = [];
  picked = [];
  active = 0;
  master_picks = [];
  strategy = "";
  auto = false;
  pinned = [];
}

-- was[key], the last slot with the key
unfoldable pub slot_was : List Slot → String → Slot
slot_was [] key = empty_slot
slot_was (sl ∷ slots) key = elim (has_slot_key key slots) [
  | true ↦ slot_was slots key
  | false ↦ if str_eq sl.key key then sl else empty_slot
]

abbrev pub pick_record : List String × ℕ → MasterPick
pick_record (keys, active) = record { picked = keys; active = active }

-- cand of poolOrder
pub record OrderCand (F : Type 0) : Type 0 where
  pub key : String
  pub tier : ℕ
  pub score : Option (NodeScore F)

module _ {F : Type 0} (fl : Floats F) where
  -- pickFor
  unfoldable pub pick_for :
      Dict (NodeScore F) → Slot → MasterPick → Dict (ChainVerdict F) → List String × ℕ
  pick_for scores sl prev view =
      if is_manual sl
      then (sl.pinned, length sl.pinned)
      else if is_agile sl
      then pick_agile fl scores view sl.index sl.members prev.picked (pick_active_count prev)
      else pick fl scores view sl.index sl.members prev.picked

  -- The loop over the masters; `views master` is chain.view(master, sl.Members).
  unfoldable pub pick_masters :
      Dict (NodeScore F)
      → (String → Dict (ChainVerdict F))
      → Slot
      → Slot
      → List String
      → Dict MasterPick
      → Dict MasterPick
  pick_masters scores views sl prev [] picks = picks
  pick_masters scores views sl prev (master ∷ masters) picks =
      let skip = pick_masters scores views sl prev masters picks in
      let own = pick_record (pick_for scores sl (pick_of prev master) (views master)) in
      let more = pick_masters scores views sl prev masters (put picks master own) in
      if length (views master) == 0 then skip else more

  -- pickSlot
  unfoldable pub pick_slot :
      Dict (NodeScore F) → (String → Dict (ChainVerdict F)) → Slot → Slot → Slot
  pick_slot scores views sl prev =
      let pool = pick_for scores sl (record { picked = prev.picked; active = prev.active }) [] in
      let ranked = record sl { picked = pool.0; active = pool.1; master_picks = [] } in
      if is_manual sl then ranked else record ranked {
        master_picks = pick_masters scores views ranked prev (slot_masters sl) [];
      }

  -- pickSlots; `views sl master` is chain.view(master, sl.Members)
  unfoldable pub pick_slots :
      Dict (NodeScore F)
      → (Slot → String → Dict (ChainVerdict F))
      → List Slot
      → List Slot
      → List Slot
  pick_slots scores views prev [] = []
  pick_slots scores views prev (sl ∷ slots) =
      pick_slot scores (views sl) sl (slot_was prev sl.key) ∷ pick_slots scores views prev slots

  -- The order of poolOrder.
  abbrev less_success : Option (NodeScore F) → Option (NodeScore F) → Bool → Bool
  less_success none b by_key = by_key
  less_success (some a) none by_key = by_key
  less_success (some a) (some b) by_key =
      if not (fl.same a.success b.success) then fl.below b.success a.success else by_key

  abbrev below_cost : Option (NodeScore F) → Option (NodeScore F) → Bool
  below_cost none b = false
  below_cost (some a) none = false
  below_cost (some a) (some b) = fl.below (score_cost fl a) (score_cost fl b)

  unfoldable pub less_order : OrderCand F → OrderCand F → Bool
  less_order a b =
      if not (a.tier == b.tier)
      then ltb a.tier b.tier
      else if a.tier == tier_healthy
      then below_cost a.score b.score
      else less_success a.score b.score (not (str_le b.key a.key))

  unfoldable pub order_cands : Dict (NodeScore F) → ℕ → List SlotMember → List (OrderCand F)
  order_cands scores idx [] = []
  order_cands scores idx (m ∷ ms) =
      let sc = get scores (slot_member_tag idx m.key) in
      let rest = order_cands scores idx ms in
      if tier_of fl sc == tier_dead
      then rest
      else record { key = m.key; tier = tier_of fl sc; score = sc } ∷ rest

  abbrev pub order_not_after : OrderCand F → OrderCand F → Bool
  order_not_after a b = not (less_order b a)

  unfoldable pub order_keys : List (OrderCand F) → List String
  order_keys [] = []
  order_keys (c ∷ cs) = c.key ∷ order_keys cs

  -- poolOrder
  unfoldable pub pool_order : Dict (NodeScore F) → ℕ → List SlotMember → List String
  pool_order scores idx members = order_keys (sort order_not_after (order_cands scores idx members))

  -- knownDead
  abbrev pub is_known_dead : Option (NodeScore F) → Bool
  is_known_dead none = false
  is_known_dead (some sc) = sc.sampled && not sc.alive

  unfoldable pub known_dead : Dict (NodeScore F) → String → Bool
  known_dead scores tag = is_known_dead (get scores tag)

  -- wentDown
  abbrev pub has_gone_down : Option (NodeScore F) → Bool
  has_gone_down none = false
  has_gone_down (some sc) = sc.went_down

  unfoldable pub went_down_keys : Dict (NodeScore F) → ℕ → List SlotMember → List String
  went_down_keys scores idx [] = []
  went_down_keys scores idx (m ∷ ms) =
      let rest = went_down_keys scores idx ms in
      if has_gone_down (get scores (slot_member_tag idx m.key)) then m.key ∷ rest else rest

  -- No member that failed every ping of the latest poll stands in the order of a pool.
  module _ (scores : Dict (NodeScore F)) (idx : ℕ) where
    abbrev IsUp : String → Type 0
    IsUp key = known_dead scores (slot_member_tag idx key) ≡ false

    tier-known_dead :
        (o : Option (NodeScore F)) → (tier_of fl o == tier_dead) ≡ false → is_known_dead o ≡ false
    unfolding tier_of
    tier-known_dead none h = refl
    tier-known_dead (some sc) h = ground (arith, h)

    order_cands-AreUp :
        (ms : List SlotMember) → All (λ (c : OrderCand F). IsUp c.key) (order_cands scores idx ms)
    unfolding order_cands known_dead
    order_cands-AreUp [] = tt
    order_cands-AreUp (m ∷ ms) =
        let sc = get scores (slot_member_tag idx m.key) in
        let rest = order_cands-AreUp ms in
        if_elim (λ (cs : List (OrderCand F)). All (λ (c : OrderCand F). IsUp c.key) cs)
          (tier_of fl sc == tier_dead) (λ _. rest) (λ q. (tier-known_dead sc q, rest))

    order_keys-AreUp :
        (cs : List (OrderCand F))
        → All (λ (c : OrderCand F). IsUp c.key) cs
        → All IsUp (order_keys cs)
    unfolding order_keys
    order_keys-AreUp [] h = tt
    order_keys-AreUp (c ∷ cs) h = (h.0, order_keys-AreUp cs h.1)

    -- No member of the order of a pool is known to be dead: none failed every ping of the latest poll
    -- that pinged it.
    pub pool_order-AreUp : (ms : List SlotMember) → All IsUp (pool_order scores idx ms)
    unfolding pool_order
    pool_order-AreUp ms = order_keys-AreUp (sort order_not_after (order_cands scores idx ms)) (
        All-sort order_not_after (λ (c : OrderCand F). IsUp c.key) (order_cands scores idx ms)
          (order_cands-AreUp ms))
