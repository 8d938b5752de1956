-- ===== src/Daemon/Picker.antt =====
-- The scores of the members: nodeScore and observe of daemon/nodepick.go. A float64 is an element of
-- `F` with the operations of the record Floats; how they round is left open.
pub mod Rank
pub mod Stable
pub mod Agile
pub mod Slots
pub mod Observed
use em_xray.Xray.Tag.{slot_member_tag}
use em_xray.Xray.Slot.{Slot, SlotMember}
use em_xray.Daemon.Parker.{NodeStatus}
use em_xray.Daemon.Uplink.{sampled, uplink_down}
use em_xray.Prelude.{
  ℕ, zero, suc, List, [], ◌∷◌, String, some, none, true, false, Bool, Option, Dict, if◌then◌else◌,
  ◌++◌, ◌-◌, ◌==◌, ◌&&◌, keep_if, contains, ltb, not, ◌||◌, get, put,
}

pub record Floats (F : Type 0) : Type 0 where
  -- The literal m / 10 ^ k, and float64 of a number.
  pub literal : ℕ → ℕ → F
  pub of_nat : ℕ → F
  pub plus : F → F → F
  pub minus : F → F → F
  pub times : F → F → F
  pub over : F → F → F
  pub below : F → F → Bool
  pub same : F → F → Bool

-- nodeScore
pub record NodeScore (F : Type 0) : Type 0 where
  pub success : F
  pub rtt_ms : F
  pub last_rtt : F
  pub has_rtt : Bool
  pub alive : Bool
  pub clean : Bool
  pub sampled : Bool
  pub went_down : Bool

-- tierHealthy, tierUnknown, tierSuspect, tierChainBad, tierDead
abbrev pub tier_healthy : ℕ
tier_healthy = 0

abbrev pub tier_unknown : ℕ
tier_unknown = 1

abbrev pub tier_suspect : ℕ
tier_suspect = 2

abbrev pub tier_chain_bad : ℕ
tier_chain_bad = 3

abbrev pub tier_dead : ℕ
tier_dead = 4

-- The keys of the set `loaded`, each once.
unfoldable pub once : List String → List String
once [] = []
once (t ∷ ts) = let rest = once ts in if contains ts t then rest else t ∷ rest

-- The tags of the loaded members.
unfoldable pub member_tags : ℕ → List SlotMember → List String
member_tags idx [] = []
member_tags idx (m ∷ ms) = slot_member_tag idx m.key ∷ member_tags idx ms

unfoldable pub loaded_tags : List Slot → List String
loaded_tags [] = []
loaded_tags (sl ∷ slots) = member_tags sl.index sl.members ++ loaded_tags slots

module _ {F : Type 0} (fl : Floats F) where
  -- nodeScoreAlpha, nodeHealthyRatio, nodeStickyRatio, nodeStickyMs
  abbrev pub node_score_alpha : F
  node_score_alpha = fl.literal 15 2

  abbrev pub node_healthy_ratio : F
  node_healthy_ratio = fl.literal 8 1

  abbrev pub node_sticky_ratio : F
  node_sticky_ratio = fl.literal 125 2

  abbrev pub node_sticky_ms : F
  node_sticky_ms = fl.literal 40 0

  -- x += nodeScoreAlpha * (now - x)
  abbrev pub smooth : F → F → F
  smooth x now = fl.plus x (fl.times node_score_alpha (fl.minus now x))

  -- float64(All-Fail) / float64(All)
  abbrev pub ratio_of : NodeStatus → F
  ratio_of st = fl.over (fl.of_nat (st.all - st.fail)) (fl.of_nat st.all)

  -- &nodeScore{ok: ratio}
  abbrev pub new_score : F → NodeScore F
  new_score ratio = record {
    success = ratio;
    rtt_ms = fl.literal 0 0;
    last_rtt = fl.literal 0 0;
    has_rtt = false;
    alive = false;
    clean = false;
    sampled = false;
    went_down = false;
  }

  abbrev pub score_or_new : F → Option (NodeScore F) → NodeScore F
  score_or_new ratio none = new_score ratio
  score_or_new ratio (some sc) = record sc { success = smooth sc.success ratio }

  -- The latency of a poll: the latest and the smoothed one.
  abbrev pub note_rtt : NodeStatus → NodeScore F → NodeScore F
  note_rtt st sc =
      if st.alive && ltb 0 st.delay
      then record sc {
        last_rtt = fl.of_nat st.delay;
        rtt_ms = if sc.has_rtt then smooth sc.rtt_ms (fl.of_nat st.delay) else fl.of_nat st.delay;
        has_rtt = true;
      }
      else sc

  abbrev pub note_state : NodeStatus → NodeScore F → NodeScore F
  note_state st sc = record sc { alive = st.alive; clean = st.fail == 0; sampled = true }

  -- The rest of a round for a tag with pings.
  unfoldable pub note_sample : NodeStatus → Option (NodeScore F) → NodeScore F
  note_sample st old =
      let sc = score_or_new (ratio_of st) old in
      note_state st
        (note_rtt st (record sc { went_down = sc.sampled && (sc.alive && not st.alive) }))

  abbrev pub not_sampled : Option (NodeScore F) → Option (NodeScore F)
  not_sampled none = none
  not_sampled (some sc) = some (record sc { sampled = false })

  -- The score of a tag after its round: folded where the node had pings, else not of this poll.
  unfoldable pub observed : Option NodeStatus → Option (NodeScore F) → Option (NodeScore F)
  observed none old = not_sampled old
  observed (some st) old = some (note_sample st old)

  abbrev pub store_score : Dict (NodeScore F) → String → Option (NodeScore F) → Dict (NodeScore F)
  store_score scores tag none = scores
  store_score scores tag (some sc) = put scores tag sc

  -- One round of the last loop of observe.
  unfoldable pub observe_tag : Dict NodeStatus → String → Dict (NodeScore F) → Dict (NodeScore F)
  observe_tag by_tag tag scores =
      store_score scores tag (observed (sampled (get by_tag tag)) (get scores tag))

  unfoldable pub observe_tags :
      Dict NodeStatus → List String → Dict (NodeScore F) → Dict (NodeScore F)
  observe_tags by_tag [] scores = scores
  observe_tags by_tag (tag ∷ tags) scores = observe_tags by_tag tags (observe_tag by_tag tag scores)

  -- sc.wentDown = false
  unfoldable pub rest_scores : Dict (NodeScore F) → Dict (NodeScore F)
  rest_scores [] = []
  rest_scores ((tag, sc) ∷ scores) = (tag, record sc { went_down = false }) ∷ rest_scores scores

  -- observe: the scores, and whether the poll counts
  unfoldable pub observe_scores :
      List Slot → Dict NodeStatus → Dict (NodeScore F) → Dict (NodeScore F) × Bool
  observe_scores slots by_tag scores =
      let loaded = loaded_tags slots in
      let kept = rest_scores (keep_if (λ tag sc. contains loaded tag) scores) in
      if uplink_down by_tag slots
      then (kept, false)
      else (observe_tags by_tag (once loaded) kept, true)

  -- nodeScore.cost
  unfoldable pub score_cost : NodeScore F → F
  score_cost sc =
      let low = fl.literal 5 2 in
      let success = if fl.below sc.success low then low else sc.success in
      fl.over sc.rtt_ms (fl.times success success)

  -- nodeScore.tier
  unfoldable pub tier_of : Option (NodeScore F) → ℕ
  tier_of none = tier_unknown
  tier_of (some sc) =
      if not sc.sampled
      then tier_unknown
      else if not sc.alive
      then tier_dead
      else if not sc.clean || (fl.below sc.success node_healthy_ratio || not sc.has_rtt)
      then tier_suspect
      else tier_healthy
