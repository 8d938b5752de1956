-- ===== src/Daemon/Picker/Stable.antt =====
-- pick of daemon/nodepick.go: the stable ranking of one pool.
pub mod Kept
pub mod Failed
pub mod Keys
use em_xray.Xray.Slot.{slot_balancer_expected}
use em_xray.Daemon.Picker.{
  Floats, NodeScore, tier_of, SlotMember, tier_chain_bad, slot_member_tag, score_cost, tier_healthy,
  tier_unknown, tier_dead,
}
use em_xray.Daemon.Picker.Rank.{ChainVerdict, Cand, chain_good, verdict_of, rank, chain_bad}
use em_xray.Prelude.{
  ℕ, zero, suc, List, [], ◌∷◌, String, some, none, true, false, Bool, Option, Dict, ◌==◌,
  if◌then◌else◌, contains, get, not, ltb, drop, min, ◌&&◌, take, length, ◌||◌, sort, str_le, ◌++◌,
}

-- nodePickCount
abbrev pub node_pick_count : ℕ
node_pick_count = 3

module _ {F : Type 0} (fl : Floats F) where
  -- Whether a candidate fails the master's chain, and whether the one at an index does.
  abbrev pub is_failed : Cand F → Bool
  is_failed c = c.tier == tier_chain_bad

  abbrev pub head_failed : List (Cand F) → Bool
  head_failed [] = false
  head_failed (c ∷ cs) = is_failed c

  abbrev pub failed_at : ℕ → List (Cand F) → Bool
  failed_at i [] = false
  failed_at zero (c ∷ cs) = is_failed c
  failed_at (suc i) (c ∷ cs) = failed_at i cs

  -- The tier of a member, for a view of the chain.
  unfoldable pub tier_in : Dict (NodeScore F) → Dict (ChainVerdict F) → ℕ → String → ℕ
  tier_in scores view idx key =
      let tier = tier_of fl (get scores (slot_member_tag idx key)) in
      if (verdict_of fl view key).class == chain_bad && not (tier == tier_dead)
      then tier_chain_bad
      else tier

  -- c.raw
  abbrev pub raw_of : Option (NodeScore F) → ChainVerdict F → F
  raw_of none v = fl.literal 0 0
  raw_of (some sc) v = if v.class == chain_good then v.cost else score_cost fl sc

  -- One round of the loop over the members.
  unfoldable pub cand_of :
      Dict (NodeScore F) → Dict (ChainVerdict F) → ℕ → List String → SlotMember → Cand F
  cand_of scores view idx incumbent m =
      let v = verdict_of fl view m.key in
      let sc = get scores (slot_member_tag idx m.key) in
      let tier = tier_in scores view idx m.key in
      let raw = if tier == tier_healthy then raw_of sc v else fl.literal 0 0 in
      record {
        key = m.key;
        tier = tier;
        class = v.class;
        score = sc;
        raw = raw;
        cost = raw;
        inc = contains incumbent m.key;
      }

  unfoldable pub cands_of :
      Dict (NodeScore F) → Dict (ChainVerdict F) → ℕ → List String → List SlotMember → List (Cand F)
  cands_of scores view idx incumbent [] = []
  cands_of scores view idx incumbent (m ∷ ms) =
      cand_of scores view idx incumbent m ∷ cands_of scores view idx incumbent ms

  -- scored
  unfoldable pub any_scored : Dict (NodeScore F) → ℕ → List SlotMember → Bool
  any_scored scores idx [] = false
  any_scored scores idx (m ∷ ms) =
      not (tier_of fl (get scores (slot_member_tag idx m.key)) == tier_unknown)
      || any_scored scores idx ms

  -- top[i].inc = wasActive[top[i].key]
  unfoldable pub set_inc : List String → List (Cand F) → List (Cand F)
  set_inc was_active [] = []
  set_inc was_active (c ∷ cs) = record c { inc = contains was_active c.key } ∷ set_inc was_active cs

  -- The loop `for active > 1 && …`.
  unfoldable pub shrink_active : ℕ → List (Cand F) → ℕ
  shrink_active zero top = 0
  shrink_active (suc a) top =
      let fewer = shrink_active a top in
      if ltb 1 (suc a) && (not (head_failed top) && failed_at a top) then fewer else suc a

  -- The candidates before the first that failed.
  unfoldable pub until_failed : List (Cand F) → List (Cand F)
  until_failed [] = []
  until_failed (c ∷ cs) = let rest = until_failed cs in if is_failed c then [] else c ∷ rest

  -- The cut of the spare.
  unfoldable pub spares_of : ℕ → List (Cand F) → List (Cand F)
  spares_of active top = if head_failed top then drop active top else until_failed (drop active top)

  unfoldable pub cand_keys : List (Cand F) → List String
  cand_keys [] = []
  cand_keys (c ∷ cs) = c.key ∷ cand_keys cs

  -- The candidates in their final order: the second ranking of the best.
  unfoldable pub top_of :
      Dict (NodeScore F) → Dict (ChainVerdict F) → ℕ → List SlotMember → List String → List (Cand F)
  top_of scores view idx members incumbent = rank fl (
      set_inc (take slot_balancer_expected incumbent)
        (take node_pick_count (rank fl (cands_of scores view idx incumbent members))))

  -- pickStableLocked
  unfoldable pub pick_stable :
      Dict (NodeScore F)
      → Dict (ChainVerdict F)
      → ℕ
      → List SlotMember
      → List String
      → List String × ℕ
  pick_stable scores view idx members incumbent =
      let top = top_of scores view idx members incumbent in
      let active = shrink_active (min slot_balancer_expected (length top)) top in
      if any_scored scores idx members
      then (sort str_le (cand_keys (take active top)) ++ cand_keys (spares_of active top), active)
      else ([], 0)

  -- pick; without members it picks nothing
  unfoldable pub pick :
      Dict (NodeScore F)
      → Dict (ChainVerdict F)
      → ℕ
      → List SlotMember
      → List String
      → List String × ℕ
  pick scores view idx [] incumbent = ([], 0)
  pick scores view idx (m ∷ ms) incumbent = pick_stable scores view idx (m ∷ ms) incumbent
