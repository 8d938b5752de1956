-- ===== src/Daemon/Picker/Agile.antt =====
-- pickAgile of daemon/nodepick.go: the ranking of a pool whose nodes come and go.
pub mod Live
use em_xray.Daemon.Picker.Stable.{pick_stable}
use em_xray.Daemon.Picker.{
  Floats, NodeScore, SlotMember, slot_member_tag, node_sticky_ratio, node_sticky_ms,
}
use em_xray.Daemon.Picker.Rank.{ChainVerdict, chain_good, verdict_of, chain_bad}
use em_xray.Prelude.{
  ℕ, zero, suc, List, [], ◌∷◌, String, some, none, true, false, Bool, Option, Dict, if◌then◌else◌,
  ◌&&◌, not, sort, min, ◌==◌, get, str_le, length, take, ltb, ◌++◌, drop, contains, ◌||◌,
}

-- agileActiveMax
abbrev pub agile_active_max : ℕ
agile_active_max = 4

-- cand of pickAgile, of a live member and of another
pub record LiveCand (F : Type 0) : Type 0 where
  pub key : String
  pub class : ℕ
  pub cost : F

pub record RestCand (F : Type 0) : Type 0 where
  pub key : String
  pub score : Option (NodeScore F)

-- The lists that the loop over the members builds.
pub record Split (F : Type 0) : Type 0 where
  pub alive : List (LiveCand F)
  pub alive_bad : List (LiveCand F)
  pub rest : List (RestCand F)
  pub scored : Bool

module _ {F : Type 0} (fl : Floats F) where
  -- c.cost
  unfoldable pub live_cost : ChainVerdict F → Bool → NodeScore F → F
  live_cost v was_active sc =
      let ping = if fl.same sc.last_rtt (fl.literal 0 0) then sc.rtt_ms else sc.last_rtt in
      let cost = if v.class == chain_good then v.cost else ping in
      if was_active
      then fl.minus (fl.over cost (node_sticky_ratio fl)) (node_sticky_ms fl)
      else cost

  -- Whether the score of a member is of the latest round, and alive in it.
  abbrev pub is_live : Option (NodeScore F) → Bool
  is_live none = false
  is_live (some sc) = sc.sampled && sc.alive

  abbrev pub is_sampled : Option (NodeScore F) → Bool
  is_sampled none = false
  is_sampled (some sc) = sc.sampled

  abbrev pub live_cand : String → ChainVerdict F → Bool → Option (NodeScore F) → LiveCand F
  live_cand key v was_active none = record { key = key; class = v.class; cost = fl.literal 0 0 }
  live_cand key v was_active (some sc) = record {
    key = key;
    class = v.class;
    cost = live_cost v was_active sc;
  }

  -- One round of the loop, in front of the later ones.
  unfoldable pub split_member :
      Dict (NodeScore F) → Dict (ChainVerdict F) → ℕ → List String → SlotMember → Split F → Split F
  split_member scores view idx was_active m later =
      let sc = get scores (slot_member_tag idx m.key) in
      let v = verdict_of fl view m.key in
      let c = live_cand m.key v (contains was_active m.key) sc in
      if not (is_live sc)
      then record later {
        rest = record { key = m.key; score = sc } ∷ later.rest;
        scored = is_sampled sc || later.scored;
      }
      else if v.class == chain_bad
      then record later { alive_bad = c ∷ later.alive_bad; scored = true }
      else record later { alive = c ∷ later.alive; scored = true }

  unfoldable pub split_members :
      Dict (NodeScore F) → Dict (ChainVerdict F) → ℕ → List String → List SlotMember → Split F
  split_members scores view idx was_active [] = record {
    alive = [];
    alive_bad = [];
    rest = [];
    scored = false;
  }
  split_members scores view idx was_active (m ∷ ms) =
      split_member scores view idx was_active m (split_members scores view idx was_active ms)

  -- byCost
  unfoldable pub less_live : LiveCand F → LiveCand F → Bool
  less_live a b =
      if not (a.class == b.class)
      then ltb a.class b.class
      else if not (fl.same a.cost b.cost)
      then fl.below a.cost b.cost
      else not (str_le b.key a.key)

  abbrev pub live_not_after : LiveCand F → LiveCand F → Bool
  live_not_after a b = not (less_live b a)

  unfoldable pub by_cost : List (LiveCand F) → List (LiveCand F)
  by_cost cs = sort live_not_after cs

  -- The order of the rest, for the spare.
  abbrev less_rest_score : Option (NodeScore F) → Option (NodeScore F) → Bool → Bool
  less_rest_score none none by_key = by_key
  less_rest_score none (some b) by_key = false
  less_rest_score (some a) none by_key = true
  less_rest_score (some a) (some b) by_key =
      if not (fl.same a.success b.success) then fl.below b.success a.success else by_key

  unfoldable pub less_rest : RestCand F → RestCand F → Bool
  less_rest a b = less_rest_score a.score b.score (not (str_le b.key a.key))

  abbrev pub rest_not_after : RestCand F → RestCand F → Bool
  rest_not_after a b = not (less_rest b a)

  unfoldable pub live_keys : List (LiveCand F) → List String
  live_keys [] = []
  live_keys (c ∷ cs) = c.key ∷ live_keys cs

  abbrev pub first_rest : List (RestCand F) → List String
  first_rest [] = []
  first_rest (c ∷ cs) = c.key ∷ []

  abbrev pub first_live : List (LiveCand F) → List (RestCand F) → List String
  first_live [] rest = first_rest (sort rest_not_after rest)
  first_live (c ∷ cs) rest = c.key ∷ []

  -- The end of pickAgile: the active keys by name, then the spare, the next live member or the best
  -- of the rest.
  unfoldable pub pick_live : List (LiveCand F) → List (RestCand F) → List String × ℕ
  pick_live alive rest =
      let ranked = by_cost alive in
      let n = min (length ranked) agile_active_max in
      (sort str_le (live_keys (take n ranked)) ++ first_live (drop n ranked) rest, n)

  -- pickAgile; without members it picks nothing
  unfoldable pub pick_agile :
      Dict (NodeScore F)
      → Dict (ChainVerdict F)
      → ℕ
      → List SlotMember
      → List String
      → ℕ
      → List String × ℕ
  pick_agile scores view idx members incumbent inc_active =
      let split = split_members scores view idx (take inc_active incumbent) members in
      if not split.scored
      then ([], 0)
      else if not (length split.alive == 0)
      then pick_live split.alive split.rest
      else if not (length split.alive_bad == 0)
      then pick_live (by_cost split.alive_bad) split.rest
      else pick_stable fl scores view idx members incumbent
