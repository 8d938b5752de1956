-- ===== src/Daemon/Picker/Rank.antt =====
-- The order of the candidates of pick: `rank` of daemon/nodepick.go, and chainView.
use em_xray.Daemon.Picker.{
  Floats, NodeScore, tier_healthy, node_sticky_ratio, tier_unknown, node_sticky_ms,
}
use mathlib.Core.Path.{subst}
use em_xray.Prelude.{
  ℕ, List, [], ◌∷◌, String, some, none, true, false, Bool, Option, Dict, get, if◌then◌else◌, not,
  sort, All, insert, ◌≡◌, ◌≤◌, ◌==◌, ◌&&◌, if_elim, Bool-cases, arith, count, str_le, ltb, inl, inr,
  refl, sym, count-sort, ◌∙◌, length, ap, length-sort, suc, All-sort, All-insert,
}

-- chainGood, chainUnknown, chainBad
abbrev pub chain_good : ℕ
chain_good = 0

abbrev pub chain_unknown : ℕ
chain_unknown = 1

abbrev pub chain_bad : ℕ
chain_bad = 2

-- chainVerdict
pub record ChainVerdict (F : Type 0) : Type 0 where
  pub class : ℕ
  pub cost : F

-- cand of pickStableLocked
pub record Cand (F : Type 0) : Type 0 where
  pub key : String
  pub tier : ℕ
  pub class : ℕ
  pub score : Option (NodeScore F)
  pub raw : F
  pub cost : F
  pub inc : Bool

module _ {F : Type 0} (fl : Floats F) where
  -- chainView.of
  unfoldable pub verdict_of : Dict (ChainVerdict F) → String → ChainVerdict F
  verdict_of view key = elim (get view key) [
    | some v ↦ v
    | none ↦ record { class = chain_unknown; cost = fl.literal 0 0 }
  ]

  -- The first loop of `rank`.
  unfoldable pub set_cost : Cand F → Cand F
  set_cost c =
      if c.tier == tier_healthy
      then record c {
        cost =
            if c.inc
            then fl.minus (fl.over c.raw (node_sticky_ratio fl)) (node_sticky_ms fl)
            else c.raw;
      }
      else c

  -- The last lines of the order: incumbents first, then by key.
  unfoldable pub less_by_key : Cand F → Cand F → Bool
  less_by_key a b =
      if a.inc && not b.inc
      then true
      else if not a.inc && b.inc
      then false
      else not (str_le b.key a.key)

  -- By the record of the scores; `none` where they are alike.
  unfoldable pub less_by_score : NodeScore F → NodeScore F → Option Bool
  less_by_score a b =
      if not (fl.same a.success b.success)
      then some (fl.below b.success a.success)
      else if a.has_rtt && not b.has_rtt
      then some true
      else if not a.has_rtt && b.has_rtt
      then some false
      else if not (fl.same a.rtt_ms b.rtt_ms)
      then some (fl.below a.rtt_ms b.rtt_ms)
      else none

  abbrev pub less_by_record : Option (NodeScore F) → Option (NodeScore F) → Option Bool
  less_by_record none none = none
  less_by_record none (some b) = some false
  less_by_record (some a) none = some true
  less_by_record (some a) (some b) = less_by_score a b

  abbrev pub or_by_key : Option Bool → Bool → Bool
  or_by_key (some b) rest = b
  or_by_key none rest = rest

  -- The `switch` on the tier.
  unfoldable pub less_in_tier : Cand F → Cand F → Option Bool
  less_in_tier a b =
      if a.tier == tier_healthy
      then (if fl.same a.cost b.cost then none else some (fl.below a.cost b.cost))
      else if a.tier == tier_unknown
      then none
      else less_by_record a.score b.score

  -- The function that `rank` sorts by.
  unfoldable pub less_cand : Cand F → Cand F → Bool
  less_cand a b =
      if not (a.tier == b.tier)
      then ltb a.tier b.tier
      else if not (a.class == b.class)
      then ltb a.class b.class
      else or_by_key (less_in_tier a b) (less_by_key a b)

  -- sort.SliceStable by a `less`
  abbrev pub not_after : Cand F → Cand F → Bool
  not_after a b = not (less_cand b a)

  unfoldable pub set_costs : List (Cand F) → List (Cand F)
  set_costs [] = []
  set_costs (c ∷ cs) = set_cost c ∷ set_costs cs

  -- rank
  unfoldable pub rank : List (Cand F) → List (Cand F)
  rank cs = sort not_after (set_costs cs)

  tier-set_cost : (c : Cand F) → (set_cost c).tier ≡ c.tier
  unfolding set_cost
  tier-set_cost c =
      if_elim (λ (d : Cand F). d.tier ≡ c.tier) (c.tier == tier_healthy) (λ _. refl) (λ _. refl)

  key-set_cost : (c : Cand F) → (set_cost c).key ≡ c.key
  unfolding set_cost
  key-set_cost c =
      if_elim (λ (d : Cand F). d.key ≡ c.key) (c.tier == tier_healthy) (λ _. refl) (λ _. refl)

  -- A predicate on the keys and the tiers of all candidates holds after a rank.
  module _ (Q : String → ℕ → Type 0) where
    abbrev pub Holds : Cand F → Type 0
    Holds c = Q c.key c.tier

    All-set_costs : (cs : List (Cand F)) → All Holds cs → All Holds (set_costs cs)
    unfolding set_costs
    All-set_costs [] h = tt
    All-set_costs (c ∷ cs) h = (
      subst (Q (set_cost c).key) (sym (tier-set_cost c))
          (subst (λ k. Q k c.tier) (sym (key-set_cost c)) h.0),
      All-set_costs cs h.1,
    )

    pub All-rank : (cs : List (Cand F)) → All Holds cs → All Holds (rank cs)
    unfolding rank
    All-rank cs h = All-sort not_after Holds (set_costs cs) (All-set_costs cs h)

  -- No tier of a list is below a bound, and the head has the least tier.
  abbrev pub NoneBelow : ℕ → List (Cand F) → Type 0
  NoneBelow n cs = All (λ (c : Cand F). n ≤ c.tier) cs

  abbrev pub BestFirst : List (Cand F) → Type 0
  BestFirst [] = Unit
  BestFirst (c ∷ cs) = NoneBelow c.tier cs

  tier-not_after : (a b : Cand F) → not_after a b ≡ true → a.tier ≤ b.tier
  unfolding less_cand
  tier-not_after a b h = elim (Bool-cases (b.tier == a.tier)) [
    | inl q ↦ ground (arith, q)
    | inr q ↦ ground (arith, h, q)
  ]

  tier-after : (a b : Cand F) → not_after a b ≡ false → b.tier ≤ a.tier
  unfolding less_cand
  tier-after a b h = elim (Bool-cases (b.tier == a.tier)) [
    | inl q ↦ ground (arith, q)
    | inr q ↦ ground (arith, h, q)
  ]

  NoneBelow-le : (n k : ℕ) (cs : List (Cand F)) → k ≤ n → NoneBelow n cs → NoneBelow k cs
  NoneBelow-le n k [] le h = tt
  NoneBelow-le n k (c ∷ cs) le h = (omega (arith, h.0), NoneBelow-le n k cs le h.1)

  BestFirst-insert :
      (c : Cand F) (cs : List (Cand F)) → BestFirst cs → BestFirst (insert not_after c cs)
  unfolding insert
  BestFirst-insert c [] h = tt
  BestFirst-insert c (d ∷ cs) h =
      if_elim BestFirst (not_after c d)
        (λ q. let low = tier-not_after c d q in (low, NoneBelow-le d.tier c.tier cs low h))
        (λ q. All-insert not_after (λ (x : Cand F). d.tier ≤ x.tier) c cs (tier-after c d q) h)

  BestFirst-sort : (cs : List (Cand F)) → BestFirst (sort not_after cs)
  unfolding sort
  BestFirst-sort [] = tt
  BestFirst-sort (c ∷ cs) = BestFirst-insert c (sort not_after cs) (BestFirst-sort cs)

  pub BestFirst-rank : (cs : List (Cand F)) → BestFirst (rank cs)
  unfolding rank
  BestFirst-rank cs = BestFirst-sort (set_costs cs)

  -- Where some tier is below a bound, the head's is.
  pub NoneBelow-count :
      (n k : ℕ) (cs : List (Cand F))
      → NoneBelow n cs
      → k ≤ n
      → count (λ (c : Cand F). ltb c.tier k) cs ≡ 0
  NoneBelow-count n k [] h le = refl
  NoneBelow-count n k (c ∷ cs) h le =
      let low = h.0 in ground (arith, low, NoneBelow-count n k cs h.1 le)

  -- A count by key or by tier is the same after a rank.
  count-set_costs :
      (p : String → ℕ → Bool) (cs : List (Cand F))
      → count (λ (c : Cand F). p c.key c.tier) (set_costs cs)
        ≡ count (λ (c : Cand F). p c.key c.tier) cs
  unfolding set_costs
  count-set_costs p [] = refl
  count-set_costs p (c ∷ cs) = rw (key-set_cost c, tier-set_cost c, count-set_costs p cs) refl

  pub count-rank :
      (p : String → ℕ → Bool) (cs : List (Cand F))
      → count (λ (c : Cand F). p c.key c.tier) (rank cs) ≡ count (λ (c : Cand F). p c.key c.tier) cs
  unfolding rank
  count-rank p cs =
      count-sort not_after (λ (c : Cand F). p c.key c.tier) (set_costs cs) ∙ count-set_costs p cs

  length-set_costs : (cs : List (Cand F)) → length (set_costs cs) ≡ length cs
  unfolding set_costs
  length-set_costs [] = refl
  length-set_costs (c ∷ cs) = ap suc (length-set_costs cs)

  pub length-rank : (cs : List (Cand F)) → length (rank cs) ≡ length cs
  unfolding rank
  length-rank cs = length-sort not_after (set_costs cs) ∙ length-set_costs cs
