-- ===== src/Daemon/Picker/Stable/Failed.antt =====
-- When pick of daemon/nodepick.go takes a member that fails the master's chain.
use em_xray.Daemon.Picker.Stable.{
  is_failed, until_failed, shrink_active, head_failed, slot_balancer_expected, spares_of, tier_in,
  cands_of, set_inc, top_of, cand_of, node_pick_count, cand_keys, pick_stable, any_scored,
}
use mathlib.Core.Path.{subst}
use em_xray.Daemon.Picker.{
  Floats, NodeScore, SlotMember, tier_chain_bad, tier_of, slot_member_tag, tier_dead,
}
use em_xray.Daemon.Picker.Rank.{
  ChainVerdict, Cand, BestFirst, All-rank, NoneBelow-count, rank, count-rank, BestFirst-rank,
  verdict_of, chain_bad,
}
use em_xray.Daemon.Picker.Stable.Kept.{All-take, All-spares}
use em_xray.Prelude.{
  ℕ, suc, List, [], ◌∷◌, String, true, false, Bool, Dict, ◌≡◌, All, if_elim, take, min, length,
  arith, not, drop, ltb, ◌&&◌, ◌<◌, count, ◌||◌, Bool-cases, refl, inl, inr, sort, str_le, ◌==◌,
  All-append, All-sort, Option, get, some, none,
}

two_of : (n : ℕ) → min slot_balancer_expected (suc (suc n)) ≡ 2
two_of n = ground arith

module _ {F : Type 0} (fl : Floats F) where
  abbrev Passes : Cand F → Type 0
  Passes c = is_failed fl c ≡ false

  until_failed-Passes : (cs : List (Cand F)) → All Passes (until_failed fl cs)
  unfolding until_failed
  until_failed-Passes [] = tt
  until_failed-Passes (c ∷ cs) =
      let rest = until_failed-Passes cs in
      if_elim (λ (xs : List (Cand F)). All Passes xs) (is_failed fl c) (λ _. tt) (λ q. (q, rest))

  -- Where the best candidate does not fail, at most two are active and none of them fails.
  active-Passes :
      (top : List (Cand F))
      → head_failed fl top ≡ false
      → All Passes (take (shrink_active fl (min slot_balancer_expected (length top)) top) top)
  unfolding shrink_active
  active-Passes [] h = tt
  active-Passes (c ∷ []) h = (h, tt)
  active-Passes (c ∷ d ∷ cs) h = rw (two_of (length cs)) (
      if_elim (λ (a : ℕ). All Passes (take a (c ∷ d ∷ cs))) (not (is_failed fl c) && is_failed fl d)
        (λ _. (h, tt)) (λ q. (h, (ground (arith, h, q), tt))))

  spares-Passes :
      (active : ℕ) (top : List (Cand F))
      → head_failed fl top ≡ false
      → All Passes (spares_of fl active top)
  unfolding spares_of
  spares-Passes active top h = rw h (until_failed-Passes (drop active top))

  -- From candidates to keys: the tier of a candidate is that of its key.
  module _ (scores : Dict (NodeScore F)) (view : Dict (ChainVerdict F)) (idx : ℕ) where
    abbrev tier_at : String → ℕ
    tier_at key = tier_in fl scores view idx key

    abbrev IsRanked : Cand F → Type 0
    IsRanked c = c.tier ≡ tier_at c.key

    cands-AreRanked :
        (incumbent : List String) (ms : List SlotMember)
        → All IsRanked (cands_of fl scores view idx incumbent ms)
    unfolding cands_of cand_of
    cands-AreRanked incumbent [] = tt
    cands-AreRanked incumbent (m ∷ ms) = (refl, cands-AreRanked incumbent ms)

    set_inc-AreRanked :
        (was_active : List String) (cs : List (Cand F))
        → All IsRanked cs
        → All IsRanked (set_inc fl was_active cs)
    unfolding set_inc
    set_inc-AreRanked was_active [] h = tt
    set_inc-AreRanked was_active (c ∷ cs) h = (h.0, set_inc-AreRanked was_active cs h.1)

    top-AreRanked :
        (ms : List SlotMember) (incumbent : List String)
        → All IsRanked (top_of fl scores view idx ms incumbent)
    unfolding top_of
    top-AreRanked ms incumbent =
        All-rank fl (λ k t. t ≡ tier_at k) _
          (set_inc-AreRanked (take slot_balancer_expected incumbent) _ (
            All-take fl IsRanked node_pick_count _
              (All-rank fl (λ k t. t ≡ tier_at k) _ (cands-AreRanked incumbent ms))))

    -- A member whose latest window of pings has no success.
    abbrev is_down : Option (NodeScore F) → Bool
    is_down none = false
    is_down (some sc) = sc.sampled && not sc.alive

    abbrev pub is_dead_at : String → Bool
    is_dead_at key = is_down (get scores (slot_member_tag idx key))

    -- A member that fails the chain of the master.
    abbrev pub fails_chain : String → Bool
    fails_chain key = (verdict_of fl view key).class == chain_bad

    -- A member that is not dead and does not fail the chain.
    unfoldable pub some_usable : List SlotMember → Bool
    some_usable [] = false
    some_usable (m ∷ ms) = (not (is_dead_at m.key) && not (fails_chain m.key)) || some_usable ms

    tier_of-is_down :
        (o : Option (NodeScore F))
        → ((tier_of fl o == tier_dead) ≡ is_down o)
          × ((tier_of fl o == tier_chain_bad) ≡ false)
          × (ltb (tier_of fl o) tier_chain_bad ≡ not (is_down o))
    unfolding tier_of
    tier_of-is_down none = (refl, refl, refl)
    tier_of-is_down (some sc) = (ground arith, ground arith, ground arith)

    tier_at_lem :
        (key : String)
        → ((tier_at key == tier_chain_bad) ≡ (fails_chain key && not (is_dead_at key)))
          × (ltb (tier_at key) tier_chain_bad ≡ (not (is_dead_at key) && not (fails_chain key)))
    unfolding tier_in
    tier_at_lem key =
        let (dead, bad, low) = tier_of-is_down (get scores (slot_member_tag idx key)) in
        (ground (arith, dead, bad, low), ground (arith, dead, bad, low))

    -- A member that ranks before the failed ones.
    unfoldable ranks_usable : List SlotMember → Bool
    ranks_usable [] = false
    ranks_usable (m ∷ ms) = ltb (tier_at m.key) tier_chain_bad || ranks_usable ms

    some_usable-ranks_usable :
        (ms : List SlotMember) → some_usable ms ≡ true → ranks_usable ms ≡ true
    unfolding some_usable ranks_usable
    some_usable-ranks_usable [] h = absurd (ground (arith, h))
    some_usable-ranks_usable (m ∷ ms) h = elim (Bool-cases (some_usable ms)) [
      | inl q ↦ (let rest = some_usable-ranks_usable ms q in ground (arith, rest))
      | inr q ↦ (let low = (tier_at_lem m.key).1 in ground (arith, h, q, low))
    ]

    abbrev usable : Cand F → Bool
    usable c = ltb c.tier tier_chain_bad

    usable-cands :
        (incumbent : List String) (ms : List SlotMember)
        → ranks_usable ms ≡ true
        → 0 < count usable (cands_of fl scores view idx incumbent ms)
    unfolding ranks_usable cands_of cand_of
    usable-cands incumbent [] h = ground arith
    usable-cands incumbent (m ∷ ms) h = ground (arith, h, usable-cands incumbent ms)

    head-usable :
        (cs : List (Cand F)) → BestFirst fl cs → 0 < count usable cs → head_failed fl cs ≡ false
    head-usable [] best some_one = refl
    head-usable (c ∷ cs) best some_one = elim (Bool-cases (is_failed fl c)) [
      | inl q ↦ absurd (
          let none_there = NoneBelow-count fl c.tier tier_chain_bad cs best in
          ground (arith, q, some_one, none_there))
      | inr q ↦ q
    ]

    usable-take :
        (n : ℕ) (cs : List (Cand F))
        → BestFirst fl cs
        → 0 < count usable cs
        → 0 < count usable (take (suc n) cs)
    usable-take n [] best some_one = some_one
    usable-take n (c ∷ cs) best some_one = elim (Bool-cases (usable c)) [
      | inl q ↦ ground (arith, q)
      | inr q ↦ absurd (
          let none_there = NoneBelow-count fl c.tier tier_chain_bad cs best in
          ground (arith, q, some_one, none_there))
    ]

    count-set_inc :
        (was_active : List String) (cs : List (Cand F))
        → count usable (set_inc fl was_active cs) ≡ count usable cs
    unfolding set_inc
    count-set_inc was_active [] = refl
    count-set_inc was_active (c ∷ cs) = ground (arith, count-set_inc was_active cs)

    top-head :
        (ms : List SlotMember) (incumbent : List String)
        → ranks_usable ms ≡ true
        → head_failed fl (top_of fl scores view idx ms incumbent) ≡ false
    unfolding top_of
    top-head ms incumbent h =
        let cands = cands_of fl scores view idx incumbent ms in
        let was_active = take slot_balancer_expected incumbent in
        let best = take node_pick_count (rank fl cands) in
        let some_ranked : 0 < count usable (rank fl cands) =
          rw (count-rank fl (λ k t. ltb t tier_chain_bad) cands) (usable-cands incumbent ms h) in
        let some_best : 0 < count usable best =
          usable-take 2 (rank fl cands) (BestFirst-rank fl cands) some_ranked in
        let again : 0 < count usable (rank fl (set_inc fl was_active best)) =
          rw
            (
              count-rank fl (λ k t. ltb t tier_chain_bad) (set_inc fl was_active best),
              count-set_inc was_active best,
            )
            some_best in
        head-usable (rank fl (set_inc fl was_active best))
          (BestFirst-rank fl (set_inc fl was_active best)) again

    keys-Pass :
        (cs : List (Cand F))
        → All IsRanked cs
        → All Passes cs
        → All (λ k. (tier_at k == tier_chain_bad) ≡ false) (cand_keys fl cs)
    unfolding cand_keys
    keys-Pass [] ranked h = tt
    keys-Pass (c ∷ cs) ranked h =
        (subst (λ t. (t == tier_chain_bad) ≡ false) ranked.0 h.0, keys-Pass cs ranked.1 h.1)

    passes-tiers :
        (ks : List String)
        → All (λ k. (tier_at k == tier_chain_bad) ≡ false) ks
        → All (λ k. (fails_chain k && not (is_dead_at k)) ≡ false) ks
    passes-tiers [] h = tt
    passes-tiers (k ∷ ks) h =
        let bad = (tier_at_lem k).0 in
        let here = h.0 in (ground (arith, bad, here), passes-tiers ks h.1)

    picked-Pass :
        (ms : List SlotMember) (incumbent : List String)
        → ranks_usable ms ≡ true
        → All
            (λ k. (tier_at k == tier_chain_bad) ≡ false)
            (pick_stable fl scores view idx ms incumbent).0
    unfolding pick_stable
    picked-Pass ms incumbent h =
        let top = top_of fl scores view idx ms incumbent in
        let active = shrink_active fl (min slot_balancer_expected (length top)) top in
        let ranked = top-AreRanked ms incumbent in
        let head = top-head ms incumbent h in
        if_elim (λ (out : List String × ℕ). All (λ k. (tier_at k == tier_chain_bad) ≡ false) out.0)
          (any_scored fl scores idx ms)
          (λ _.
            All-append (λ k. (tier_at k == tier_chain_bad) ≡ false)
              (sort str_le (cand_keys fl (take active top)))
              (cand_keys fl (spares_of fl active top))
              (All-sort str_le (λ k. (tier_at k == tier_chain_bad) ≡ false)
                (cand_keys fl (take active top))
                (keys-Pass (take active top) (All-take fl IsRanked active top ranked)
                  (active-Passes top head)))
              (keys-Pass (spares_of fl active top) (All-spares fl IsRanked active top ranked)
                (spares-Passes active top head)))
          (λ _. tt)

    -- A member that answers its pings, or has none, but fails the master's chain is picked, active or
    -- spare, only where every member of the pool fails the chain or is dead. (A dead member that fails
    -- the chain is ranked as dead, and the statement leaves it open.)
    pub pick_stable-avoids_failed :
        (ms : List SlotMember) (incumbent : List String)
        → some_usable ms ≡ true
        → All
            (λ k. (fails_chain k && not (is_dead_at k)) ≡ false)
            (pick_stable fl scores view idx ms incumbent).0
    pick_stable-avoids_failed ms incumbent h =
        passes-tiers (pick_stable fl scores view idx ms incumbent).0
          (picked-Pass ms incumbent (some_usable-ranks_usable ms h))
