-- ===== src/Daemon/Picker/Agile/Live.antt =====
-- Which members pickAgile of daemon/nodepick.go makes active.
use em_xray.Daemon.Picker.Stable.Keys.{length-take-all}
use mathlib.Core.Path.{subst}
use em_xray.Daemon.Picker.{Floats, NodeScore, SlotMember, slot_member_tag}
use em_xray.Daemon.Picker.Rank.{ChainVerdict}
use em_xray.Daemon.Picker.Agile.{
  LiveCand, RestCand, Split, live_keys, pick_live, is_live, verdict_of, live_cand, split_members,
  by_cost, split_member, chain_bad, agile_active_max, live_not_after, pick_agile, first_live,
}
use em_xray.Prelude.{
  ℕ, zero, suc, List, [], ◌∷◌, String, some, none, true, false, Bool, Option, Dict, ◌≡◌, All,
  length, take, get, ◌==◌, ◌||◌, ◌&&◌, ◌<◌, refl, ◌++◌, ap, ◌≤◌, min, not, ◌+◌, arith, contains,
  sort, if_elim, str_le, sym, length-sort, All-sort, drop,
}

take-append : {A : Type 0} (xs ys : List A) (n : ℕ) → n ≡ length xs → take n (xs ++ ys) ≡ xs
take-append [] ys zero h = refl
take-append [] ys (suc n) h = absurd (omega (arith, h))
take-append (x ∷ xs) ys zero h = absurd (omega (arith, h))
take-append (x ∷ xs) ys (suc n) h = ap (λ zs. x ∷ zs) (take-append xs ys n (omega (arith, h)))

is_zero : (n : ℕ) → not (n == 0) ≡ false → n ≡ 0
is_zero n h = ground (arith, h)

All-take_of : {A : Type 0} (P : A → Type 0) (n : ℕ) (xs : List A) → All P xs → All P (take n xs)
All-take_of P zero xs h = tt
All-take_of P (suc n) [] h = tt
All-take_of P (suc n) (x ∷ xs) h = (h.0, All-take_of P n xs h.1)

module _ {F : Type 0} (fl : Floats F) where
  length-live_keys : (cs : List (LiveCand F)) → length (live_keys fl cs) ≡ length cs
  unfolding live_keys
  length-live_keys [] = refl
  length-live_keys (c ∷ cs) = ap suc (length-live_keys cs)

  All-live_keys :
      (P : String → Type 0) (cs : List (LiveCand F))
      → All (λ (c : LiveCand F). P c.key) cs
      → All P (live_keys fl cs)
  unfolding live_keys
  All-live_keys P [] h = tt
  All-live_keys P (c ∷ cs) h = (h.0, All-live_keys P cs h.1)

  -- What holds of the keys of the live candidates holds of the active keys, of which there is one.
  abbrev pub IsActivePick : (String → Type 0) → List String × ℕ → Type 0
  IsActivePick P out = All P (take out.1 out.0) × (0 < out.1) × (out.1 ≤ agile_active_max)

  pick_live-IsActivePick :
      (P : String → Type 0) (alive : List (LiveCand F)) (rest : List (RestCand F))
      → All (λ (c : LiveCand F). P c.key) alive
      → 0 < length alive
      → IsActivePick P (pick_live fl alive rest)
  unfolding pick_live by_cost
  pick_live-IsActivePick P alive rest h some_one =
      let ranked = by_cost fl alive in
      let n = min (length ranked) agile_active_max in
      let keys = sort str_le (live_keys fl (take n ranked)) in
      let size : length ranked ≡ length alive = length-sort (live_not_after fl) alive in
      let of_keys : n ≡ length keys = omega (
        arith,
        length-sort str_le (live_keys fl (take n ranked)),
        length-live_keys (take n ranked),
        length-take-all n ranked (omega arith),
      ) in
      (
        subst (All P) (sym (take-append keys (first_live fl (drop n ranked) rest) n of_keys)) (
            All-sort str_le P (live_keys fl (take n ranked)) (
              All-live_keys P (take n ranked) (
                All-take_of (λ (c : LiveCand F). P c.key) n ranked
                  (All-sort (live_not_after fl) (λ (c : LiveCand F). P c.key) alive h)))),
        omega (arith, size),
        omega arith,
      )

  module _ (scores : Dict (NodeScore F)) (view : Dict (ChainVerdict F)) (idx : ℕ) where
    -- Whether a key's member was alive in the latest round, and whether it fails the chain.
    abbrev pub live_at : String → Bool
    live_at key = is_live fl (get scores (slot_member_tag idx key))

    abbrev pub fails_at : String → Bool
    fails_at key = (verdict_of fl view key).class == chain_bad

    unfoldable pub some_live : List SlotMember → Bool
    some_live [] = false
    some_live (m ∷ ms) = live_at m.key || some_live ms

    unfoldable pub some_sound : List SlotMember → Bool
    some_sound [] = false
    some_sound (m ∷ ms) = (live_at m.key && not (fails_at m.key)) || some_sound ms

    abbrev IsSplit : List SlotMember → Split F → Type 0
    IsSplit ms split =
        All (λ (c : LiveCand F). (live_at c.key ≡ true) × (fails_at c.key ≡ false)) split.alive
        × All (λ (c : LiveCand F). live_at c.key ≡ true) split.alive_bad
        × (some_live ms ≡ true
            → (0 < length split.alive + length split.alive_bad) × (split.scored ≡ true))
        × (some_sound ms ≡ true → (0 < length split.alive) × (split.scored ≡ true))

    live_cand-key :
        (key : String) (v : ChainVerdict F) (was_active : Bool) (o : Option (NodeScore F))
        → (live_cand fl key v was_active o).key ≡ key
    live_cand-key key v was_active none = refl
    live_cand-key key v was_active (some sc) = refl

    split_members-IsSplit :
        (was_active : List String) (ms : List SlotMember)
        → IsSplit ms (split_members fl scores view idx was_active ms)
    unfolding split_members split_member some_live some_sound
    split_members-IsSplit was_active [] =
        (tt, tt, λ h. absurd (ground (arith, h)), λ h. absurd (ground (arith, h)))
    split_members-IsSplit was_active (m ∷ ms) =
        let (alive, bad, lives, sounds) = split_members-IsSplit was_active ms in
        let sc = get scores (slot_member_tag idx m.key) in
        let v = verdict_of fl view m.key in
        let named = live_cand-key m.key v (contains was_active m.key) sc in
        if_elim (IsSplit (m ∷ ms)) (not (live_at m.key))
          (λ q. (alive, bad, λ h. ground (arith, h, q, lives), λ h. ground (arith, h, q, sounds)))
          (λ q.
            let is_on : live_at m.key ≡ true = ground (arith, q) in
            if_elim (IsSplit (m ∷ ms)) (fails_at m.key)
              (λ p. (
                alive,
                (subst (λ k. live_at k ≡ true) (sym named) is_on, bad),
                λ h. (omega arith, refl),
                λ h. ground (arith, h, p, sounds),
              ))
              (λ p. (
                (
                  subst (λ k. (live_at k ≡ true) × (fails_at k ≡ false)) (sym named) (is_on, p),
                  alive,
                ),
                bad,
                λ h. (omega arith, refl),
                λ h. (omega arith, refl),
              )))

    live-All :
        (cs : List (LiveCand F))
        → All (λ (c : LiveCand F). (live_at c.key ≡ true) × (fails_at c.key ≡ false)) cs
        → All (λ (c : LiveCand F). live_at c.key ≡ true) cs
    live-All [] h = tt
    live-All (c ∷ cs) h = (h.0.0, live-All cs h.1)

    -- Where some member was alive in the latest round, one to four keys are active, each of a member
    -- that was alive in it.
    pub pick_agile-AreLive :
        (ms : List SlotMember) (incumbent : List String) (inc_active : ℕ)
        → some_live ms ≡ true
        → IsActivePick
            (λ k. live_at k ≡ true)
            (pick_agile fl scores view idx ms incumbent inc_active)
    unfolding pick_agile by_cost
    pick_agile-AreLive ms incumbent inc_active h =
        let split = split_members fl scores view idx (take inc_active incumbent) ms in
        let (alive, bad, lives, sounds) = split_members-IsSplit (take inc_active incumbent) ms in
        let P : String → Type 0 = λ k. live_at k ≡ true in
        let (some_one, scored) = lives h in
        if_elim (IsActivePick P) (not split.scored) (λ q. absurd (ground (arith, q, scored)))
          (λ _.
            if_elim (IsActivePick P) (not (length split.alive == 0))
              (λ q.
                pick_live-IsActivePick P split.alive split.rest (live-All split.alive alive)
                  (ground (arith, q)))
              (λ q.
                if_elim (IsActivePick P) (not (length split.alive_bad == 0))
                  (λ p.
                    pick_live-IsActivePick P (by_cost fl split.alive_bad) split.rest
                      (All-sort (live_not_after fl) (λ (c : LiveCand F). live_at c.key ≡ true)
                        split.alive_bad bad)
                      (omega (
                        arith,
                        length-sort (live_not_after fl) split.alive_bad,
                        some_one,
                        is_zero (length split.alive) q,
                      )))
                  (λ p. absurd (ground (arith, q, p, some_one)))))

    -- Where some member that was alive in the latest round does not fail the master's chain, no active
    -- member fails it, and each was alive.
    pub pick_agile-avoids_failed :
        (ms : List SlotMember) (incumbent : List String) (inc_active : ℕ)
        → some_sound ms ≡ true
        → IsActivePick
            (λ k. (live_at k ≡ true) × (fails_at k ≡ false))
            (pick_agile fl scores view idx ms incumbent inc_active)
    unfolding pick_agile
    pick_agile-avoids_failed ms incumbent inc_active h =
        let split = split_members fl scores view idx (take inc_active incumbent) ms in
        let (alive, bad, lives, sounds) = split_members-IsSplit (take inc_active incumbent) ms in
        let P : String → Type 0 = λ k. (live_at k ≡ true) × (fails_at k ≡ false) in
        let (some_one, scored) = sounds h in
        if_elim (IsActivePick P) (not split.scored) (λ q. absurd (ground (arith, q, scored)))
          (λ _.
            if_elim (IsActivePick P) (not (length split.alive == 0))
              (λ q. pick_live-IsActivePick P split.alive split.rest alive some_one)
              (λ q. absurd (ground (arith, q, some_one))))
