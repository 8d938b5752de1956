-- ===== src/Daemon/Picker/Stable/Keys.antt =====
-- Which keys pick of daemon/nodepick.go picks, and how many.
use em_xray.Daemon.Picker.Stable.{
  until_failed, spares_of, shrink_active, set_inc, cands_of, top_of, cand_keys, cand_of,
  node_pick_count, is_failed, head_failed, slot_balancer_expected, failed_at, pick_stable,
  any_scored,
}
use em_xray.Daemon.Picker.{Floats, NodeScore, SlotMember}
use em_xray.Daemon.Picker.Rank.{ChainVerdict, Cand, rank, count-rank, length-rank}
use em_xray.Prelude.{
  ℕ, zero, suc, List, [], ◌∷◌, String, Bool, Dict, count, length, ◌≤◌, str_eq, arith, take, drop,
  ◌≡◌, ◌+◌, ap, if_elim, refl, ltb, ◌&&◌, not, sort, count-append, length-append, str_le, min, ◌++◌,
  count-sort, length-sort,
}

-- A pick of a pool: each key as often at most as members have it, a limit on the keys, and the active
-- ones among them.
pub record IsPick (ms : List SlotMember) (limit : ℕ) (out : List String × ℕ) : Type 0 where
  pub of_pool :
      (k : String)
      → count (λ (j : String). str_eq j k) out.0 ≤ count (λ (m : SlotMember). str_eq m.key k) ms
  pub few : length out.0 ≤ limit
  pub active_among : out.1 ≤ length out.0

pub nothing-IsPick : (ms : List SlotMember) (limit : ℕ) → IsPick ms limit ([], 0)
nothing-IsPick ms limit = record {
  of_pool = λ k. omega arith;
  few = omega arith;
  active_among = omega arith;
}

module _ {A : Type 0} (p : A → Bool) where
  pub count-take-drop :
      (n : ℕ) (xs : List A) → count p (take n xs) + count p (drop n xs) ≡ count p xs
  count-take-drop zero xs = omega arith
  count-take-drop (suc n) [] = omega arith
  count-take-drop (suc n) (x ∷ xs) = ground (arith, count-take-drop n xs)

pub length-take-drop :
    {A : Type 0} (n : ℕ) (xs : List A) → length (take n xs) + length (drop n xs) ≡ length xs
length-take-drop zero xs = omega arith
length-take-drop (suc n) [] = omega arith
length-take-drop (suc n) (x ∷ xs) = omega (arith, length-take-drop n xs)

pub length-take-le : {A : Type 0} (n : ℕ) (xs : List A) → length (take n xs) ≤ n
length-take-le zero xs = omega arith
length-take-le (suc n) [] = omega arith
length-take-le (suc n) (x ∷ xs) = omega (arith, length-take-le n xs)

pub length-take-all : {A : Type 0} (n : ℕ) (xs : List A) → n ≤ length xs → length (take n xs) ≡ n
length-take-all zero xs h = refl
length-take-all (suc n) [] h = absurd (omega arith)
length-take-all (suc n) (x ∷ xs) h = omega (arith, length-take-all n xs (omega arith))

module _ {F : Type 0} (fl : Floats F) where
  abbrev has_key_of : String → Cand F → Bool
  has_key_of k c = str_eq c.key k

  count-cand_keys :
      (k : String) (cs : List (Cand F))
      → count (λ (j : String). str_eq j k) (cand_keys fl cs) ≡ count (has_key_of k) cs
  unfolding cand_keys
  count-cand_keys k [] = refl
  count-cand_keys k (c ∷ cs) = ground (arith, count-cand_keys k cs)

  length-cand_keys : (cs : List (Cand F)) → length (cand_keys fl cs) ≡ length cs
  unfolding cand_keys
  length-cand_keys [] = refl
  length-cand_keys (c ∷ cs) = ap suc (length-cand_keys cs)

  until_failed-le :
      (k : String) (cs : List (Cand F))
      → (count (has_key_of k) (until_failed fl cs) ≤ count (has_key_of k) cs)
        × (length (until_failed fl cs) ≤ length cs)
  unfolding until_failed
  until_failed-le k [] = (omega arith, omega arith)
  until_failed-le k (c ∷ cs) =
      let rest = until_failed-le k cs in
      if_elim
        (λ (xs : List (Cand F)).
          (count (has_key_of k) xs ≤ count (has_key_of k) (c ∷ cs)) × (length xs ≤ length (c ∷ cs)))
        (is_failed fl c) (λ _. (omega arith, omega arith))
        (λ _. (ground (arith, rest), omega (arith, rest.1)))

  spares-le :
      (k : String) (active : ℕ) (cs : List (Cand F))
      → (count (has_key_of k) (spares_of fl active cs) ≤ count (has_key_of k) (drop active cs))
        × (length (spares_of fl active cs) ≤ length (drop active cs))
  unfolding spares_of
  spares-le k active cs =
      if_elim
        (λ (xs : List (Cand F)).
          (count (has_key_of k) xs ≤ count (has_key_of k) (drop active cs))
          × (length xs ≤ length (drop active cs)))
        (head_failed fl cs) (λ _. (omega arith, omega arith))
        (λ _. until_failed-le k (drop active cs))

  shrink_active-le : (n : ℕ) (top : List (Cand F)) → shrink_active fl n top ≤ n
  unfolding shrink_active
  shrink_active-le zero top = omega arith
  shrink_active-le (suc a) top =
      let rest = shrink_active-le a top in
      if_elim (λ (x : ℕ). x ≤ suc a)
        (ltb 1 (suc a) && (not (head_failed fl top) && failed_at fl a top))
        (λ _. omega (arith, rest)) (λ _. omega arith)

  count-set_inc_key :
      (k : String) (was_active : List String) (cs : List (Cand F))
      → count (has_key_of k) (set_inc fl was_active cs) ≡ count (has_key_of k) cs
  unfolding set_inc
  count-set_inc_key k was_active [] = refl
  count-set_inc_key k was_active (c ∷ cs) = ground (arith, count-set_inc_key k was_active cs)

  length-set_inc :
      (was_active : List String) (cs : List (Cand F))
      → length (set_inc fl was_active cs) ≡ length cs
  unfolding set_inc
  length-set_inc was_active [] = refl
  length-set_inc was_active (c ∷ cs) = ap suc (length-set_inc was_active cs)

  module _ (scores : Dict (NodeScore F)) (view : Dict (ChainVerdict F)) (idx : ℕ)
      (incumbent : List String) where
    count-cands_of :
        (k : String) (ms : List SlotMember)
        → count (has_key_of k) (cands_of fl scores view idx incumbent ms)
          ≡ count (λ (m : SlotMember). str_eq m.key k) ms
    unfolding cands_of cand_of
    count-cands_of k [] = refl
    count-cands_of k (m ∷ ms) = ground (arith, count-cands_of k ms)

    top-le :
        (k : String) (ms : List SlotMember)
        → (count (has_key_of k) (top_of fl scores view idx ms incumbent)
            ≤ count (λ (m : SlotMember). str_eq m.key k) ms)
          × (length (top_of fl scores view idx ms incumbent) ≤ node_pick_count)
    unfolding top_of
    top-le k ms =
        let cands = cands_of fl scores view idx incumbent ms in
        let best = take node_pick_count (rank fl cands) in
        let again = set_inc fl (take slot_balancer_expected incumbent) best in
        let p : String → ℕ → Bool = λ j t. str_eq j k in
        (
          omega (
            arith,
            count-rank fl p again,
            count-set_inc_key k (take slot_balancer_expected incumbent) best,
            count-take-drop (has_key_of k) node_pick_count (rank fl cands),
            count-rank fl p cands,
            count-cands_of k ms,
          ),
          omega (
            arith,
            length-rank fl again,
            length-set_inc (take slot_balancer_expected incumbent) best,
            length-take-le node_pick_count (rank fl cands),
          ),
        )

    abbrev top_keys : List SlotMember → ℕ → List String
    top_keys ms active =
        let top = top_of fl scores view idx ms incumbent in
        sort str_le (cand_keys fl (take active top)) ++ cand_keys fl (spares_of fl active top)

    count-top_keys :
        (k : String) (ms : List SlotMember) (active : ℕ)
        → count (λ (j : String). str_eq j k) (top_keys ms active)
          ≤ count (λ (m : SlotMember). str_eq m.key k) ms
    count-top_keys k ms active =
        let top = top_of fl scores view idx ms incumbent in
        let p : String → Bool = λ j. str_eq j k in
        omega (
          arith,
          count-append p (sort str_le (cand_keys fl (take active top)))
              (cand_keys fl (spares_of fl active top)),
          count-sort str_le p (cand_keys fl (take active top)),
          count-cand_keys k (take active top),
          count-cand_keys k (spares_of fl active top),
          (spares-le k active top).0,
          count-take-drop (has_key_of k) active top,
          (top-le k ms).0,
        )

    length-top_keys :
        (ms : List SlotMember) (active : ℕ)
        → (length (top_keys ms active) ≤ node_pick_count)
          × (active ≤ length (top_of fl scores view idx ms incumbent)
              → active ≤ length (top_keys ms active))
    length-top_keys ms active =
        let top = top_of fl scores view idx ms incumbent in
        let whole : length (top_keys ms active)
            ≡ length (take active top) + length (spares_of fl active top) =
          omega (
            arith,
            length-append (sort str_le (cand_keys fl (take active top)))
                (cand_keys fl (spares_of fl active top)),
            length-sort str_le (cand_keys fl (take active top)),
            length-cand_keys (take active top),
            length-cand_keys (spares_of fl active top),
          ) in
        (
          omega (
            arith,
            whole,
            length-take-drop active top,
            (spares-le "" active top).1,
            (top-le "" ms).1,
          ),
          λ h. omega (arith, whole, length-take-all active top h),
        )

    -- The keys of a stable pick are keys of the pool, each as often at most as members have it; they
    -- are at most three, and the active ones are among them.
    pub pick_stable-IsPick :
        (ms : List SlotMember)
        → IsPick ms node_pick_count (pick_stable fl scores view idx ms incumbent)
    unfolding pick_stable
    pick_stable-IsPick ms =
        let top = top_of fl scores view idx ms incumbent in
        let most = min slot_balancer_expected (length top) in
        let active = shrink_active fl most top in
        if_elim (IsPick ms node_pick_count) (any_scored fl scores idx ms)
          (λ _. record {
            of_pool = λ k. count-top_keys k ms active;
            few = (length-top_keys ms active).0;
            active_among = (length-top_keys ms active).1 (omega (arith, shrink_active-le most top));
          })
          (λ _. nothing-IsPick ms node_pick_count)
