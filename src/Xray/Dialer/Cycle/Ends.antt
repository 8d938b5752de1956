-- ===== src/Xray/Dialer/Cycle/Ends.antt =====
-- The walk of DetectDialerCycle of core/xray/dialer.go ends.
use em_xray.Xray.Names.Normal.{normalize_name_twice}
use em_xray.Xray.Dialer.Cycle.{
  CycleCheck, no_cycle, bad_dialer, out_of_fuel, has_cycle, walk_refs, detect_dialer_cycle,
  error_or, DialerRef, walk_dialer, walk_dialers, parse_dialer, normalize_name, lookup_dialer,
  ref_xray,
}
use em_xray.Prelude.{
  ℕ, zero, suc, List, [], ◌∷◌, String, some, none, true, false, Option, ◌≢◌, count, contains, not,
  ◌≤◌, ◌≡◌, arith, Option-cases, ◌<◌, length, if_elim, Bool-cases, str_eq, inl, eq_iff,
  count-le-length, inr,
}

error_or-ends :
    (c rest : CycleCheck) → c ≢ out_of_fuel → rest ≢ out_of_fuel → error_or c rest ≢ out_of_fuel
error_or-ends no_cycle rest h k = k
error_or-ends bad_dialer rest h k = h
error_or-ends out_of_fuel rest h k = h
error_or-ends (has_cycle x) rest h k = h

walk_refs-ends :
    (walk : String → CycleCheck) (name : String) (refs : List DialerRef)
    → ((s : String) → walk s ≢ out_of_fuel)
    → walk_refs walk name refs ≢ out_of_fuel
unfolding walk_refs
walk_refs-ends walk name [] h = λ e. ground arith
walk_refs-ends walk name (r ∷ refs) h =
    let rest = walk_refs-ends walk name refs h in
    if_elim (λ (c : CycleCheck). c ≢ out_of_fuel) (not (str_eq r.kind ref_xray)) (λ _. rest)
      (λ _.
        if_elim (λ (c : CycleCheck). c ≢ out_of_fuel) (str_eq (normalize_name r.name) name)
          (λ _ e. ground arith)
          (λ _. error_or-ends (walk r.name) (walk_refs walk name refs) (h r.name) rest))

walk_dialer-ends :
    (walk : String → CycleCheck) (name d : String)
    → ((s : String) → walk s ≢ out_of_fuel)
    → walk_dialer walk name (some d) ≢ out_of_fuel
walk_dialer-ends walk name d h = elim (Option-cases (parse_dialer d)) [
  | inl q ↦ rw (q, walk_dialer) (λ e. ground arith)
  | inr (refs, q) ↦ rw (q, walk_dialer) (walk_refs-ends walk name refs h)
]

-- The stored names that the walk has not visited.
abbrev unvisited : List String → List String → ℕ
unvisited visiting stored = count (λ n. not (contains visiting n)) stored

unvisited-same :
    (visiting stored : List String) (e : String)
    → unvisited (e ∷ visiting) stored ≤ unvisited visiting stored
unfolding contains
unvisited-same visiting [] e = omega arith
unvisited-same visiting (n ∷ stored) e = ground (arith, unvisited-same visiting stored e)

unvisited-falls :
    (visiting stored : List String) (e : String)
    → contains visiting e ≡ false
    → contains stored e ≡ true
    → unvisited (e ∷ visiting) stored < unvisited visiting stored
unfolding contains
unvisited-falls visiting [] e h k = ground arith
unvisited-falls visiting (n ∷ stored) e h k = elim (Bool-cases (str_eq n e)) [
  | inl q ↦
      (let same = (eq_iff n e).0 q in
        ground (arith, same, h, eq_iff e e, eq_iff e n, unvisited-same visiting stored e))
  | inr q ↦ ground (arith, q, unvisited-falls visiting stored e h (ground (arith, k, q)))
]

module _ (look : String → Option String) (name : String) (stored : List String)
    (covers : (e : String) → normalize_name e ≡ e → contains stored e ≡ false → look e ≡ none) where
  walk_dialers-ends :
      (fuel : ℕ) (visiting : List String) (s : String)
      → unvisited visiting stored < fuel
      → walk_dialers fuel look name visiting s ≢ out_of_fuel
  unfolding walk_dialers
  walk_dialers-ends zero visiting s h = absurd (omega arith)
  walk_dialers-ends (suc fuel) visiting s h =
      let e = normalize_name s in
      if_elim (λ (c : CycleCheck). c ≢ out_of_fuel) (contains visiting e) (λ _ q. ground arith)
        (λ new. elim (Bool-cases (contains stored e)) [
          | inl q ↦ elim (Option-cases (look e)) [
            | inl p ↦ rw (p, walk_dialer) (λ x. ground arith)
            | inr (d, p) ↦ rw p (
                walk_dialer-ends (walk_dialers fuel look name (e ∷ visiting)) name d (λ t.
                  walk_dialers-ends fuel (e ∷ visiting) t (
                    let falls = unvisited-falls visiting stored e new q in
                    omega (arith, falls, h))))
          ]
          | inr q ↦ rw (covers e (normalize_name_twice s) q, walk_dialer) (λ x. ground arith)
        ])

covered :
    (stored : List String) (name dialer : String) (dialer_of : String → Option String)
    → ((e : String) → contains stored e ≡ false → dialer_of e ≡ none)
    → (n : String) → normalize_name n ≡ n
    → contains (name ∷ stored) n ≡ false
    → lookup_dialer name dialer dialer_of n ≡ none
unfolding lookup_dialer contains
covered stored name dialer dialer_of covers n normal h = rw normal (
    if_elim (λ (o : Option String). o ≡ none) (str_eq n name)
      (λ q. absurd (ground (arith, h, q, eq_iff n name, eq_iff name n)))
      (λ q. covers n (ground (arith, h))))

-- DetectDialerCycle ends: where only the names of a list have a stored dialer, a recursion two calls
-- deeper than the list is long is enough.
pub detect_dialer_cycle_ends :
    (stored : List String) (name dialer : String) (dialer_of : String → Option String)
    → ((e : String) → contains stored e ≡ false → dialer_of e ≡ none)
    → detect_dialer_cycle (suc (suc (length stored))) name dialer dialer_of ≢ out_of_fuel
unfolding detect_dialer_cycle
detect_dialer_cycle_ends stored name dialer dialer_of covers =
    let e = normalize_name name in
    walk_dialers-ends (lookup_dialer e dialer dialer_of) e (e ∷ stored)
      (covered stored e dialer dialer_of covers) (suc (suc (length stored))) [] e
      (let few = count-le-length (λ n. not (contains [] n)) (e ∷ stored) in omega (arith, few))
