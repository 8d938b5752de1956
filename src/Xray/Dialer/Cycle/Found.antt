-- ===== src/Xray/Dialer/Cycle/Found.antt =====
-- What an error of DetectDialerCycle of core/xray/dialer.go shows.
use em_xray.Xray.Names.Normal.{normalize_name_twice}
use em_xray.Xray.Dialer.Cycle.Sound.{walk_dialers-normal, detect_dialer_cycle_sound}
use em_xray.Xray.Dialer.Cycle.Route.{
  Route, RunsIntoCycle, hops, xray_names, Route-snoc, hops_of, names_of, hops-IsNormal,
}
use em_xray.Xray.Dialer.Cycle.{
  CycleCheck, no_cycle, bad_dialer, out_of_fuel, has_cycle, error_or, walk_refs, parse_dialer,
  DialerRef, normalize_name, ref_xray, walk_dialer, walk_dialers, detect_dialer_cycle,
  lookup_dialer,
}
use mathlib.Core.Path.{subst}
use em_xray.Prelude.{
  ℕ, zero, suc, List, [], ◌∷◌, String, some, none, true, Option, contains, ◌≡◌, Bool-cases, str_eq,
  inl, eq_iff, arith, sym, if_elim, inr, refl, Option-cases,
}

-- A route from the entry leads to one whose dialer does not parse.
abbrev pub MeetsBadDialer : (String → Option String) → String → Type 0
MeetsBadDialer look e =
    (y : String) × (n : ℕ) × (d : String) × Route look n e y
    × (look y ≡ some d)
    × (parse_dialer d ≡ none)

-- What a result says of the entry that the walk began at.
abbrev pub Explains : (String → Option String) → String → CycleCheck → Type 0
Explains look e no_cycle = ¬ RunsIntoCycle look e
Explains look e out_of_fuel = Unit
Explains look e bad_dialer = MeetsBadDialer look e
Explains look e (has_cycle x) = RunsIntoCycle look e

-- The same, of the errors alone.
abbrev Blames : (String → Option String) → String → CycleCheck → Type 0
Blames look e no_cycle = Unit
Blames look e out_of_fuel = Unit
Blames look e bad_dialer = MeetsBadDialer look e
Blames look e (has_cycle x) = RunsIntoCycle look e

still_there :
    (name x : String) (xs : List String) → contains xs name ≡ true → contains (x ∷ xs) name ≡ true
unfolding contains
still_there name x xs h = ground (arith, h)

module _ (look : String → Option String) (name : String) where
  Blames-hop :
      (c : CycleCheck) (e g : String)
      → contains (hops look e) g ≡ true
      → Blames look g c
      → Blames look e c
  Blames-hop no_cycle e g on h = tt
  Blames-hop out_of_fuel e g on h = tt
  Blames-hop bad_dialer e g on (y, n, d, r, found, bad) = (y, suc n, d, (g, on, r), found, bad)
  Blames-hop (has_cycle x) e g on (y, n, m, r, loop) = (y, suc n, m, (g, on, r), loop)

  Blames-error_or :
      (c rest : CycleCheck) (e : String)
      → Blames look e c
      → Blames look e rest
      → Blames look e (error_or c rest)
  Blames-error_or no_cycle rest e h k = k
  Blames-error_or out_of_fuel rest e h k = tt
  Blames-error_or bad_dialer rest e h k = h
  Blames-error_or (has_cycle x) rest e h k = h

  -- Each entry visited leads to the one the walk is at.
  abbrev LeadTo : List String → String → Type 0
  LeadTo visiting e = (v : String) → contains visiting v ≡ true → (n : ℕ) × Route look (suc n) v e

  closes :
      (visiting : List String) (e : String)
      → LeadTo visiting e
      → contains (e ∷ visiting) name ≡ true
      → contains (hops look e) name ≡ true
      → RunsIntoCycle look e
  unfolding contains
  closes visiting e lead top on = elim (Bool-cases (str_eq e name)) [
    | inl q ↦ (let same = (eq_iff e name).0 q in (e, 0, 0, refl, (name, on, sym same)))
    | inr q ↦
        (let (n, r) = lead name (ground (arith, top, q)) in
          (name, 1, suc n, (name, on, refl), Route-snoc look (suc n) name e name r on))
  ]

  LeadTo-hop :
      (visiting : List String) (e g : String)
      → LeadTo visiting e
      → contains (hops look e) g ≡ true
      → LeadTo (e ∷ visiting) g
  unfolding contains
  LeadTo-hop visiting e g lead on v h = elim (Bool-cases (str_eq e v)) [
    | inl q ↦ (let same = (eq_iff e v).0 q in (0, subst (λ u. Route look 1 u g) same (g, on, refl)))
    | inr q ↦
        (let (n, r) = lead v (ground (arith, h, q)) in (suc n, Route-snoc look (suc n) v e g r on))
  ]

  walk_refs-Blames :
      (walk : String → CycleCheck) (refs : List DialerRef) (e : String)
      → ((s : String) → walk (normalize_name s) ≡ walk s)
      → ((g : String) → contains (hops look e) g ≡ true → Blames look g (walk g))
      → (contains (hops look e) name ≡ true → RunsIntoCycle look e)
      → ((g : String) → contains (xray_names refs) g ≡ true → contains (hops look e) g ≡ true)
      → Blames look e (walk_refs walk name refs)
  unfolding walk_refs xray_names contains
  walk_refs-Blames walk [] e respects below close on = tt
  walk_refs-Blames walk (r ∷ refs) e respects below close on =
      elim (Bool-cases (str_eq r.kind ref_xray)) [
        | inl q ↦
            (let here : contains (hops look e) (normalize_name r.name) ≡ true =
                on (normalize_name r.name)
                  (ground (arith, q, eq_iff (normalize_name r.name) (normalize_name r.name))) in
              let rest =
                walk_refs-Blames walk refs e respects below close
                  (λ g h. on g (ground (arith, q, h))) in
              rw q (
                if_elim (λ (c : CycleCheck). Blames look e c) (str_eq (normalize_name r.name) name)
                  (λ s. close (
                    subst (λ u. contains (hops look e) u ≡ true)
                      ((eq_iff (normalize_name r.name) name).0 s) here))
                  (λ s.
                    Blames-error_or (walk r.name) (walk_refs walk name refs) e
                      (Blames-hop (walk r.name) e (normalize_name r.name) here (
                        subst (λ c. Blames look (normalize_name r.name) c) (respects r.name)
                          (below (normalize_name r.name) here)))
                      rest)))
        | inr q ↦ rw q (walk_refs-Blames walk refs e respects below close (λ g h. on g (rw q h)))
      ]

  walk_dialer-Blames :
      (walk : String → CycleCheck) (e : String)
      → ((s : String) → walk (normalize_name s) ≡ walk s)
      → ((g : String) → contains (hops look e) g ≡ true → Blames look g (walk g))
      → (contains (hops look e) name ≡ true → RunsIntoCycle look e)
      → Blames look e (walk_dialer walk name (look e))
  unfolding hops
  walk_dialer-Blames walk e respects below close = elim (Option-cases (look e)) [
    | inl q ↦ rw q tt
    | inr (d, q) ↦ elim (Option-cases (parse_dialer d)) [
      | inl p ↦ rw (q, p, walk_dialer) (e, 0, d, refl, q, p)
      | inr (refs, p) ↦
          rw (q, p, walk_dialer)
            (walk_refs-Blames walk refs e respects below close
              (λ g h. rw (q, hops, hops_of, p, names_of) h))
    ]
  ]

  walk_dialers-Blames :
      (fuel : ℕ) (visiting : List String) (e : String)
      → normalize_name e ≡ e
      → LeadTo visiting e
      → contains (e ∷ visiting) name ≡ true
      → Blames look e (walk_dialers fuel look name visiting e)
  unfolding walk_dialers contains
  walk_dialers-Blames zero visiting e normal lead top = tt
  walk_dialers-Blames (suc fuel) visiting e normal lead top = rw normal (
      if_elim (λ (c : CycleCheck). Blames look e c) (contains visiting e)
        (λ q. let (n, r) = lead e q in (e, 0, n, refl, r))
        (λ q.
          walk_dialer-Blames (walk_dialers fuel look name (e ∷ visiting)) e
            (walk_dialers-normal look name fuel (e ∷ visiting))
            (λ g on.
              walk_dialers-Blames fuel (e ∷ visiting) g (hops-IsNormal look e g on)
                (LeadTo-hop visiting e g lead on) (still_there name g (e ∷ visiting) top))
            (closes visiting e lead top)))

Explains-of :
    (look : String → Option String) (e : String) (c : CycleCheck)
    → Blames look e c
    → (c ≡ no_cycle → ¬ RunsIntoCycle look e)
    → Explains look e c
Explains-of look e no_cycle h k = k refl
Explains-of look e out_of_fuel h k = tt
Explains-of look e bad_dialer h k = h
Explains-of look e (has_cycle x) h k = h

-- The verdict of DetectDialerCycle is right whatever it is: where it reports no error, no route along
-- the xray refs from the entry runs into a cycle; where it reports a cycle, a route does; where it
-- reports a bad dialer, a route leads to an entry whose stored dialer does not parse.
pub detect_dialer_cycle-Explains :
    (fuel : ℕ) (name dialer : String) (dialer_of : String → Option String)
    → Explains
        (lookup_dialer (normalize_name name) dialer dialer_of)
        (normalize_name name)
        (detect_dialer_cycle fuel name dialer dialer_of)
unfolding contains detect_dialer_cycle
detect_dialer_cycle-Explains fuel name dialer dialer_of =
    let e = normalize_name name in
    let look = lookup_dialer e dialer dialer_of in
    Explains-of look e (walk_dialers fuel look e [] e)
      (walk_dialers-Blames look e fuel [] e (normalize_name_twice name)
        (λ v h. absurd (ground arith)) (ground (arith, eq_iff e e)))
      (detect_dialer_cycle_sound fuel name dialer dialer_of)
