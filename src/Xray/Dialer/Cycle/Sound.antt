-- ===== src/Xray/Dialer/Cycle/Sound.antt =====
-- What the absence of an error from DetectDialerCycle of core/xray/dialer.go shows.
use em_xray.Xray.Names.Normal.{normalize_name_twice}
use em_xray.Xray.Dialer.Cycle.Route.{hops, xray_names, hops_of, Route, hops-IsNormal, RunsIntoCycle}
use em_xray.Xray.Dialer.Cycle.{
  CycleCheck, walk_refs, walk_dialers, error_or, normalize_name, no_cycle, DialerRef, walk_dialer,
  has_cycle, ref_xray, parse_dialer, bad_dialer, out_of_fuel, detect_dialer_cycle, lookup_dialer,
}
use em_xray.Prelude.{
  ℕ, zero, suc, List, [], ◌∷◌, String, some, none, true, false, Option, contains, ◌≡◌, arith,
  Bool-cases, refl, str_eq, Option-cases, inl, inr, eq_iff, ◌∙◌,
}

error_or-no_cycle :
    (c rest : CycleCheck) → error_or c rest ≡ no_cycle → (c ≡ no_cycle) × (rest ≡ no_cycle)
error_or-no_cycle no_cycle rest h = (refl, h)
error_or-no_cycle bad_dialer rest h = absurd (ground arith)
error_or-no_cycle out_of_fuel rest h = absurd (ground arith)
error_or-no_cycle (has_cycle x) rest h = absurd (ground arith)

walk_refs-no_cycle :
    (walk : String → CycleCheck) (name : String) (refs : List DialerRef) (g : String)
    → ((s : String) → walk (normalize_name s) ≡ walk s)
    → walk_refs walk name refs ≡ no_cycle
    → contains (xray_names refs) g ≡ true
    → walk g ≡ no_cycle
unfolding walk_refs xray_names contains
walk_refs-no_cycle walk name [] g respects h on = ground arith
walk_refs-no_cycle walk name (r ∷ refs) g respects h on =
    elim (Bool-cases (str_eq r.kind ref_xray)) [
      | inl q ↦ elim (Bool-cases (str_eq (normalize_name r.name) name)) [
        | inl s ↦ absurd (ground (arith, h, q, s))
        | inr s ↦
            (let both =
                error_or-no_cycle (walk r.name) (walk_refs walk name refs) (rw (q, s) at h) in
              elim (Bool-cases (str_eq (normalize_name r.name) g)) [
                | inl t ↦ rw (← (eq_iff (normalize_name r.name) g).0 t) (respects r.name ∙ both.0)
                | inr t ↦
                    walk_refs-no_cycle walk name refs g respects both.1 (ground (arith, on, q, t))
              ])
      ]
      | inr q ↦ walk_refs-no_cycle walk name refs g respects (rw q at h) (rw q at on)
    ]

not_in_tail :
    (x : String) (xs : List String) (g : String)
    → contains (x ∷ xs) g ≡ false
    → contains xs g ≡ false
unfolding contains
not_in_tail x xs g h = ground arith

in_front : (x : String) (xs : List String) → contains (x ∷ xs) x ≡ false → ⊥
unfolding contains
in_front x xs h = ground (arith, eq_iff x x)

module _ (look : String → Option String) (name : String) where
  pub walk_dialers-normal :
      (fuel : ℕ) (visiting : List String) (s : String)
      → walk_dialers fuel look name visiting (normalize_name s)
        ≡ walk_dialers fuel look name visiting s
  unfolding walk_dialers
  walk_dialers-normal zero visiting s = refl
  walk_dialers-normal (suc fuel) visiting s = rw (normalize_name_twice s) refl

  walk_dialer-no_cycle :
      (walk : String → CycleCheck) (o : Option String) (g : String)
      → ((s : String) → walk (normalize_name s) ≡ walk s)
      → walk_dialer walk name o ≡ no_cycle
      → contains (hops_of o) g ≡ true
      → walk g ≡ no_cycle
  unfolding contains
  walk_dialer-no_cycle walk none g respects h on = ground arith
  walk_dialer-no_cycle walk (some d) g respects h on = elim (Option-cases (parse_dialer d)) [
    | inl q ↦ absurd (ground (arith, h, q))
    | inr (refs, q) ↦
        walk_refs-no_cycle walk name refs g respects (rw (q, walk_dialer) at h)
          (rw (q, hops_of) at on)
  ]

  -- From an entry where the walk finds no cycle, it finds none from the entries one hop on, nor is
  -- the entry among those visited.
  walk_step :
      (fuel : ℕ) (visiting : List String) (e : String)
      → normalize_name e ≡ e
      → walk_dialers (suc fuel) look name visiting e ≡ no_cycle
      → (contains visiting e ≡ false)
        × ((g : String)
            → contains (hops look e) g ≡ true
            → walk_dialers fuel look name (e ∷ visiting) g ≡ no_cycle)
  unfolding walk_dialers hops
  walk_step fuel visiting e normal h = elim (Bool-cases (contains visiting e)) [
    | inl q ↦ absurd (let k = rw normal at h in ground (arith, k, q))
    | inr q ↦
        (let k = rw (normal, q) at h in
          (
            q,
            λ g on.
                walk_dialer-no_cycle (walk_dialers fuel look name (e ∷ visiting)) (look e) g
                  (walk_dialers-normal fuel (e ∷ visiting)) k on,
          ))
  ]

  -- No route from an entry where the walk finds no cycle leads to an entry among those visited.
  walk-avoids :
      (n fuel : ℕ) (visiting : List String) (e g : String)
      → normalize_name e ≡ e
      → walk_dialers fuel look name visiting e ≡ no_cycle
      → Route look n e g
      → contains visiting g ≡ false
  unfolding walk_dialers
  walk-avoids n zero visiting e g normal h r = absurd (ground arith)
  walk-avoids zero (suc fuel) visiting e g normal h r =
      rw r at (walk_step fuel visiting e normal h).0
  walk-avoids (suc n) (suc fuel) visiting e g normal h r =
      let (f, to_f, rest) = r in
      let after = (walk_step fuel visiting e normal h).1 f to_f in
      let avoids = walk-avoids n fuel (e ∷ visiting) f g (hops-IsNormal look e f to_f) after rest in
      not_in_tail e visiting g avoids

  -- The walk from each entry on the way finds no cycle either.
  walk-along :
      (n fuel : ℕ) (visiting : List String) (e g : String)
      → normalize_name e ≡ e
      → walk_dialers fuel look name visiting e ≡ no_cycle
      → Route look n e g
      → (left : ℕ) × (seen : List String) × (walk_dialers left look name seen g ≡ no_cycle)
        × (normalize_name g ≡ g)
  unfolding walk_dialers
  walk-along n zero visiting e g normal h r = absurd (ground arith)
  walk-along zero (suc fuel) visiting e g normal h r =
      (suc fuel, visiting, rw (← r) h, rw (← r) normal)
  walk-along (suc n) (suc fuel) visiting e g normal h r =
      let (f, to_f, rest) = r in
      let after = (walk_step fuel visiting e normal h).1 f to_f in
      walk-along n fuel (e ∷ visiting) f g (hops-IsNormal look e f to_f) after rest

  no_loop :
      (fuel m : ℕ) (visiting : List String) (y : String)
      → normalize_name y ≡ y
      → walk_dialers fuel look name visiting y ≡ no_cycle
      → ¬ Route look (suc m) y y
  unfolding walk_dialers
  no_loop zero m visiting y normal h r = absurd (ground arith)
  no_loop (suc fuel) m visiting y normal h r =
      let (f, to_f, rest) = r in
      let after = (walk_step fuel visiting y normal h).1 f to_f in
      let avoids = walk-avoids m fuel (y ∷ visiting) f y (hops-IsNormal look y f to_f) after rest in
      in_front y visiting avoids

-- DetectDialerCycle is sound: where it reports no error, no route along the xray refs from the entry
-- runs into a cycle, the entry's own dialer counted as stored.
pub detect_dialer_cycle_sound :
    (fuel : ℕ) (name dialer : String) (dialer_of : String → Option String)
    → detect_dialer_cycle fuel name dialer dialer_of ≡ no_cycle
    → ¬ RunsIntoCycle (lookup_dialer (normalize_name name) dialer dialer_of) (normalize_name name)
unfolding detect_dialer_cycle
detect_dialer_cycle_sound fuel name dialer dialer_of h (y, n, m, to_y, loop) =
    let e = normalize_name name in
    let look = lookup_dialer e dialer dialer_of in
    let (left, seen, none_there, normal) =
      walk-along look e n fuel [] e y (normalize_name_twice name) h to_y in
    no_loop look e left m seen y normal none_there loop
