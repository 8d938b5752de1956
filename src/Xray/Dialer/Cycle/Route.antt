-- ===== src/Xray/Dialer/Cycle/Route.antt =====
-- Routes along the dialers that DetectDialerCycle of core/xray/dialer.go walks.
use em_xray.Xray.Names.Normal.{normalize_name_twice}
use em_xray.Xray.Names.{normalize_name}
use em_xray.Xray.Dialer.{DialerRef, parse_dialer, ref_xray}
use em_xray.Prelude.{
  ℕ, zero, suc, List, [], ◌∷◌, String, some, none, true, Option, ◌≡◌, contains, if◌then◌else◌,
  str_eq, arith, Bool-cases, inl, eq_iff, inr, refl,
}

-- The normal names of the xray refs of a list.
unfoldable pub xray_names : List DialerRef → List String
xray_names [] = []
xray_names (r ∷ refs) =
    let rest = xray_names refs in
    if str_eq r.kind ref_xray then normalize_name r.name ∷ rest else rest

abbrev pub names_of : Option (List DialerRef) → List String
names_of none = []
names_of (some refs) = xray_names refs

abbrev pub hops_of : Option String → List String
hops_of none = []
hops_of (some d) = names_of (parse_dialer d)

-- The entries that an entry dials through at first hand.
unfoldable pub hops : (String → Option String) → String → List String
hops look entry = hops_of (look entry)

-- A route of n hops.
abbrev pub Route : (String → Option String) → ℕ → String → String → Type 0
Route look zero e g = e ≡ g
Route look (suc n) e g = (f : String) × (contains (hops look e) f ≡ true) × Route look n f g

-- A route from the entry runs into a cycle.
abbrev pub RunsIntoCycle : (String → Option String) → String → Type 0
RunsIntoCycle look e = (y : String) × (n : ℕ) × (m : ℕ) × Route look n e y × Route look (suc m) y y

pub Route-snoc :
    (look : String → Option String) (n : ℕ) (e f g : String)
    → Route look n e f
    → contains (hops look f) g ≡ true
    → Route look (suc n) e g
Route-snoc look zero e f g r h = (g, rw r h, refl)
Route-snoc look (suc n) e f g r h =
    let (d, to_d, rest) = r in (d, to_d, Route-snoc look n d f g rest h)

contains-xray_names-IsNormal :
    (refs : List DialerRef) (e : String)
    → contains (xray_names refs) e ≡ true
    → normalize_name e ≡ e
unfolding xray_names contains
contains-xray_names-IsNormal [] e h = ground arith
contains-xray_names-IsNormal (r ∷ refs) e h = elim (Bool-cases (str_eq r.kind ref_xray)) [
  | inl q ↦ elim (Bool-cases (str_eq (normalize_name r.name) e)) [
    | inl s ↦ rw (← (eq_iff (normalize_name r.name) e).0 s) (normalize_name_twice r.name)
    | inr s ↦ contains-xray_names-IsNormal refs e (ground (arith, h, q, s))
  ]
  | inr q ↦ contains-xray_names-IsNormal refs e (ground (arith, h, q))
]

names_of-IsNormal :
    (o : Option (List DialerRef)) (g : String)
    → contains (names_of o) g ≡ true
    → normalize_name g ≡ g
unfolding contains
names_of-IsNormal none g on = ground arith
names_of-IsNormal (some refs) g on = contains-xray_names-IsNormal refs g on

hops_of-IsNormal :
    (o : Option String) (g : String) → contains (hops_of o) g ≡ true → normalize_name g ≡ g
unfolding contains
hops_of-IsNormal none g on = ground arith
hops_of-IsNormal (some d) g on = names_of-IsNormal (parse_dialer d) g on

pub hops-IsNormal :
    (look : String → Option String) (e g : String)
    → contains (hops look e) g ≡ true
    → normalize_name g ≡ g
unfolding hops
hops-IsNormal look e g on = hops_of-IsNormal (look e) g on
