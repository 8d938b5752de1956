-- ===== src/Daemon/Live/NoLeak/Merge.antt =====
-- Which tags count as dependents: p.dialerOf of daemon/xray_live.go, the old dialers and the new ones.
use em_xray.Daemon.Live.{text_at, merge_dialers, moved_masters}
use em_xray.Prelude.{
  [], ◌∷◌, String, some, none, true, false, Bool, Option, Dict, not, put, get, str_eq, ◌≡◌, IsKeyed,
  ap, if◌then◌else◌, ◌||◌, Bool-cases, arith, sym, inl, get-put, eq_iff, inr, ◌∙◌, refl,
  Option-cases, contains, List,
}

-- A tag has a dialer.
unfoldable pub names : Dict String → String → Bool
names d k = not (str_eq (text_at d k) "")

names-get :
    (d : Dict String) (k : String) (o : Option String)
    → get d k ≡ o
    → names d k ≡ not (str_eq (elim o [ some s ↦ s | none ↦ "" ]) "")
unfolding names text_at
names-get d k o e =
    ap (λ (o : Option String). not (str_eq (elim o [ some s ↦ s | none ↦ "" ]) "")) e

names-put :
    (d : Dict String) (t s k : String)
    → names (put d t s) k ≡ (if str_eq t k then not (str_eq s "") else names d k)
names-put d t s k = elim (Bool-cases (str_eq t k)) [
  | inl e ↦ rw e (names-get (put d t s) k (some s) (get-put d t k s ∙ rw e refl))
  | inr e ↦ rw e (
      names-get (put d t s) k (get d k) (get-put d t k s ∙ rw e refl)
      ∙ sym (names-get d k (get d k) refl))
]

names-cons :
    (d : Dict String) (t s k : String)
    → names ((t, s) ∷ d) k ≡ (if str_eq t k then not (str_eq s "") else names d k)
unfolding get
names-cons d t s k = elim (Bool-cases (str_eq t k)) [
  | inl e ↦ rw e (names-get ((t, s) ∷ d) k (some s) (rw e refl))
  | inr e ↦
      rw e (names-get ((t, s) ∷ d) k (get d k) (rw e refl) ∙ sym (names-get d k (get d k) refl))
]

pub names-merge_dialers :
    (old want : Dict String) (k : String)
    → IsKeyed want
    → names (merge_dialers old want) k ≡ (names old k || names want k)
unfolding merge_dialers IsKeyed get
names-merge_dialers old [] k h =
    let nil : names [] k ≡ false = names-get [] k none refl in ground (arith, nil)
names-merge_dialers old ((t, d) ∷ want) k h =
    let rest = names-merge_dialers (if str_eq d "" then old else put old t d) want k h.1 in
    let head = names-cons want t d k in
    let set = names-put old t d k in
    let absent : str_eq t k ≡ true → names want k ≡ false =
      λ e. names-get want k none (ap (get want) (sym ((eq_iff t k).0 e)) ∙ h.0) in
    let start : names (if str_eq d "" then old else put old t d) k
        ≡ (if str_eq d "" then names old k else names (put old t d) k) =
      elim (Bool-cases (str_eq d "")) [ inl e ↦ rw e refl | inr e ↦ rw e refl ] in
    rest ∙ ground (arith, head, set, absent, start)

pub names-dial :
    (d : Dict String) (k s : String) → text_at d k ≡ s → str_eq s "" ≡ false → names d k ≡ true
unfolding names
names-dial d k s e named = ap (λ t. not (str_eq t "")) e ∙ ground (arith, named)

pub get-text_at :
    (d : Dict String) (k s : String) → text_at d k ≡ s → str_eq s "" ≡ false → get d k ≡ some s
unfolding text_at
get-text_at d k s e named =
    let text : Option String → String = λ (o : Option String). elim o [ some t ↦ t | none ↦ "" ] in
    elim (Option-cases (get d k)) [
      | inl q ↦ absurd (
          let blank : "" ≡ s = sym (ap text q) ∙ e in
          let yes : str_eq s "" ≡ true = ap (λ t. str_eq t "") (sym blank) in
          ground (arith, yes, named))
      | inr (t, q) ↦ q ∙ ap some (sym (ap text q) ∙ e)
    ]

-- A master that goes with its dialer has a dialer.
pub moved_masters-names :
    (gone : List String) (outbounds want : Dict String) (k : String)
    → IsKeyed want
    → contains (moved_masters gone outbounds want) k ≡ true
    → names want k ≡ true
unfolding moved_masters IsKeyed contains
moved_masters-names gone outbounds [] k h c = absurd (ground arith)
moved_masters-names gone outbounds ((t, d) ∷ want) k h c =
    let rest = moved_masters-names gone outbounds want k h.1 in
    let head = names-cons want t d k in
    let absent : str_eq t k ≡ true → names want k ≡ false =
      λ e. names-get want k none (ap (get want) (sym ((eq_iff t k).0 e)) ∙ h.0) in
    head ∙ ground (arith, rest, absent, c)
