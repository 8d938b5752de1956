-- ===== src/Daemon/Live/Diff.antt =====
-- What diffTagged and the loop over the masters of planLive (daemon/xray_live.go) put in a plan.
use em_xray.Daemon.Live.{differs, diff_keys, diff_tagged, moved_masters}
use em_xray.Prelude.{
  List, String, Option, Bool, get, contains, Dict, false, str_eq, ℕ, ◌≡◌, [], IsKeyed,
  if◌then◌else◌, some, count, ltb, ◌∙◌, contains-sort, true, refl, not, Option-cases, ap, str_le,
  is_some, ◌≤◌, ◌∷◌, Bool-cases, none, inl, arith, inr, eq_iff, sym, if_elim,
}

-- Whether an object that was there is gone or another one.
abbrev pub changed : Option String → Option String → Bool
changed none w = false
changed (some o) none = true
changed (some o) (some w) = not (str_eq w o)

abbrev pub is_key : String → String → Bool
is_key k x = str_eq x k

abbrev pub one_if : Bool → ℕ
one_if b = if b then 1 else 0

differs-changed : (d : Dict String) (k o : String) → differs d k o ≡ changed (some o) (get d k)
unfolding differs
differs-changed d k o = elim (Option-cases (get d k)) [
  | inl e ↦ rw (e, differs) refl
  | inr (w, e) ↦ rw (e, differs) refl
]

pub count-diff_keys :
    (other objects : Dict String) (k : String)
    → IsKeyed objects
    → count (is_key k) (diff_keys other objects) ≡ one_if (changed (get objects k) (get other k))
unfolding diff_keys get IsKeyed
count-diff_keys other [] k h = refl
count-diff_keys other ((t, o) ∷ d) k h = elim (Bool-cases (str_eq t k)) [
  | inl e ↦
      (let same : t ≡ k = ground (arith, eq_iff t k) in
        let later : count (is_key k) (diff_keys other d) ≡ 0 =
          count-diff_keys other d k h.1
          ∙ ap (λ g. one_if (changed g (get other k))) (ap (get d) (sym same) ∙ h.0) in
        let here : differs other t o ≡ changed (some o) (get other k) =
          differs-changed other t o ∙ ap (λ u. changed (some o) (get other u)) same in
        if_elim
          (λ (ts : List String).
            count (is_key k) ts
            ≡ one_if (changed (if str_eq t k then some o else get d k) (get other k)))
          (differs other t o) (λ yes. rw (e, later, sym here ∙ yes) refl)
          (λ n. rw (e, sym here ∙ n) later))
  | inr e ↦
      if_elim
        (λ (ts : List String).
          count (is_key k) ts
          ≡ one_if (changed (if str_eq t k then some o else get d k) (get other k)))
        (differs other t o) (λ yes. rw e (count-diff_keys other d k h.1))
        (λ n. rw e (count-diff_keys other d k h.1))
]

pub contains-count : (xs : List String) (k : String) → contains xs k ≡ ltb 0 (count (is_key k) xs)
unfolding contains
contains-count [] k = refl
contains-count (x ∷ xs) k = ground (arith, contains-count xs k)

pub contains-diff_keys :
    (other objects : Dict String) (k : String)
    → IsKeyed objects
    → contains (diff_keys other objects) k ≡ changed (get objects k) (get other k)
contains-diff_keys other objects k h =
    contains-count (diff_keys other objects) k
    ∙ ap (ltb 0) (count-diff_keys other objects k h)
    ∙ elim (Bool-cases (changed (get objects k) (get other k))) [
      | inl e ↦ rw e refl
      | inr e ↦ rw e refl
    ]

-- A tag is taken out exactly if its object is gone or another one in the new config, and put in
-- exactly if its object is new or another one there. No map has two entries for a tag.
pub contains-diff_tagged :
    (old want : Dict String) (k : String)
    → IsKeyed old
    → IsKeyed want
    → (contains (diff_tagged old want).0 k ≡ changed (get old k) (get want k))
      × (contains (diff_tagged old want).1 k ≡ changed (get want k) (get old k))
unfolding diff_tagged
contains-diff_tagged old want k ho hw = (
  contains-sort str_le (diff_keys want old) k ∙ contains-diff_keys want old k ho,
  contains-sort str_le (diff_keys old want) k ∙ contains-diff_keys old want k hw,
)

-- A master that the loop finds: not in the diff, there before, and named in the new config.
pub contains-moved_masters :
    (gone : List String) (outbounds want : Dict String) (k : String)
    → contains (moved_masters gone outbounds want) k ≡ true
    → (contains gone k ≡ false) × (is_some (get outbounds k) ≡ true) × (is_some (get want k) ≡ true)
unfolding moved_masters get contains
contains-moved_masters gone outbounds [] k = λ h. absurd (ground arith)
contains-moved_masters gone outbounds ((t, d) ∷ want) k =
    let rest = contains-moved_masters gone outbounds want k in ground (arith, rest, eq_iff t k)

pub count-moved_masters :
    (gone : List String) (outbounds want : Dict String) (k : String)
    → IsKeyed want
    → count (is_key k) (moved_masters gone outbounds want) ≤ one_if (is_some (get want k))
unfolding moved_masters get IsKeyed
count-moved_masters gone outbounds [] k h = omega arith
count-moved_masters gone outbounds ((t, d) ∷ want) k h =
    let rest : count (is_key k) (moved_masters gone outbounds want)
        ≤ one_if (is_some (get want k)) =
      count-moved_masters gone outbounds want k h.1 in
    let clash : str_eq t k ≡ true → count (is_key k) (moved_masters gone outbounds want) ≡ 0 = λ e.
      (let same : t ≡ k = ground (arith, eq_iff t k) in
        let absent : get want k ≡ none = ap (get want) (sym same) ∙ h.0 in
        ground (arith, rest, absent)) in
    ground (arith, rest, clash)
