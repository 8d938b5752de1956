-- ===== src/Daemon/Live/Process.antt =====
-- The running xray that applyLiveLocked of daemon/xray_live.go calls: a third party's program,
-- so its outbounds are behind an interface.
use em_xray.Daemon.Live.Diff.{is_key, contains-count}
use em_xray.Daemon.Live.{ApiCall, unless_none, rmo, rmi, adi, adrules, ado, add_calls}
use em_xray.Prelude.{
  List, String, contains, Bool, Option, ◌++◌, if◌then◌else◌, Dict, ◌∷◌, ◌≡◌, count, none, [], ◌≤◌,
  some, true, str_eq, is_some, get, false, refl, Option-cases, inl, arith, eq_iff, inr, ◌∙◌, ap,
  sym,
}

-- A process on which every call succeeds. `outbound s t` is the object it has under the tag t.
-- `rmo` takes outbounds out, `ado` puts one in where the tag is free, and the other calls leave the
-- outbounds alone.
pub record XrayProcess : Type 1 where
  pub State : Type 0
  pub run : ApiCall → State → State
  pub outbound : State → String → Option String
  pub outbound-rmo :
      (tags : List String) (s : State) (k : String)
      → outbound (run (rmo tags) s) k ≡ (if contains tags k then none else outbound s k)
  pub outbound-ado :
      (tag o : String) (s : State) (k : String)
      → outbound s tag ≡ none
      → outbound (run (ado tag (some o)) s) k ≡ (if str_eq tag k then some o else outbound s k)
  pub outbound-rmi :
      (tags : List String) (s : State) (k : String) → outbound (run (rmi tags) s) k ≡ outbound s k
  pub outbound-adi :
      (tags : List String) (s : State) (k : String) → outbound (run (adi tags) s) k ≡ outbound s k
  pub outbound-adrules :
      (rules : String) (s : State) (k : String) → outbound (run (adrules rules) s) k ≡ outbound s k

module _ (x : XrayProcess) where
  abbrev pub run_all : List ApiCall → x.State → x.State
  run_all [] s = s
  run_all (c ∷ cs) s = run_all cs (x.run c s)

  pub run_all-append :
      (cs ds : List ApiCall) (s : x.State) → run_all (cs ++ ds) s ≡ run_all ds (run_all cs s)
  run_all-append [] ds s = refl
  run_all-append (c ∷ cs) ds s = run_all-append cs ds (x.run c s)

  pub outbound-unless_rmo :
      (tags : List String) (s : x.State) (k : String)
      → x.outbound (run_all (unless_none rmo tags) s) k
        ≡ (if contains tags k then none else x.outbound s k)
  unfolding contains
  outbound-unless_rmo [] s k = refl
  outbound-unless_rmo (t ∷ ts) s k = x.outbound-rmo (t ∷ ts) s k

  pub outbound-unless_rmi :
      (tags : List String) (s : x.State) (k : String)
      → x.outbound (run_all (unless_none rmi tags) s) k ≡ x.outbound s k
  outbound-unless_rmi [] s k = refl
  outbound-unless_rmi (t ∷ ts) s k = x.outbound-rmi (t ∷ ts) s k

  pub outbound-unless_adi :
      (tags : List String) (s : x.State) (k : String)
      → x.outbound (run_all (unless_none adi tags) s) k ≡ x.outbound s k
  outbound-unless_adi [] s k = refl
  outbound-unless_adi (t ∷ ts) s k = x.outbound-adi (t ∷ ts) s k

  pub outbound-routing :
      (b : Bool) (rules : String) (s : x.State) (k : String)
      → x.outbound (run_all (if b then adrules rules ∷ [] else []) s) k ≡ x.outbound s k
  outbound-routing true rules s k = x.outbound-adrules rules s k
  outbound-routing false rules s k = refl

  -- The additions put in every tag of a list without repetition, where each is free before.
  pub outbound-add_calls :
      (objects : Dict String) (tags : List String) (s : x.State) (k : String)
      → ((j : String) → count (is_key j) tags ≤ 1)
      → ((j : String) → contains tags j ≡ true → x.outbound s j ≡ none)
      → ((j : String) → contains tags j ≡ true → is_some (get objects j) ≡ true)
      → x.outbound (run_all (add_calls objects tags) s) k
        ≡ (if contains tags k then get objects k else x.outbound s k)
  unfolding contains
  outbound-add_calls objects [] s k once free known = refl
  outbound-add_calls objects (t ∷ ts) s k once free known = elim (Option-cases (get objects t)) [
    | inl e ↦ absurd (
        let some_t : is_some (get objects t) ≡ true = known t (ground (arith, eq_iff t t)) in
        ground arith)
    | inr (o, e) ↦
        (let s1 = x.run (ado t (some o)) s in
          let after : (j : String)
              → x.outbound s1 j ≡ (if str_eq t j then some o else x.outbound s j) =
            λ j. x.outbound-ado t o s j (free t (ground (arith, eq_iff t t))) in
          let fresh : contains ts t ≡ false =
            contains-count ts t ∙ (let c = once t in ground (arith, eq_iff t t)) in
          let rest : x.outbound (run_all (add_calls objects ts) s1) k
              ≡ (if contains ts k then get objects k else x.outbound s1 k) =
            outbound-add_calls objects ts s1 k (λ j. (let c = once j in ground arith))
              (λ j q.
                (let a = after j in
                  let f = free j (ground arith) in
                  let apart : str_eq t j ≡ false = ground (arith, eq_iff t j, fresh) in
                  ground arith))
              (λ j q. known j (ground arith)) in
          rw e (
            rest
            ∙ (let a = after k in
                let at_k : str_eq t k ≡ true → get objects k ≡ some o =
                  λ q. ap (get objects) (sym ((eq_iff t k).0 q)) ∙ e in
                ground arith)))
  ]
