-- ===== src/Daemon/Live/NoLeak.antt =====
-- Safe states of the running xray: no outbound dials through one that is missing, while
-- applyLiveLocked of daemon/xray_live.go changes them.
pub mod Merge
pub mod Facts
pub mod Along
pub mod Join
pub mod Whole
use mathlib.Core.List.{append_assoc}
use em_xray.Daemon.Live.Diff.{is_key, contains-count}
use em_xray.Daemon.Live.Process.{XrayProcess, run_all}
use em_xray.Daemon.Live.{ApiCall, rmo, ado, rmi, adi, adrules, add_calls, unless_none}
use em_xray.Prelude.{
  ℕ, zero, suc, List, [], ◌∷◌, String, some, none, true, false, Bool, Option, Dict, ◌++◌, ◌≡◌,
  contains, ap, str_eq, if◌then◌else◌, count, ◌∙◌, is_some, arith, refl, ◌≤◌, get, Option-cases,
  inl, eq_iff, inr, Bool-cases, sym,
}

-- The tags of a removal, one call for each: xray works through the tags of a call in their order.
abbrev pub singles : List String → List ApiCall
singles [] = []
singles (t ∷ ts) = rmo (t ∷ []) ∷ singles ts

abbrev pub one_by_one : List ApiCall → List ApiCall
one_by_one [] = []
one_by_one (rmo ts ∷ cs) = singles ts ++ one_by_one cs
one_by_one (ado t o ∷ cs) = ado t o ∷ one_by_one cs
one_by_one (rmi ts ∷ cs) = rmi ts ∷ one_by_one cs
one_by_one (adi ts ∷ cs) = adi ts ∷ one_by_one cs
one_by_one (adrules r ∷ cs) = adrules r ∷ one_by_one cs

pub one_by_one-append :
    (cs ds : List ApiCall) → one_by_one (cs ++ ds) ≡ one_by_one cs ++ one_by_one ds
one_by_one-append [] ds = refl
one_by_one-append (rmo ts ∷ cs) ds =
    ap (λ r. singles ts ++ r) (one_by_one-append cs ds)
    ∙ sym (append_assoc (singles ts) (one_by_one cs) (one_by_one ds))
one_by_one-append (ado t o ∷ cs) ds = ap (λ r. ado t o ∷ r) (one_by_one-append cs ds)
one_by_one-append (rmi ts ∷ cs) ds = ap (λ r. rmi ts ∷ r) (one_by_one-append cs ds)
one_by_one-append (adi ts ∷ cs) ds = ap (λ r. adi ts ∷ r) (one_by_one-append cs ds)
one_by_one-append (adrules r ∷ cs) ds = ap (λ q. adrules r ∷ q) (one_by_one-append cs ds)

pub singles-append : (ts us : List String) → singles (ts ++ us) ≡ singles ts ++ singles us
singles-append [] us = refl
singles-append (t ∷ ts) us = ap (λ r. rmo (t ∷ []) ∷ r) (singles-append ts us)

-- `dial o` is the tag that the outbound o dials through, "" for none.
module _ (x : XrayProcess) (dial : String → String) where
  -- Whatever is there and dials through another finds it there.
  abbrev pub Safe : x.State → Type 0
  Safe s =
      (k o : String)
      → x.outbound s k ≡ some o
      → str_eq (dial o) "" ≡ false
      → is_some (x.outbound s (dial o)) ≡ true

  -- Every state along the calls is safe, the last one included.
  abbrev pub SafeAlong : List ApiCall → x.State → Type 0
  SafeAlong [] s = Safe s
  SafeAlong (c ∷ cs) s = Safe s × SafeAlong cs (x.run c s)

  pub SafeAlong-append :
      (cs ds : List ApiCall) (s : x.State)
      → SafeAlong cs s
      → SafeAlong ds (run_all x cs s)
      → SafeAlong (cs ++ ds) s
  SafeAlong-append [] ds s hc hd = hd
  SafeAlong-append (c ∷ cs) ds s hc hd = (hc.0, SafeAlong-append cs ds (x.run c s) hc.1 hd)

  pub SafeAlong-end : (cs : List ApiCall) (s : x.State) → SafeAlong cs s → Safe (run_all x cs s)
  SafeAlong-end [] s h = h
  SafeAlong-end (c ∷ cs) s h = SafeAlong-end cs (x.run c s) h.1

  -- A property of everything that is there.
  abbrev pub Only : (String → String → Type 0) → x.State → Type 0
  Only P s = (k o : String) → x.outbound s k ≡ some o → P k o

  pub outbound-singles :
      (ts : List String) (s : x.State) (k : String)
      → x.outbound (run_all x (singles ts) s) k ≡ (if contains ts k then none else x.outbound s k)
  unfolding contains
  outbound-singles [] s k = refl
  outbound-singles (t ∷ ts) s k =
      outbound-singles ts (x.run (rmo (t ∷ [])) s) k
      ∙ (let first = x.outbound-rmo (t ∷ []) s k in ground (arith, first))

  -- A removal of tags that nothing dials through is safe.
  pub SafeAlong-singles :
      (P : String → String → Type 0) (ts : List String) (s : x.State)
      → Safe s
      → Only P s
      → ((k o : String) → P k o → str_eq (dial o) "" ≡ false → contains ts (dial o) ≡ false)
      → SafeAlong (singles ts) s
  unfolding contains
  SafeAlong-singles P [] s safe only free = safe
  SafeAlong-singles P (t ∷ ts) s safe only free =
      let after : (j : String)
          → x.outbound (x.run (rmo (t ∷ [])) s) j
            ≡ (if contains (t ∷ []) j then none else x.outbound s j) =
        λ j. x.outbound-rmo (t ∷ []) s j in
      let left : (k o : String)
          → x.outbound (x.run (rmo (t ∷ [])) s) k ≡ some o
          → x.outbound s k ≡ some o =
        λ k o e. (let a = after k in ground (arith, a, e)) in
      (
        safe,
        SafeAlong-singles P ts (x.run (rmo (t ∷ [])) s)
            (λ k o e named.
              (let a = after (dial o) in
                let was = left k o e in
                let there = safe k o was named in
                let apart = free k o (only k o was) named in ground (arith, a, there, apart)))
            (λ k o e. only k o (left k o e))
            (λ k o p named. (let apart = free k o p named in ground (arith, apart))),
      )

  -- An addition is safe where each object dials through nothing or through what is there.
  pub SafeAlong-add_calls :
      (objects : Dict String) (ts : List String) (s : x.State)
      → Safe s
      → ((j : String) → count (is_key j) ts ≤ 1)
      → ((j : String) → contains ts j ≡ true → x.outbound s j ≡ none)
      → ((j : String) → contains ts j ≡ true → is_some (get objects j) ≡ true)
      → ((j o : String)
          → contains ts j ≡ true
          → get objects j ≡ some o
          → str_eq (dial o) "" ≡ false
          → is_some (x.outbound s (dial o)) ≡ true)
      → SafeAlong (add_calls objects ts) s
  unfolding contains
  SafeAlong-add_calls objects [] s safe once free known fed = safe
  SafeAlong-add_calls objects (t ∷ ts) s safe once free known fed =
      elim (Option-cases (get objects t)) [
        | inl e ↦ absurd (
            let some_t : is_some (get objects t) ≡ true = known t (ground (arith, eq_iff t t)) in
            ground arith)
        | inr (o, e) ↦
            (let s1 = x.run (ado t (some o)) s in
              let after : (j : String)
                  → x.outbound s1 j ≡ (if str_eq t j then some o else x.outbound s j) =
                λ j. x.outbound-ado t o s j (free t (ground (arith, eq_iff t t))) in
              let more : (j : String)
                  → is_some (x.outbound s j) ≡ true
                  → is_some (x.outbound s1 j) ≡ true =
                λ j there. (let a = after j in ground (arith, a, there)) in
              let fresh : contains ts t ≡ false =
                contains-count ts t ∙ (let c = once t in ground (arith, eq_iff t t)) in
              rw e (
                safe,
                SafeAlong-add_calls objects ts s1
                    (λ j q there named. elim (Bool-cases (str_eq t j)) [
                      | inl hit ↦ more (dial q) (
                          let a = after j in
                          let same : some o ≡ some q = ground (arith, a, there, hit) in
                          fed t q (ground (arith, eq_iff t t)) (e ∙ same) named)
                      | inr miss ↦
                          more (dial q)
                            (safe j q (let a = after j in ground (arith, a, there, miss)) named)
                    ])
                    (λ j. (let c = once j in ground (arith, c)))
                    (λ j q.
                      (let a = after j in
                        let f = free j (ground (arith, q)) in
                        let apart : str_eq t j ≡ false = ground (arith, eq_iff t j, fresh, q) in
                        ground (arith, a, f, apart)))
                    (λ j q. known j (ground (arith, q)))
                    (λ j q has at named. more (dial q) (fed j q (ground (arith, has)) at named)),
              ))
      ]

  -- Calls on the inbounds and on the routing change no outbound.
  pub Safe-same :
      (s u : x.State) → ((k : String) → x.outbound u k ≡ x.outbound s k) → Safe s → Safe u
  Safe-same s u same safe k o e named =
      ap is_some (same (dial o)) ∙ safe k o (sym (same k) ∙ e) named

  pub SafeAlong-unless_rmi :
      (ts : List String) (s : x.State) → Safe s → SafeAlong (one_by_one (unless_none rmi ts)) s
  SafeAlong-unless_rmi [] s safe = safe
  SafeAlong-unless_rmi (t ∷ ts) s safe =
      (safe, Safe-same s (x.run (rmi (t ∷ ts)) s) (λ k. x.outbound-rmi (t ∷ ts) s k) safe)

  pub SafeAlong-unless_adi :
      (ts : List String) (s : x.State) → Safe s → SafeAlong (one_by_one (unless_none adi ts)) s
  SafeAlong-unless_adi [] s safe = safe
  SafeAlong-unless_adi (t ∷ ts) s safe =
      (safe, Safe-same s (x.run (adi (t ∷ ts)) s) (λ k. x.outbound-adi (t ∷ ts) s k) safe)

  pub SafeAlong-routing :
      (b : Bool) (rules : String) (s : x.State)
      → Safe s
      → SafeAlong (one_by_one (if b then adrules rules ∷ [] else [])) s
  SafeAlong-routing true rules s safe =
      (safe, Safe-same s (x.run (adrules rules) s) (λ k. x.outbound-adrules rules s k) safe)
  SafeAlong-routing false rules s safe = safe
