-- ===== src/Daemon/Live/NoLeak/Along.antt =====
-- That applyLiveLocked of daemon/xray_live.go never leaves an outbound whose dialer is missing.
use em_xray.Daemon.Live.Plan.{count-reversed}
use mathlib.Core.List.{append-nil}
use em_xray.Daemon.Live.NoLeak.{
  Safe, SafeAlong, append_assoc, singles, SafeAlong-singles, outbound-singles, SafeAlong-end,
  is_key, SafeAlong-add_calls, contains-count,
}
use em_xray.Daemon.Live.NoLeak.Facts.{
  IsClosed, AreLinked, old_dialed, old_dep, rides, at, want_dep, want_dialed,
}
use em_xray.Daemon.Live.Process.{XrayProcess, run_all, outbound-add_calls}
use em_xray.Daemon.Live.{
  reversed, LiveConfig, LivePlan, is_dependent, live_plan, intersect, minus, add_calls,
}
use em_xray.Prelude.{
  List, [], ◌∷◌, String, some, none, true, false, Bool, ◌++◌, ◌≡◌, ap, ◌∙◌, not, filter, contains,
  get, ◌&&◌, contains-filter, is_some, if◌then◌else◌, sym, arith, count, ◌≤◌, ltb, Bool-cases,
  str_eq, inl, inr,
}

pub reversed-append : (xs ys : List String) → reversed (xs ++ ys) ≡ reversed ys ++ reversed xs
unfolding reversed
reversed-append [] ys = sym (append-nil (reversed ys))
reversed-append (x ∷ xs) ys =
    ap (λ r. r ++ (x ∷ [])) (reversed-append xs ys)
    ∙ append_assoc (reversed ys) (reversed xs) (x ∷ [])

contains-reversed : (xs : List String) (k : String) → contains (reversed xs) k ≡ contains xs k
contains-reversed xs k =
    contains-count (reversed xs) k
    ∙ ap (ltb 0) (count-reversed (is_key k) xs)
    ∙ sym (contains-count xs k)

count-filter-le : (q f : String → Bool) (xs : List String) → count q (filter f xs) ≤ count q xs
count-filter-le q f [] = omega arith
count-filter-le q f (y ∷ ys) = ground (arith, count-filter-le q f ys)

module _ (x : XrayProcess) (dial : String → String) (old want : LiveConfig) (ho : IsClosed dial old)
    (hw : IsClosed dial want) (linked : AreLinked dial old want) where
  abbrev pub p : LivePlan
  p = live_plan old want

  abbrev pub is_dep : String → Bool
  is_dep = is_dependent p

  abbrev pub is_plain : String → Bool
  is_plain t = not (is_dependent p t)

  -- The tags of the removals and of the additions, in their order: first the dependents that change,
  -- then the plain tags that change, the plain additions, the dependents, and what is gone.
  abbrev pub rm_dep : List String
  rm_dep = filter is_dep (intersect p.rm_out p.add_out)

  abbrev pub rm_plain : List String
  rm_plain = filter is_plain (intersect p.rm_out p.add_out)

  abbrev pub add_plain : List String
  add_plain = reversed (filter is_plain p.add_out)

  abbrev pub add_dep : List String
  add_dep = reversed (filter is_dep p.add_out)

  abbrev pub gone_dep : List String
  gone_dep = filter is_dep (minus p.rm_out p.add_out)

  abbrev pub gone_plain : List String
  gone_plain = filter is_plain (minus p.rm_out p.add_out)

  in_rm_dep :
      (k : String) → contains rm_dep k ≡ ((contains p.rm_out k && contains p.add_out k) && is_dep k)
  in_rm_dep k =
      contains-filter is_dep (intersect p.rm_out p.add_out) k
      ∙ ap (λ b. b && is_dep k) (contains-filter (contains p.add_out) p.rm_out k)

  in_rm_plain :
      (k : String)
      → contains rm_plain k ≡ ((contains p.rm_out k && contains p.add_out k) && is_plain k)
  in_rm_plain k =
      contains-filter is_plain (intersect p.rm_out p.add_out) k
      ∙ ap (λ b. b && is_plain k) (contains-filter (contains p.add_out) p.rm_out k)

  in_add_plain : (k : String) → contains add_plain k ≡ (contains p.add_out k && is_plain k)
  in_add_plain k =
      contains-reversed (filter is_plain p.add_out) k ∙ contains-filter is_plain p.add_out k

  in_add_dep : (k : String) → contains add_dep k ≡ (contains p.add_out k && is_dep k)
  in_add_dep k = contains-reversed (filter is_dep p.add_out) k ∙ contains-filter is_dep p.add_out k

  pub in_gone_dep :
      (k : String)
      → contains gone_dep k ≡ ((contains p.rm_out k && not (contains p.add_out k)) && is_dep k)
  in_gone_dep k =
      contains-filter is_dep (minus p.rm_out p.add_out) k
      ∙ ap (λ b. b && is_dep k) (contains-filter (λ t. not (contains p.add_out t)) p.rm_out k)

  pub in_gone_plain :
      (k : String)
      → contains gone_plain k ≡ ((contains p.rm_out k && not (contains p.add_out k)) && is_plain k)
  in_gone_plain k =
      contains-filter is_plain (minus p.rm_out p.add_out) k
      ∙ ap (λ b. b && is_plain k) (contains-filter (λ t. not (contains p.add_out t)) p.rm_out k)

  -- Both changed removals together.
  after_rm :
      (s : x.State) (k : String)
      → ((j : String) → x.outbound s j ≡ get old.outbounds j)
      → x.outbound (run_all x (singles rm_plain) (run_all x (singles rm_dep) s)) k
        ≡ (if contains p.rm_out k && contains p.add_out k then none else get old.outbounds k)
  after_rm s k start =
      let a = outbound-singles x dial rm_plain (run_all x (singles rm_dep) s) k in
      let b = outbound-singles x dial rm_dep s k in
      let c = in_rm_dep k in
      let d = in_rm_plain k in let e = start k in ground (arith, a, b, c, d, e)

  pub Safe-start :
      (s : x.State) → ((j : String) → x.outbound s j ≡ get old.outbounds j) → Safe x dial s
  Safe-start s start k o e named =
      ap is_some (start (dial o)) ∙ ho.closed k o (sym (start k) ∙ e) named

  pub along_rm_dep :
      (s : x.State)
      → ((j : String) → x.outbound s j ≡ get old.outbounds j)
      → SafeAlong x dial (singles rm_dep) s
  along_rm_dep s start =
      SafeAlong-singles x dial (λ k o. get old.outbounds k ≡ some o) rm_dep s (Safe-start s start)
        (λ k o e. sym (start k) ∙ e)
        (λ k o e named.
          (let a = in_rm_dep (dial o) in
            let b = old_dialed dial old want ho hw linked k o e named in ground (arith, a, b)))

  pub along_rm_plain :
      (s : x.State)
      → ((j : String) → x.outbound s j ≡ get old.outbounds j)
      → SafeAlong x dial (singles rm_plain) (run_all x (singles rm_dep) s)
  along_rm_plain s start =
      SafeAlong-singles x dial (λ k o. (get old.outbounds k ≡ some o) × (contains rm_dep k ≡ false))
        rm_plain (run_all x (singles rm_dep) s)
        (SafeAlong-end x dial (singles rm_dep) s (along_rm_dep s start))
        (λ k o e.
          (let a = outbound-singles x dial rm_dep s k in
            let b = start k in (ground (arith, a, b, e), ground (arith, a, e))))
        (λ k o h named.
          (let a = in_rm_plain (dial o) in
            let b = in_rm_dep k in
            let c = old_dep dial old want ho hw linked k o h.0 named in
            let d = rides dial old want ho hw linked k o h.0 named in
            let e = h.1 in ground (arith, a, b, c, d, e)))

  -- The process after the changed removals, and after the plain additions.
  abbrev pub removed : x.State → x.State
  removed s = run_all x (singles rm_plain) (run_all x (singles rm_dep) s)

  abbrev pub with_plain : x.State → x.State
  with_plain s = run_all x (add_calls want.outbounds add_plain) (removed s)

  once_plain : (k : String) → count (is_key k) add_plain ≤ 1
  once_plain k =
      let a = count-reversed (is_key k) (filter is_plain p.add_out) in
      let b = count-filter-le (is_key k) is_plain p.add_out in
      let c = (at dial old want ho hw linked k).0 in omega (arith, a, b, c)

  once_dep : (k : String) → count (is_key k) add_dep ≤ 1
  once_dep k =
      let a = count-reversed (is_key k) (filter is_dep p.add_out) in
      let b = count-filter-le (is_key k) is_dep p.add_out in
      let c = (at dial old want ho hw linked k).0 in omega (arith, a, b, c)

  free_removed :
      (s : x.State) (k : String)
      → ((j : String) → x.outbound s j ≡ get old.outbounds j)
      → contains p.add_out k ≡ true
      → x.outbound (removed s) k ≡ none
  free_removed s k start added =
      let a = after_rm s k start in
      let b = (at dial old want ho hw linked k).2 added in ground (arith, a, b, added)

  pub along_add_plain :
      (s : x.State)
      → ((j : String) → x.outbound s j ≡ get old.outbounds j)
      → SafeAlong x dial (add_calls want.outbounds add_plain) (removed s)
  along_add_plain s start =
      SafeAlong-add_calls x dial want.outbounds add_plain (removed s)
        (SafeAlong-end x dial (singles rm_plain) (run_all x (singles rm_dep) s)
          (along_rm_plain s start))
        once_plain
        (λ j q. (let a = in_add_plain j in free_removed s j start (ground (arith, a, q))))
        (λ j q.
          (let a = in_add_plain j in (at dial old want ho hw linked j).1 (ground (arith, a, q))))
        (λ j o q e named. absurd (
          let a = in_add_plain j in
          let b = want_dep dial old want ho hw linked j o e named in ground (arith, a, b, q)))

  after_plain :
      (s : x.State) (k : String)
      → ((j : String) → x.outbound s j ≡ get old.outbounds j)
      → x.outbound (with_plain s) k
        ≡ (if contains add_plain k then get want.outbounds k else x.outbound (removed s) k)
  after_plain s k start =
      outbound-add_calls x want.outbounds add_plain (removed s) k once_plain
        (λ j q. (let a = in_add_plain j in free_removed s j start (ground (arith, a, q))))
        (λ j q.
          (let a = in_add_plain j in (at dial old want ho hw linked j).1 (ground (arith, a, q))))

  -- After the plain additions each plain outbound of the new config is there.
  plain_there :
      (s : x.State) (k : String)
      → ((j : String) → x.outbound s j ≡ get old.outbounds j)
      → is_dep k ≡ false
      → is_some (get want.outbounds k) ≡ true
      → is_some (x.outbound (with_plain s) k) ≡ true
  plain_there s k start is_p there =
      let a = after_plain s k start in
      let b = in_add_plain k in
      let c = after_rm s k start in
      let d = (at dial old want ho hw linked k).3 in
      let e = (at dial old want ho hw linked k).4 in
      elim (Bool-cases (contains p.add_out k)) [
        | inl q ↦ ground (arith, a, b, is_p, there, q)
        | inr q ↦ elim (Bool-cases (contains p.rm_out k)) [
          | inl r ↦ absurd (let gone = d q r in ground (arith, gone, there))
          | inr r ↦ (let same = e q r in ground (arith, a, b, c, same, there, q, r))
        ]
      ]

  free_plain :
      (s : x.State) (k : String)
      → ((j : String) → x.outbound s j ≡ get old.outbounds j)
      → contains add_dep k ≡ true
      → x.outbound (with_plain s) k ≡ none
  free_plain s k start q =
      let a = in_add_dep k in
      let b = in_add_plain k in
      let c = after_plain s k start in
      let d = free_removed s k start (ground (arith, a, q)) in ground (arith, a, b, c, d, q)

  known_dep : (k : String) → contains add_dep k ≡ true → is_some (get want.outbounds k) ≡ true
  known_dep k q = let a = in_add_dep k in (at dial old want ho hw linked k).1 (ground (arith, a, q))

  pub along_add_dep :
      (s : x.State)
      → ((j : String) → x.outbound s j ≡ get old.outbounds j)
      → SafeAlong x dial (add_calls want.outbounds add_dep) (with_plain s)
  along_add_dep s start =
      SafeAlong-add_calls x dial want.outbounds add_dep (with_plain s)
        (SafeAlong-end x dial (add_calls want.outbounds add_plain) (removed s)
          (along_add_plain s start))
        once_dep (λ j q. free_plain s j start q) known_dep
        (λ j o q e named.
          plain_there s (dial o) start (want_dialed dial old want ho hw linked j o e named)
            (hw.closed j o e named))

  abbrev pub added : x.State → x.State
  added s = run_all x (add_calls want.outbounds add_dep) (with_plain s)

  -- What is there after the additions.
  pub after_added :
      (s : x.State) (k : String)
      → ((j : String) → x.outbound s j ≡ get old.outbounds j)
      → x.outbound (added s) k
        ≡ (if contains p.add_out k then get want.outbounds k else get old.outbounds k)
  after_added s k start =
      let a =
        outbound-add_calls x want.outbounds add_dep (with_plain s) k once_dep
          (λ j q. free_plain s j start q) known_dep in
      let b = after_plain s k start in
      let c = after_rm s k start in
      let d = in_add_dep k in let e = in_add_plain k in ground (arith, a, b, c, d, e)

  -- What is there is the new config's or the old one's, and dials through a plain tag.
  pub dialed_plain :
      (s : x.State) (k o : String)
      → ((j : String) → x.outbound s j ≡ get old.outbounds j)
      → x.outbound (added s) k ≡ some o
      → str_eq (dial o) "" ≡ false
      → is_dep (dial o) ≡ false
  dialed_plain s k o start e named =
      let a = after_added s k start in
      elim (Bool-cases (contains p.add_out k)) [
        | inl q ↦ want_dialed dial old want ho hw linked k o (ground (arith, a, e, q)) named
        | inr q ↦ old_dialed dial old want ho hw linked k o (ground (arith, a, e, q)) named
      ]
