-- ===== src/Daemon/Live/NoLeak/Whole.antt =====
-- The whole sequence of applyLiveLocked of daemon/xray_live.go.
use em_xray.Daemon.Live.NoLeak.Join.{
  removal, same_rmi, join_two, same_routing, additions, same_adi, join,
}
use em_xray.Daemon.Live.Converge.{plan_live_live}
use em_xray.Daemon.Live.Plan.{plan_at}
use em_xray.Daemon.Live.NoLeak.Facts.{IsClosed, AreLinked, old_dep}
use em_xray.Daemon.Live.NoLeak.Along.{
  added, gone_dep, gone_plain, after_added, in_gone_plain, in_gone_dep, dialed_plain, add_dep,
  rm_dep, with_plain, rm_plain, along_add_dep, along_rm_dep, along_rm_plain, add_plain, removed,
  along_add_plain,
}
use em_xray.Daemon.Live.{
  add_calls, LivePlan, unless_none, reversed, rmo, dependents_first, ApiCall, LiveConfig, rmi, adi,
  adrules, live_plan, minus, intersect, live_calls, needs_restart, plan_live,
}
use em_xray.Daemon.Live.NoLeak.{
  one_by_one, singles, XrayProcess, run_all, SafeAlong, Safe, SafeAlong-singles, SafeAlong-append,
  SafeAlong-end, outbound-singles, SafeAlong-unless_rmi, SafeAlong-unless_adi, SafeAlong-routing,
}
use mathlib.Core.Path.{subst}
use em_xray.Prelude.{
  List, [], ◌∷◌, String, ◌≡◌, ◌++◌, get, ◌∙◌, if◌then◌else◌, true, some, false, contains, str_eq,
  sym, none, arith, Bool-cases, inl, inr,
}

module _ (x : XrayProcess) (dial : String → String) (old want : LiveConfig) (ho : IsClosed dial old)
    (hw : IsClosed dial want) (linked : AreLinked dial old want) where
  -- What is left before the last plain removal dials through none of its tags.
  last_dialer :
      (s : x.State) (k o : String)
      → ((j : String) → x.outbound s j ≡ get old.outbounds j)
      → x.outbound (added x dial old want ho hw linked s) k ≡ some o
      → contains (gone_dep x dial old want ho hw linked) k ≡ false
      → str_eq (dial o) "" ≡ false
      → contains (gone_plain x dial old want ho hw linked) (dial o) ≡ true
      → ⊥
  last_dialer s k o start e kept named q =
      let a = after_added x dial old want ho hw linked s k start in
      let b = in_gone_plain x dial old want ho hw linked (dial o) in
      let c = in_gone_dep x dial old want ho hw linked k in
      let facts = plan_at old want (dial o) ho.tagged hw.tagged hw.dialers in
      let mine = plan_at old want k ho.tagged hw.tagged hw.dialers in
      let gone : get want.outbounds (dial o) ≡ none =
        facts.3 (ground (arith, b, q)) (ground (arith, b, q)) in
      let wanted : get want.outbounds k ≡ some o → ⊥ =
        λ w. (let there = hw.closed k o w named in ground (arith, there, gone)) in
      elim (Bool-cases (contains (live_plan old want).add_out k)) [
        | inl y ↦ wanted (ground (arith, a, e, y))
        | inr n ↦ elim (Bool-cases (contains (live_plan old want).rm_out k)) [
          | inl y ↦
              (let d = old_dep dial old want ho hw linked k o (ground (arith, a, e, n)) named in
                ground (arith, c, d, kept, n, y))
          | inr m ↦ wanted (sym (mine.4 n m) ∙ ground (arith, a, e, n))
        ]
      ]

  -- The last removal, on a process that has the outbounds as they are after the additions.
  along_gone :
      (s u : x.State)
      → ((j : String) → x.outbound s j ≡ get old.outbounds j)
      → ((j : String) → x.outbound u j ≡ x.outbound (added x dial old want ho hw linked s) j)
      → Safe x dial u
      → SafeAlong x dial
          (singles (gone_dep x dial old want ho hw linked)
            ++ singles (gone_plain x dial old want ho hw linked))
          u
  along_gone s u start same safe =
      let deps = gone_dep x dial old want ho hw linked in
      let plains = gone_plain x dial old want ho hw linked in
      let first : SafeAlong x dial (singles deps) u =
        SafeAlong-singles x dial (λ k o. x.outbound u k ≡ some o) deps u safe (λ k o e. e)
          (λ k o e named.
            (let a = in_gone_dep x dial old want ho hw linked (dial o) in
              let b =
                dialed_plain x dial old want ho hw linked s k o start (sym (same k) ∙ e) named in
              ground (arith, a, b))) in
      SafeAlong-append x dial (singles deps) (singles plains) u first (
        SafeAlong-singles x dial (λ k o. (x.outbound u k ≡ some o) × (contains deps k ≡ false))
          plains (run_all x (singles deps) u) (SafeAlong-end x dial (singles deps) u first)
          (λ k o e.
            (let a = outbound-singles x dial deps u k in
              (ground (arith, a, e), ground (arith, a, e))))
          (λ k o h named. elim (Bool-cases (contains plains (dial o))) [
            | inr q ↦ q
            | inl q ↦ absurd (last_dialer s k o start (sym (same k) ∙ h.0) h.1 named q)
          ]))

  along_tail :
      (s u : x.State)
      → ((j : String) → x.outbound s j ≡ get old.outbounds j)
      → ((j : String) → x.outbound u j ≡ x.outbound (added x dial old want ho hw linked s) j)
      → Safe x dial u
      → SafeAlong x dial
          (one_by_one (
            unless_none rmo (
              dependents_first
                (live_plan old want)
                (minus (live_plan old want).rm_out (live_plan old want).add_out))))
          u
  along_tail s u start same safe =
      subst (λ (l : List ApiCall). SafeAlong x dial l u)
        (sym (
          removal (live_plan old want)
            (minus (live_plan old want).rm_out (live_plan old want).add_out)))
        (along_gone s u start same safe)

  -- The calls between the additions and the last removal.
  along_middle :
      (s : x.State)
      → ((j : String) → x.outbound s j ≡ get old.outbounds j)
      → SafeAlong x dial
          (one_by_one (
            unless_none rmi (intersect (live_plan old want).rm_in (live_plan old want).add_in)
            ++ (unless_none adi (live_plan old want).add_in
                ++ ((if (live_plan old want).routing then adrules want.routing ∷ [] else [])
                    ++ (unless_none rmi
                          (minus (live_plan old want).rm_in (live_plan old want).add_in)
                        ++ unless_none rmo (
                            dependents_first
                              (live_plan old want)
                              (minus (live_plan old want).rm_out (live_plan old want).add_out)))))))
          (added x dial old want ho hw linked s)
  along_middle s start =
      let p = live_plan old want in
      let s3 = added x dial old want ho hw linked s in
      let c = unless_none rmi (intersect p.rm_in p.add_in) in
      let d = unless_none adi p.add_in in
      let e : List ApiCall = if p.routing then adrules want.routing ∷ [] else [] in
      let f = unless_none rmi (minus p.rm_in p.add_in) in
      let s4 = run_all x (one_by_one c) s3 in
      let s5 = run_all x (one_by_one d) s4 in
      let s6 = run_all x (one_by_one e) s5 in
      let s7 = run_all x (one_by_one f) s6 in
      let safe3 =
        SafeAlong-end x dial (add_calls want.outbounds (add_dep x dial old want ho hw linked))
          (with_plain x dial old want ho hw linked s)
          (along_add_dep x dial old want ho hw linked s start) in
      let along_c = SafeAlong-unless_rmi x dial (intersect p.rm_in p.add_in) s3 safe3 in
      let safe4 = SafeAlong-end x dial (one_by_one c) s3 along_c in
      let along_d = SafeAlong-unless_adi x dial p.add_in s4 safe4 in
      let safe5 = SafeAlong-end x dial (one_by_one d) s4 along_d in
      let along_e = SafeAlong-routing x dial p.routing want.routing s5 safe5 in
      let safe6 = SafeAlong-end x dial (one_by_one e) s5 along_e in
      let along_f = SafeAlong-unless_rmi x dial (minus p.rm_in p.add_in) s6 safe6 in
      let safe7 = SafeAlong-end x dial (one_by_one f) s6 along_f in
      let same : (j : String) → x.outbound s7 j ≡ x.outbound s3 j = λ j.
        same_rmi x dial (minus p.rm_in p.add_in) s6 j
        ∙ same_routing x dial p.routing want.routing s5 j
        ∙ same_adi x dial p.add_in s4 j
        ∙ same_rmi x dial (intersect p.rm_in p.add_in) s3 j in
      join x dial c _ s3 along_c (
        join x dial d _ s4 along_d (
          join x dial e _ s5 along_e
            (join x dial f _ s6 along_f (along_tail s s7 start same safe7))))

  along_live :
      (s : x.State)
      → ((j : String) → x.outbound s j ≡ get old.outbounds j)
      → SafeAlong x dial (one_by_one (live_calls (live_plan old want) want)) s
  unfolding live_calls
  along_live s start =
      let p = live_plan old want in
      join_two x dial (unless_none rmo (dependents_first p (intersect p.rm_out p.add_out)))
        (singles (rm_dep x dial old want ho hw linked))
        (singles (rm_plain x dial old want ho hw linked)) _ s
        (removal p (intersect p.rm_out p.add_out))
        (along_rm_dep x dial old want ho hw linked s start)
        (along_rm_plain x dial old want ho hw linked s start)
        (join_two x dial (add_calls want.outbounds (reversed (dependents_first p p.add_out)))
          (add_calls want.outbounds (add_plain x dial old want ho hw linked))
          (add_calls want.outbounds (add_dep x dial old want ho hw linked)) _
          (removed x dial old want ho hw linked s) (additions p want.outbounds p.add_out)
          (along_add_plain x dial old want ho hw linked s start)
          (along_add_dep x dial old want ho hw linked s start) (along_middle s start))

-- While the calls run no outbound is there whose dialer is not: before and after each call, and between
-- the tags of one removal. The running process has the old config's outbounds, every call succeeds, and
-- no restart is needed. Of both configs: what is dialed through is an outbound, and dials through nothing
-- in either config; the map of dialers is what the outbounds say; and no tag has two entries. A dialer
-- that stays keeps the masters that it has.
pub live_calls-Safe :
    (x : XrayProcess) (dial : String → String) (old want : LiveConfig) (s : x.State)
    → IsClosed dial old
    → IsClosed dial want
    → AreLinked dial old want
    → needs_restart old want ≡ false
    → ((j : String) → x.outbound s j ≡ get old.outbounds j)
    → SafeAlong x dial (one_by_one (live_calls (plan_live old want) want)) s
live_calls-Safe x dial old want s ho hw linked live start =
    subst (λ (p : LivePlan). SafeAlong x dial (one_by_one (live_calls p want)) s)
      (sym (plan_live_live old want live)) (along_live x dial old want ho hw linked s start)
