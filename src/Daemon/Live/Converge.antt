-- ===== src/Daemon/Live/Converge.antt =====
-- What applyLiveLocked of daemon/xray_live.go makes of the running outbounds.
use em_xray.Daemon.Live.Plan.{count-reversed, PlanAt, IsTagged, DialersKnown, plan_at}
use em_xray.Daemon.Live.Process.{
  XrayProcess, run_all, outbound-unless_rmo, outbound-add_calls, outbound-unless_rmi,
  run_all-append, outbound-routing, outbound-unless_adi,
}
use em_xray.Daemon.Live.Diff.{contains-count, is_key}
use em_xray.Daemon.Live.{
  LiveConfig, live_plan, reversed, dependents_first, intersect, minus, unless_none, rmo, add_calls,
  ApiCall, live_calls, rmi, adi, adrules, plan_live, needs_restart,
}
use em_xray.Prelude.{
  List, String, is_some, contains, count, Bool, get, ◌≡◌, true, ◌≤◌, ◌∷◌, arith, false,
  contains-sort, count-sort, none, [], refl, ◌∙◌, ap, Option, sym, ℕ, ltb, ◌&&◌, contains-filter,
  not, if◌then◌else◌, if_elim,
}

module _ (x : XrayProcess) (old want : LiveConfig) where
  -- The tags that the first call takes out, that the additions put in, and that the last call takes out.
  abbrev changed_tags : List String
  changed_tags =
      dependents_first (live_plan old want)
        (intersect (live_plan old want).rm_out (live_plan old want).add_out)

  abbrev added_tags : List String
  added_tags = reversed (dependents_first (live_plan old want) (live_plan old want).add_out)

  abbrev gone_tags : List String
  gone_tags =
      dependents_first (live_plan old want)
        (minus (live_plan old want).rm_out (live_plan old want).add_out)

  contains-changed :
      (k : String)
      → contains changed_tags k
        ≡ (contains (live_plan old want).rm_out k && contains (live_plan old want).add_out k)
  unfolding dependents_first
  contains-changed k = contains-sort _ _ k ∙ contains-filter _ (live_plan old want).rm_out k

  contains-gone :
      (k : String)
      → contains gone_tags k
        ≡ (contains (live_plan old want).rm_out k && not (contains (live_plan old want).add_out k))
  unfolding dependents_first
  contains-gone k = contains-sort _ _ k ∙ contains-filter _ (live_plan old want).rm_out k

  count-added :
      (k : String) → count (is_key k) added_tags ≡ count (is_key k) (live_plan old want).add_out
  unfolding dependents_first
  count-added k = count-reversed _ _ ∙ count-sort _ (is_key k) (live_plan old want).add_out

  contains-added : (k : String) → contains added_tags k ≡ contains (live_plan old want).add_out k
  contains-added k =
      contains-count added_tags k
      ∙ ap (ltb 0) (count-added k)
      ∙ sym (contains-count (live_plan old want).add_out k)

  after_changed :
      (s : x.State) (k : String)
      → x.outbound (run_all x (unless_none rmo changed_tags) s) k ≡ (
          if contains (live_plan old want).rm_out k && contains (live_plan old want).add_out k
          then none
          else x.outbound s k)
  after_changed s k =
      outbound-unless_rmo x changed_tags s k
      ∙ ap (λ b. if b then none else x.outbound s k) (contains-changed k)

  after_gone :
      (s : x.State) (k : String)
      → x.outbound (run_all x (unless_none rmo gone_tags) s) k ≡ (
          if contains (live_plan old want).rm_out k && not (contains (live_plan old want).add_out k)
          then none
          else x.outbound s k)
  after_gone s k =
      outbound-unless_rmo x gone_tags s k
      ∙ ap (λ b. if b then none else x.outbound s k) (contains-gone k)

  after_added :
      (s : x.State) (k : String)
      → ((j : String) → contains (live_plan old want).add_out j ≡ true → x.outbound s j ≡ none)
      → ((j : String) → count (is_key j) (live_plan old want).add_out ≤ 1)
      → ((j : String)
          → contains (live_plan old want).add_out j ≡ true
          → is_some (get want.outbounds j) ≡ true)
      → x.outbound (run_all x (add_calls want.outbounds added_tags) s) k
        ≡ (if contains (live_plan old want).add_out k then get want.outbounds k else x.outbound s k)
  after_added s k free once known =
      outbound-add_calls x want.outbounds added_tags s k
        (λ j. (let c = count-added j in let o = once j in omega (arith, c, o)))
        (λ j q. free j (sym (contains-added j) ∙ q)) (λ j q. known j (sym (contains-added j) ∙ q))
      ∙ ap (λ b. if b then get want.outbounds k else x.outbound s k) (contains-added k)

  abbrev inbound_calls_before : List ApiCall
  inbound_calls_before =
      unless_none rmi (intersect (live_plan old want).rm_in (live_plan old want).add_in)

  abbrev inbound_calls_after : List ApiCall
  inbound_calls_after =
      unless_none rmi (minus (live_plan old want).rm_in (live_plan old want).add_in)

  abbrev inbound_calls : List ApiCall
  inbound_calls = unless_none adi (live_plan old want).add_in

  abbrev routing_calls : List ApiCall
  routing_calls = if (live_plan old want).routing then adrules want.routing ∷ [] else []

  -- The process before the last call.
  abbrev before_gone : x.State → x.State
  before_gone s =
      run_all x inbound_calls_after
        (run_all x routing_calls (run_all x inbound_calls (run_all x inbound_calls_before s)))

  before_gone-outbound : (s : x.State) (k : String) → x.outbound (before_gone s) k ≡ x.outbound s k
  before_gone-outbound s k =
      outbound-unless_rmi x (minus (live_plan old want).rm_in (live_plan old want).add_in) _ k
      ∙ outbound-routing x (live_plan old want).routing want.routing _ k
      ∙ outbound-unless_adi x (live_plan old want).add_in _ k
      ∙ outbound-unless_rmi x (intersect (live_plan old want).rm_in (live_plan old want).add_in) s k

  run_live :
      (s : x.State)
      → run_all x (live_calls (live_plan old want) want) s
        ≡ run_all x (unless_none rmo gone_tags) (
            before_gone (
              run_all x
                (add_calls want.outbounds added_tags)
                (run_all x (unless_none rmo changed_tags) s)))
  unfolding live_calls
  run_live s =
      run_all-append x (unless_none rmo changed_tags) _ s
      ∙ run_all-append x (add_calls want.outbounds added_tags) _ _
      ∙ run_all-append x inbound_calls_before _ _
      ∙ run_all-append x inbound_calls _ _
      ∙ run_all-append x routing_calls _ _
      ∙ run_all-append x inbound_calls_after _ _

settle :
    (before after : Option String) (times : ℕ) (added removed : Bool)
    → PlanAt before after times added removed
    → (if removed && not added
        then none
        else if added
        then after
        else if removed && added
        then none
        else before)
      ≡ after
settle before after times true true h = refl
settle before after times true false h = refl
settle before after times false true h = sym (h.3 refl refl)
settle before after times false false h = h.4 refl refl

pub plan_live_live :
    (old want : LiveConfig)
    → needs_restart old want ≡ false
    → plan_live old want ≡ live_plan old want
unfolding plan_live
plan_live_live old want e = rw (e, plan_live) refl

-- If no restart is needed, the calls end with the outbounds of the new config, exactly: from a
-- process that has the old config's outbounds, on which every call succeeds. No tag has two entries, and what dials through another is an
-- outbound.
pub live_calls_converge :
    (x : XrayProcess) (old want : LiveConfig) (s : x.State)
    → IsTagged old
    → IsTagged want
    → DialersKnown want
    → needs_restart old want ≡ false
    → ((k : String) → x.outbound s k ≡ get old.outbounds k)
    → (k : String)
    → x.outbound (run_all x (live_calls (plan_live old want) want) s) k ≡ get want.outbounds k
live_calls_converge x old want s ho hw known live start k =
    let at : (j : String) → _ = λ j. plan_at old want j ho hw known in
    let s1 = run_all x (unless_none rmo (changed_tags x old want)) s in
    let first : (j : String)
        → x.outbound s1 j ≡ (
            if contains (live_plan old want).rm_out j && contains (live_plan old want).add_out j
            then none
            else get old.outbounds j) =
      λ j.
        after_changed x old want s j
        ∙ ap
            (λ o.
              if contains (live_plan old want).rm_out j && contains (live_plan old want).add_out j
              then none
              else o)
            (start j) in
    let second =
      after_added x old want s1 k
        (λ j q.
          first j
          ∙ if_elim (λ (o : Option String). o ≡ none)
              (contains (live_plan old want).rm_out j && contains (live_plan old want).add_out j)
              (λ yes. refl) (λ no. (at j).2 q (ground arith)))
        (λ j. (at j).0) (λ j. (at j).1) in
    ap (λ p. x.outbound (run_all x (live_calls p want) s) k) (plan_live_live old want live)
    ∙ ap (λ u. x.outbound u k) (run_live x old want s)
    ∙ after_gone x old want _ k
    ∙ ap
        (λ o.
          if contains (live_plan old want).rm_out k && not (contains (live_plan old want).add_out k)
          then none
          else o)
        (before_gone-outbound x old want _ k
          ∙ second
          ∙ ap (λ o. if contains (live_plan old want).add_out k then get want.outbounds k else o)
              (first k))
    ∙ settle (get old.outbounds k) (get want.outbounds k) _ _ _ (at k)
