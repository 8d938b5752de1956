-- ===== src/Daemon/Live/Masters.antt =====
-- The masters whose dialer goes, in planLive of daemon/xray_live.go.
use em_xray.Daemon.Live.Diff.{changed, contains-diff_tagged}
use em_xray.Daemon.Live.Converge.{plan_live_live}
use em_xray.Daemon.Live.Plan.{IsTagged, contains-rm_out, contains-add_out}
use em_xray.Daemon.Live.{
  moved_masters, LiveConfig, needs_restart, plan_live, diff_tagged, moved_of, live_plan,
}
use em_xray.Prelude.{
  List, [], ◌∷◌, String, some, true, false, get, contains, Dict, ◌≡◌, str_eq, is_some, arith,
  Bool-cases, inl, eq_iff, ap, ◌∙◌, inr, Bool, Option, ◌||◌,
}

moved_masters-contains :
    (gone : List String) (outbounds want : Dict String) (k d : String)
    → get want k ≡ some d
    → str_eq d "" ≡ false
    → contains gone d ≡ true
    → contains gone k ≡ false
    → is_some (get outbounds k) ≡ true
    → contains (moved_masters gone outbounds want) k ≡ true
unfolding moved_masters get contains
moved_masters-contains gone outbounds [] k d at named dialer stays there = absurd (ground arith)
moved_masters-contains gone outbounds ((j, e) ∷ want) k d at named dialer stays there =
    elim (Bool-cases (str_eq j k)) [
      | inl q ↦
          (let same : j ≡ k = (eq_iff j k).0 q in
            let dialed : e ≡ d = ground arith in
            let named_e : str_eq e "" ≡ false = ap (λ t. str_eq t "") dialed ∙ named in
            let gone_e : contains gone e ≡ true = ap (contains gone) dialed ∙ dialer in
            let stays_j : contains gone j ≡ false = ap (contains gone) same ∙ stays in
            let there_j : is_some (get outbounds j) ≡ true =
              ap (λ t. is_some (get outbounds t)) same ∙ there in
            ground arith)
      | inr q ↦
          (let rest : contains (moved_masters gone outbounds want) k ≡ true =
              moved_masters-contains gone outbounds want k d (ground arith) named dialer stays
                there in
            ground arith)
    ]

moved_or_changed :
    (b : Bool) (before after : Option String) (o w : String) (moved : Bool)
    → before ≡ some o
    → after ≡ some w
    → b ≡ changed before after
    → (b ≡ false → moved ≡ true)
    → ((changed before after || moved) ≡ true) × ((changed after before || moved) ≡ true)
moved_or_changed b before after o w moved hb ha hd hm =
    let e1 = eq_iff o w in let e2 = eq_iff w o in (ground arith, ground arith)

pub live_plan-moves_masters :
    (old want : LiveConfig) (k d o w : String)
    → IsTagged old
    → IsTagged want
    → get want.dialer_of k ≡ some d
    → str_eq d "" ≡ false
    → changed (get old.outbounds d) (get want.outbounds d) ≡ true
    → get old.outbounds k ≡ some o
    → get want.outbounds k ≡ some w
    → (contains (live_plan old want).rm_out k ≡ true)
      × (contains (live_plan old want).add_out k ≡ true)
live_plan-moves_masters old want k d o w ho hw at named replaced there here =
    let gone = (diff_tagged old.outbounds want.outbounds).0 in
    let both =
      moved_or_changed (contains gone k) (get old.outbounds k) (get want.outbounds k) o w
        (contains (moved_of old want) k) there here
        (contains-diff_tagged old.outbounds want.outbounds k ho.0 hw.0).0
        (λ stays.
          moved_masters-contains gone old.outbounds want.dialer_of k d at named
            ((contains-diff_tagged old.outbounds want.outbounds d ho.0 hw.0).0 ∙ replaced) stays
            (ground arith)) in
    (contains-rm_out old want k ho ∙ both.0, contains-add_out old want k hw ∙ both.1)

-- A master goes with its dialer: if no restart is needed and the outbound that a master of the new
-- config dials through is gone or another object, then the master is taken out with it, if it is
-- running, and put in again, if the new config still has it. No tag has two entries.
pub plan_live-moves_masters :
    (old want : LiveConfig) (k d o w : String)
    → IsTagged old
    → IsTagged want
    → needs_restart old want ≡ false
    → get want.dialer_of k ≡ some d
    → str_eq d "" ≡ false
    → changed (get old.outbounds d) (get want.outbounds d) ≡ true
    → get old.outbounds k ≡ some o
    → get want.outbounds k ≡ some w
    → (contains (plan_live old want).rm_out k ≡ true)
      × (contains (plan_live old want).add_out k ≡ true)
plan_live-moves_masters old want k d o w ho hw live at named replaced there here =
    let both = live_plan-moves_masters old want k d o w ho hw at named replaced there here in
    (
      ap (λ p. contains p.rm_out k) (plan_live_live old want live) ∙ both.0,
      ap (λ p. contains p.add_out k) (plan_live_live old want live) ∙ both.1,
    )
