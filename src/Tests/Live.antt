-- ===== src/Tests/Live.antt =====
-- Runs of the live apply of daemon/xray_live.go.
use mathlib.Core.Path.{subst}
use em_xray.Daemon.Live.NoLeak.Whole.{live_calls-Safe}
use em_xray.Daemon.Live.NoLeak.{SafeAlong, one_by_one}
use em_xray.Daemon.Live.NoLeak.Merge.{names}
use em_xray.Daemon.Live.NoLeak.Facts.{IsClosed, AreLinked}
use em_xray.Daemon.Live.Masters.{plan_live-moves_masters}
use em_xray.Daemon.Live.Diff.{changed}
use em_xray.Daemon.Live.Converge.{live_calls_converge}
use em_xray.Daemon.Live.Plan.{DialersKnown, IsTagged}
use em_xray.Daemon.Live.Process.{XrayProcess, run_all}
use em_xray.Prelude.{
  List, [], ◌∷◌, String, some, none, true, false, get, delete, put, contains, Dict, IsKeyed, ◌≡◌,
  is_some, if◌then◌else◌, get-put, arith, refl, get-delete, holds, sort, insert, str_le, str_eq,
  Bool-cases, ◌||◌, inl, eq_iff, inr,
}
use em_xray.Daemon.Live.{
  rmo, ado, rmi, adi, adrules, ApiCall, LiveConfig, needs_restart, live_calls, dependents_first,
  diff_tagged, plan_live, accepts, revokes, live_plan, any_revoked, is_dependent, diff_keys,
  differs, merge_dialers, moved_masters, text_at, reversed,
}

abbrev delete_all : List String → Dict String → Dict String
delete_all [] s = s
delete_all (t ∷ ts) s = delete_all ts (delete s t)

abbrev run_call : ApiCall → Dict String → Dict String
run_call (rmo ts) s = delete_all ts s
run_call (ado t none) s = s
run_call (ado t (some o)) s = put s t o
run_call (rmi ts) s = s
run_call (adi ts) s = s
run_call (adrules r) s = s

get-delete_all :
    (ts : List String) (s : Dict String) (k : String)
    → get (delete_all ts s) k ≡ (if contains ts k then none else get s k)
unfolding contains
get-delete_all [] s k = refl
get-delete_all (t ∷ ts) s k = ground (arith, get-delete_all ts (delete s t) k, get-delete s t k)

abbrev dict_process : XrayProcess
dict_process = record {
  State = Dict String;
  run = run_call;
  outbound = get;
  outbound-rmo = get-delete_all;
  outbound-ado = λ t o s k free. get-put s t k o;
  outbound-rmi = λ ts s k. refl;
  outbound-adi = λ ts s k. refl;
  outbound-adrules = λ r s k. refl;
}

-- The master m dials through d, which changes; x goes and y comes.
abbrev old_config : LiveConfig
old_config = record {
  fixed = "f";
  inbounds = ("in", "I") ∷ [];
  outbounds = ("block", "B") ∷ ("m", "M") ∷ ("d", "D1") ∷ ("x", "X") ∷ [];
  dialer_of = ("block", "") ∷ ("m", "d") ∷ ("d", "") ∷ ("x", "") ∷ [];
  creds = ("in", ("alice", true) ∷ []) ∷ [];
  first_out = "block";
  routing = "R";
}

abbrev new_config : LiveConfig
new_config = record {
  fixed = "f";
  inbounds = ("in", "I2") ∷ [];
  outbounds = ("block", "B") ∷ ("m", "M") ∷ ("d", "D2") ∷ ("y", "Y") ∷ [];
  dialer_of = ("block", "") ∷ ("m", "d") ∷ ("d", "") ∷ ("y", "") ∷ [];
  creds = ("in", ("alice", true) ∷ ("bob", true) ∷ []) ∷ [];
  first_out = "block";
  routing = "R";
}

old_config-IsTagged : IsTagged old_config
unfolding IsKeyed get
old_config-IsTagged = ((refl, (refl, (refl, (refl, tt)))), (refl, (refl, (refl, (refl, tt)))))

new_config-IsTagged : IsTagged new_config
unfolding IsKeyed get
new_config-IsTagged = ((refl, (refl, (refl, (refl, tt)))), (refl, (refl, (refl, (refl, tt)))))

new_config-DialersKnown : DialersKnown new_config
unfolding get
new_config-DialersKnown k h = ground arith

new_config-live : needs_restart old_config new_config ≡ false
unfolding needs_restart revokes any_revoked accepts get holds
new_config-live = refl

old_config-revoked : needs_restart new_config old_config ≡ true
unfolding needs_restart revokes any_revoked accepts get holds
old_config-revoked = refl

live_calls_run :
    live_calls (plan_live old_config new_config) new_config
    ≡ rmo ("m" ∷ "d" ∷ [])
      ∷ ado "y" (some "Y")
      ∷ ado "d" (some "D2")
      ∷ ado "m" (some "M")
      ∷ rmi ("in" ∷ [])
      ∷ adi ("in" ∷ [])
      ∷ rmo ("x" ∷ [])
      ∷ []
unfolding live_calls plan_live live_plan needs_restart revokes any_revoked accepts get holds
    diff_tagged diff_keys differs sort insert str_le merge_dialers moved_masters put
    dependents_first is_dependent text_at reversed contains
live_calls_run = refl

live_calls_converge_example :
    get
      (run_all dict_process
        (live_calls (plan_live old_config new_config) new_config)
        old_config.outbounds)
      "m"
    ≡ get new_config.outbounds "m"
live_calls_converge_example =
    live_calls_converge dict_process old_config new_config old_config.outbounds old_config-IsTagged
      new_config-IsTagged new_config-DialersKnown new_config-live (λ k. refl) "m"

m-dials : get new_config.dialer_of "m" ≡ some "d"
unfolding get
m-dials = refl

d-changed : changed (get old_config.outbounds "d") (get new_config.outbounds "d") ≡ true
unfolding get
d-changed = refl

m-before : get old_config.outbounds "m" ≡ some "M"
unfolding get
m-before = refl

m-after : get new_config.outbounds "m" ≡ some "M"
unfolding get
m-after = refl

plan_live-moves_masters_example :
    (contains (plan_live old_config new_config).rm_out "m" ≡ true)
    × (contains (plan_live old_config new_config).add_out "m" ≡ true)
plan_live-moves_masters_example =
    plan_live-moves_masters old_config new_config "m" "d" "M" "M" old_config-IsTagged
      new_config-IsTagged new_config-live m-dials refl d-changed m-before m-after

-- The object M dials through d.
abbrev dial_of : String → String
dial_of o = if str_eq o "M" then "d" else ""

abbrev AllEntries : (String → String → Type 0) → Dict String → Type 0
AllEntries P [] = Unit
AllEntries P ((j, v) ∷ d) = P j v × AllEntries P d

AllEntries-get :
    (P : String → String → Type 0) (d : Dict String) (k o : String)
    → AllEntries P d
    → get d k ≡ some o
    → P k o
unfolding get
AllEntries-get P [] k o h e = absurd (ground arith)
AllEntries-get P ((j, v) ∷ d) k o h e = elim (Bool-cases (str_eq j k)) [
  | inl q ↦
      (let same : v ≡ o = ground arith in
        subst (P k) same (subst (λ i. P i v) ((eq_iff j k).0 q) h.0))
  | inr q ↦ AllEntries-get P d k o h.1 (ground arith)
]

-- A text that is not blank is blank.
blank : true ≡ false → ⊥
blank h = ground arith

old_config-IsClosed : IsClosed dial_of old_config
unfolding get text_at
old_config-IsClosed = record {
  tagged = old_config-IsTagged;
  dials = λ k o.
      AllEntries-get (λ k o. text_at old_config.dialer_of k ≡ dial_of o) old_config.outbounds k o
        (refl, (refl, (refl, (refl, tt))));
  dialers = λ k h. ground arith;
  closed = λ k o.
      AllEntries-get
        (λ k o.
          str_eq (dial_of o) "" ≡ false → is_some (get old_config.outbounds (dial_of o)) ≡ true)
        old_config.outbounds k o
        (λ h. absurd (blank h), (λ h. refl, (λ h. absurd (blank h), (λ h. absurd (blank h), tt))));
}

new_config-IsClosed : IsClosed dial_of new_config
unfolding get text_at
new_config-IsClosed = record {
  tagged = new_config-IsTagged;
  dials = λ k o.
      AllEntries-get (λ k o. text_at new_config.dialer_of k ≡ dial_of o) new_config.outbounds k o
        (refl, (refl, (refl, (refl, tt))));
  dialers = new_config-DialersKnown;
  closed = λ k o.
      AllEntries-get
        (λ k o.
          str_eq (dial_of o) "" ≡ false → is_some (get new_config.outbounds (dial_of o)) ≡ true)
        new_config.outbounds k o
        (λ h. absurd (blank h), (λ h. refl, (λ h. absurd (blank h), (λ h. absurd (blank h), tt))));
}

abbrev IsFlat : String → String → Type 0
IsFlat k o =
    str_eq (dial_of o) "" ≡ false
    → (names old_config.dialer_of (dial_of o) || names new_config.dialer_of (dial_of o)) ≡ false

configs-AreLinked : AreLinked dial_of old_config new_config
unfolding get text_at names
configs-AreLinked = record {
  flat_old = λ k o.
      AllEntries-get IsFlat old_config.outbounds k o
        (λ h. absurd (blank h), (λ h. refl, (λ h. absurd (blank h), (λ h. absurd (blank h), tt))));
  flat_want = λ k o.
      AllEntries-get IsFlat new_config.outbounds k o
        (λ h. absurd (blank h), (λ h. refl, (λ h. absurd (blank h), (λ h. absurd (blank h), tt))));
  owned = λ k o.
      AllEntries-get
        (λ k o.
          str_eq (dial_of o) "" ≡ false
          → is_some (get new_config.outbounds (dial_of o)) ≡ true
          → is_some (get new_config.outbounds k) ≡ true)
        old_config.outbounds k o
        (
          λ h t. absurd (blank h),
          (λ h t. refl, (λ h t. absurd (blank h), (λ h t. absurd (blank h), tt))),
        );
}

live_calls-Safe_example :
    SafeAlong dict_process dial_of
      (one_by_one (live_calls (plan_live old_config new_config) new_config))
      old_config.outbounds
live_calls-Safe_example =
    live_calls-Safe dict_process dial_of old_config new_config old_config.outbounds
      old_config-IsClosed new_config-IsClosed configs-AreLinked new_config-live (λ j. refl)
