-- ===== src/Tests/Health.antt =====
-- Runs of the responsiveness monitor of daemon/xray.go.
use em_xray.Daemon.Health.Limit.{after_events, failing, check_xray_health_calls, checks}
use em_xray.Daemon.Health.{
  Probe, Health, check_xray_health, record_health_result, begin_restart, nothing, reconcile,
  xray_health_failure_limit, restart,
}
use em_xray.Prelude.{suc, [], ◌∷◌, true, false, ◌≡◌, if◌then◌else◌, refl, not, ◌&&◌, leb}

abbrev bad : Probe
bad = record { running = true; started = true; failed = true; restart_fails = false }

abbrev start : Health
start = record { checked = false; ok = false; failures = 0; restarts = 0 }

restarts_run :
    (after_events (checks bad ∷ checks bad ∷ checks bad ∷ checks bad ∷ []) start).restarts ≡ 1
unfolding after_events check_xray_health record_health_result begin_restart
restarts_run = refl

check_xray_health_calls_example :
    (check_xray_health bad (after_events (checks bad ∷ checks bad ∷ []) start)).1 ≡ (
      if not true
      then (if true then nothing else reconcile)
      else if true && leb xray_health_failure_limit (suc (failing (checks bad ∷ checks bad ∷ [])))
      then restart
      else nothing)
check_xray_health_calls_example =
    check_xray_health_calls bad (checks bad ∷ checks bad ∷ []) start refl
