-- ===== src/Daemon/Health.antt =====
-- The responsiveness monitor of the running xray: recordHealthResult and checkXrayHealth of
-- daemon/xray.go. The messages and the times are left out.
pub mod Limit
use em_xray.Prelude.{
  ℕ, zero, suc, List, [], ◌∷◌, String, some, none, true, false, Bool, Option, Dict, if◌then◌else◌,
  leb, not,
}

-- xrayHealthFailureLimit
abbrev pub xray_health_failure_limit : ℕ
xray_health_failure_limit = 3

-- The health fields of Supervisor
pub record Health : Type 0 where
  pub checked : Bool
  pub ok : Bool
  pub failures : ℕ
  pub restarts : ℕ

-- recordHealthResult, with whether the check failed: the fields, and whether the limit is reached
unfoldable pub record_health_result : Bool → Health → Health × Bool
record_health_result failed h =
    if failed
    then (
      record h { checked = true; ok = false; failures = suc h.failures },
      leb xray_health_failure_limit (suc h.failures),
    )
    else (record h { checked = true; ok = true; failures = 0 }, false)

-- What a check finds: whether the child runs, whether the watchdog is started, whether the stats
-- query fails, and whether a restart would fail.
pub record Probe : Type 0 where
  pub running : Bool
  pub started : Bool
  pub failed : Bool
  pub restart_fails : Bool

-- What a check calls.
pub data HealthCall : Type 0 where
  nothing : HealthCall
  reconcile : HealthCall
  restart : HealthCall

-- RestartXray, what it does to the fields
unfoldable pub begin_restart : Health → Health
begin_restart h = record h { checked = false; ok = false; failures = 0 }

abbrev after_restart : Bool → Health → Health
after_restart fails h =
    if fails
    then record h { ok = false; failures = 0; restarts = suc h.restarts }
    else record h { checked = false; ok = false; failures = 0; restarts = suc h.restarts }

-- checkXrayHealth
unfoldable pub check_xray_health : Probe → Health → Health × HealthCall
check_xray_health p h =
    if not p.running
    then (h, if p.started then nothing else reconcile)
    else (let (noted, limit) = record_health_result p.failed h in
        if limit
        then (after_restart p.restart_fails (begin_restart noted), restart)
        else (noted, nothing))
