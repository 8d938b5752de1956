-- ===== src/Daemon/Health/Limit.antt =====
-- When the monitor of daemon/xray.go restarts xray.
use em_xray.Daemon.Health.{
  Probe, check_xray_health, Health, record_health_result, xray_health_failure_limit, nothing,
  reconcile, restart, begin_restart,
}
use em_xray.Prelude.{
  ℕ, suc, List, [], ◌∷◌, if◌then◌else◌, not, ◌≡◌, leb, arith, ◌&&◌, Bool-cases, inr, inl, refl,
}

-- What changes the fields: a check, and a restart that a user asks for.
pub data HealthEvent : Type 0 where
  checks : Probe → HealthEvent
  restarts_by_hand : HealthEvent

-- The fields after a sequence of events, the newest first.
unfoldable pub after_events : List HealthEvent → Health → Health
after_events [] h = h
after_events (checks p ∷ es) h = (check_xray_health p (after_events es h)).0
after_events (restarts_by_hand ∷ es) h = begin_restart (after_events es h)

-- How many of the last checks of a running child failed, since one went well, xray was restarted or
-- the limit was reached: a check of a child that is down does not count.
unfoldable pub failing : List HealthEvent → ℕ
failing [] = 0
failing (restarts_by_hand ∷ es) = 0
failing (checks p ∷ es) =
    let before = failing es in
    if not p.running
    then before
    else if not p.failed
    then 0
    else if leb xray_health_failure_limit (suc before)
    then 0
    else suc before

failures-check :
    (p : Probe) (h : Health) (n : ℕ)
    → h.failures ≡ n
    → (check_xray_health p h).0.failures ≡ (
        if not p.running
        then n
        else if not p.failed
        then 0
        else if leb xray_health_failure_limit (suc n)
        then 0
        else suc n)
unfolding check_xray_health record_health_result begin_restart
failures-check p h n e = ground (arith, e)

failures-after_events :
    (es : List HealthEvent) (h : Health)
    → h.failures ≡ 0
    → (after_events es h).failures ≡ failing es
unfolding after_events failing begin_restart
failures-after_events [] h e = e
failures-after_events (checks p ∷ es) h e =
    failures-check p (after_events es h) (failing es) (failures-after_events es h e)
failures-after_events (restarts_by_hand ∷ es) h e = refl

-- After any events from a start without failures, a check restarts xray exactly if the child runs, the
-- check fails, and the run of failures before it is one short of the limit or longer; and it reconciles exactly if the child is down with the watchdog
-- stopped.
pub check_xray_health_calls :
    (p : Probe) (es : List HealthEvent) (h : Health)
    → h.failures ≡ 0
    → (check_xray_health p (after_events es h)).1 ≡ (
        if not p.running
        then (if p.started then nothing else reconcile)
        else if p.failed && leb xray_health_failure_limit (suc (failing es))
        then restart
        else nothing)
unfolding check_xray_health record_health_result
check_xray_health_calls p es h e =
    let n = failures-after_events es h e in
    elim (Bool-cases p.running) [
      | inr r ↦ rw r refl
      | inl r ↦ elim (Bool-cases p.failed) [
        | inr f ↦ rw (r, f) refl
        | inl f ↦
            rw (r, f, n)
              (elim (Bool-cases (leb xray_health_failure_limit (suc (failing es)))) [
                | inl b ↦ rw b refl
                | inr b ↦ rw b refl
              ])
      ]
    ]
