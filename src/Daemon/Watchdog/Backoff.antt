-- ===== src/Daemon/Watchdog/Backoff.antt =====
-- How the restart delays of daemon/watchdog.go grow and fall back.
use native.Mathlib.Nat.{one-le-pow, pow-suc}
use em_xray.Prelude.{
  ℕ, Bool, List, ◌≤◌, All, ◌∷◌, false, ◌≡◌, arith, ◌<◌, [], min, ◌*◌, ◌^◌, length, ◌∙◌,
}
use em_xray.Daemon.Watchdog.{
  Watchdog, head, wakes, failed, stable_run, child_exits, next_backoff, ok, spawn_failed, spawned,
  backoff_min, backoff_max, spawn_child,
}

-- A child that exits early and is waited for, or that cannot be spawned.
pub data Setback : Type 0 where
  no_spawn : Setback
  early_exit : ℕ → Bool → Setback

-- The sleep before the retry after a setback.
unfoldable pub fall_asleep : Setback → Watchdog → Watchdog
fall_asleep no_spawn w = spawn_child failed (head w)
fall_asleep (early_exit ran with_err) w =
    child_exits ran with_err (spawned (spawn_child ok (head w)))

-- The loop's head again, after a setback for each element of the list, the latest first.
unfoldable pub after_setbacks : List Setback → Watchdog → Watchdog
after_setbacks [] w = w
after_setbacks (s ∷ setbacks) w = wakes false (fall_asleep s (after_setbacks setbacks w))

-- A setback that does not reset the backoff.
abbrev pub IsQuick : Setback → Type 0
IsQuick no_spawn = Unit
IsQuick (early_exit ran with_err) = ran ≤ stable_run

backoff-fall_asleep :
    (s : Setback) (w : Watchdog)
    → IsQuick s
    → w.stopping ≡ false
    → ((fall_asleep s w).backoff ≡ w.backoff) × ((fall_asleep s w).stopping ≡ false)
unfolding fall_asleep head spawn_child child_exits spawn_failed spawned
backoff-fall_asleep no_spawn w quick on = ground arith
backoff-fall_asleep (early_exit ran with_err) w quick on = ground arith

backoff-after_setbacks :
    (setbacks : List Setback) (w : Watchdog)
    → All IsQuick setbacks
    → w.stopping ≡ false
    → w.backoff ≡ backoff_min
    → ((after_setbacks setbacks w).backoff ≡ min backoff_max (backoff_min * 2 ^ length setbacks))
      × ((after_setbacks setbacks w).stopping ≡ false)
unfolding after_setbacks wakes next_backoff
backoff-after_setbacks [] w quick on e = (omega arith, on)
backoff-after_setbacks (s ∷ setbacks) w quick on e =
    let before = backoff-after_setbacks setbacks w quick.1 on e in
    let asleep = backoff-fall_asleep s (after_setbacks setbacks w) quick.0 before.1 in
    let least : 1 ≤ 2 ^ length setbacks = one-le-pow (length setbacks) 2 (omega arith) in
    (ground (arith, pow-suc 2 (length setbacks)), asleep.1)

-- After n setbacks in a row, none of them a stable run, the next retry waits for
-- backoffMin * 2 ^ n, capped at backoffMax.
pub backoff_grows :
    (setbacks : List Setback) (s : Setback) (w : Watchdog)
    → All IsQuick (s ∷ setbacks)
    → w.stopping ≡ false
    → w.backoff ≡ backoff_min
    → (fall_asleep s (after_setbacks setbacks w)).backoff
      ≡ min backoff_max (backoff_min * 2 ^ length setbacks)
backoff_grows setbacks s w quick on e =
    let before = backoff-after_setbacks setbacks w quick.1 on e in
    (backoff-fall_asleep s (after_setbacks setbacks w) quick.0 before.1).0 ∙ before.0

-- Whatever came before, a child that ran for longer than stableRun is restarted after backoffMin.
pub backoff_resets :
    (w : Watchdog) (ran : ℕ) (with_err : Bool)
    → w.stopping ≡ false
    → stable_run < ran
    → (fall_asleep (early_exit ran with_err) w).backoff ≡ backoff_min
unfolding fall_asleep head spawn_child child_exits spawned
backoff_resets w ran with_err on long = ground arith
