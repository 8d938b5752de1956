-- ===== src/Daemon/Watchdog/Life.antt =====
-- The life of the supervise loop in daemon/watchdog.go: an invariant, and what a stop leads to.
use em_xray.Prelude.{ℕ, ◌≡◌, ◌≤◌, arith, ◌<◌, true, Bool, false, ◌≢◌, ◌^◌, refl}
use em_xray.Daemon.Watchdog.{
  Watchdog, backoff_min, new_watchdog, start, stop, head, child_exits, wakes, Step, Reach, Phase,
  leave, starting, next, idle, backoff_max, spawn_failed, next_backoff, stopping, at_head, waiting,
  spawned, asleep, heading, Spawn, exiting, waking, here, spawn_child, launched, spawning,
  spawning_child, failed, noting, ok,
}

pub record IsSound (w : Watchdog) : Type 0 where
  pub backoff_low : backoff_min ≤ w.backoff
  pub backoff_high : w.backoff ≤ backoff_max
  pub running_waits : w.running ≡ true → w.phase ≡ waiting
  pub waiting_runs : w.phase ≡ waiting → w.running ≡ true
  pub running_clean : w.running ≡ true → w.has_err ≡ false
  pub idle_open : w.phase ≡ idle → w.stopping ≡ false
  pub restarts_word : w.restarts < 2 ^ 32

new-IsSound : IsSound new_watchdog
new-IsSound = ground arith

start-IsSound : (w : Watchdog) → IsSound w → IsSound (start w)
unfolding start
start-IsSound w h = ground arith

stop-IsSound : (w : Watchdog) → IsSound w → IsSound (stop w)
unfolding stop
stop-IsSound w h = ground arith

head-IsSound : (w : Watchdog) → IsSound w → w.phase ≡ at_head → IsSound (head w)
unfolding head leave
head-IsSound w h e = ground arith

spawn_child-IsSound :
    (w : Watchdog) (spawn : Spawn) → IsSound w → w.phase ≡ spawning → IsSound (spawn_child spawn w)
unfolding spawn_child spawn_failed
spawn_child-IsSound w failed h e = ground arith
spawn_child-IsSound w ok h e = ground arith

spawned-IsSound : (w : Watchdog) → IsSound w → w.phase ≡ launched → IsSound (spawned w)
unfolding spawned
spawned-IsSound w h e = ground arith

child_exits-IsSound :
    (w : Watchdog) (ran : ℕ) (with_err : Bool) → IsSound w → IsSound (child_exits ran with_err w)
unfolding child_exits leave
child_exits-IsSound w ran with_err h = ground arith

wakes-IsSound :
    (w : Watchdog) (by_stop : Bool) → IsSound w → w.phase ≡ asleep → IsSound (wakes by_stop w)
unfolding wakes leave next_backoff
wakes-IsSound w by_stop h e = ground arith

Step-IsSound : {w v : Watchdog} → Step w v → IsSound w → IsSound v
Step-IsSound (starting w) h = start-IsSound w h
Step-IsSound (stopping w) h = stop-IsSound w h
Step-IsSound (heading w e) h = head-IsSound w h e
Step-IsSound (spawning_child w spawn e) h = spawn_child-IsSound w spawn h e
Step-IsSound (noting w e) h = spawned-IsSound w h e
Step-IsSound (exiting w ran with_err e) h = child_exits-IsSound w ran with_err h
Step-IsSound (waking w by_stop e s) h = wakes-IsSound w by_stop h e

-- Whatever the child, the factory and the callers do, the backoff stays between backoffMin and
-- backoffMax, the watchdog reports a running child exactly while it waits for one, then with no error,
-- and a loop that is not running has no stop pending.
pub Reach-IsSound : {w : Watchdog} → Reach new_watchdog w → IsSound w
Reach-IsSound here = new-IsSound
Reach-IsSound (next r s) = Step-IsSound s (Reach-IsSound r)

-- How many steps a stopping loop can still take.
abbrev pub steps_left : Phase → ℕ
steps_left idle = 0
steps_left at_head = 1
steps_left waiting = 1
steps_left asleep = 2
steps_left launched = 2
steps_left spawning = 3

-- What a step of a stopping loop leads to: nothing changed, or the loop is nearer its end with as many
-- restarts. It is past its check for a stop only if it was so before, and notes a running child only
-- if it had started one.
pub data Winds (w v : Watchdog) : Type 0 where
  same : v ≡ w → Winds w v
  nearer :
      steps_left v.phase < steps_left w.phase
      → v.restarts ≡ w.restarts
      → v.phase ≢ spawning
      → (v.phase ≡ launched → w.phase ≡ spawning)
      → (v.running ≡ true → w.phase ≡ launched)
      → Winds w v

-- After a stop each step of a sound loop that still runs changes nothing, or brings it nearer its end,
-- which is at most three steps off, with no restart counted. It passes no further check for a stop: a
-- child is started only by a loop that was past the check already, and reported as running only after
-- it was started so.
pub Step-Winds :
    {w v : Watchdog} → Step w v → IsSound w → w.stopping ≡ true → w.phase ≢ idle → Winds w v
unfolding start stop head spawn_child spawned spawn_failed child_exits wakes leave
Step-Winds (starting w) h halt busy = same (ground arith)
Step-Winds (stopping w) h halt busy = same (ground arith)
Step-Winds (heading w e) h halt busy =
    nearer (ground arith) (ground arith) (λ q. ground arith) (λ q. ground arith) (λ q. ground arith)
Step-Winds (spawning_child w failed e) h halt busy =
    nearer (ground arith) refl (λ q. ground arith) (λ q. ground arith) (λ q. ground arith)
Step-Winds (spawning_child w ok e) h halt busy =
    nearer (ground arith) refl (λ q. ground arith) (λ q. e) (λ q. ground arith)
Step-Winds (noting w e) h halt busy =
    nearer (ground arith) refl (λ q. ground arith) (λ q. ground arith) (λ q. e)
Step-Winds (exiting w ran with_err e) h halt busy =
    nearer (ground arith) (ground arith) (λ q. ground arith) (λ q. ground arith) (λ q. ground arith)
Step-Winds (waking w by_stop e s) h halt busy =
    nearer (ground arith) (ground arith) (λ q. ground arith) (λ q. ground arith) (λ q. ground arith)
