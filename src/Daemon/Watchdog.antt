-- ===== src/Daemon/Watchdog.antt =====
-- The supervisor of the xray child: Watchdog of daemon/watchdog.go, as a state machine over what the
-- environment does (the command factory, the child, the timer and the callers of Start and Stop).
-- Error texts are left out, but for whether one is held.
pub mod Backoff
pub mod Life
use em_xray.Prelude.{
  ℕ, zero, suc, ◌+◌, ◌-◌, ◌*◌, ◌/◌, Bool, true, false, List, [], ◌∷◌, if◌then◌else◌, not, ◌≡◌, ltb,
  ◌%◌, ◌^◌, ◌||◌,
}
use em_xray.Daemon.Clock.{second}

-- backoffMin, backoffMax, stableRun
abbrev pub backoff_min : ℕ
backoff_min = second / 2

abbrev pub backoff_max : ℕ
backoff_max = 30 * second

abbrev pub stable_run : ℕ
stable_run = 60 * second

-- nextBackoff
unfoldable pub next_backoff : ℕ → ℕ
next_backoff cur = if ltb backoff_max (cur * 2) then backoff_max else cur * 2

-- Where the supervise loop stands: not running, at its head, past its check for a stop, with a child
-- that it started and has not noted, asleep before a retry, or waiting for the child to exit.
pub data Phase : Type 0 where
  idle at_head spawning launched asleep waiting : Phase

-- Watchdog, with the local `backoff` of supervise. `stopping` is a closed stopCh; `restarts` is the
-- bit pattern of an int32.
pub record Watchdog : Type 0 where
  pub phase : Phase
  pub stopping : Bool
  pub running : Bool
  pub restarts : ℕ
  pub has_err : Bool
  pub backoff : ℕ

-- NewWatchdog
abbrev pub new_watchdog : Watchdog
new_watchdog = record {
  phase = idle;
  stopping = false;
  running = false;
  restarts = 0;
  has_err = false;
  backoff = backoff_min;
}

-- IsStarted: stopCh is there and not closed
unfoldable pub is_started : Watchdog → Bool
is_started w = elim w.phase [ idle ↦ false | _ ↦ not w.stopping ]

-- Start: nothing if the loop runs, also while it is stopping
unfoldable pub start : Watchdog → Watchdog
start w = elim w.phase [
  | idle ↦ record w { phase = at_head; stopping = false; backoff = backoff_min }
  | _ ↦ w
]

-- The first part of Stop: stopCh is closed, if the loop runs.
unfoldable pub stop : Watchdog → Watchdog
stop w = elim w.phase [ idle ↦ w | _ ↦ record w { stopping = true } ]

-- The deferred function of supervise, and its return.
unfoldable pub leave : Watchdog → Watchdog
leave w = record w { phase = idle; stopping = false; running = false }

-- Going to sleep for the backoff after the factory or the start of the command failed.
unfoldable pub spawn_failed : Watchdog → Watchdog
spawn_failed w = record w { phase = asleep; has_err = true }

-- The child that was started is noted as running, under the lock.
unfoldable pub spawned : Watchdog → Watchdog
spawned w = record w { phase = waiting; running = true; has_err = false }

-- The check for a stop at the head of the loop.
unfoldable pub head : Watchdog → Watchdog
head w = if w.stopping then leave w else record w { phase = spawning }

-- What the factory and the start of its command come to: a failure, or a child.
pub data Spawn : Type 0 where
  failed ok : Spawn

unfoldable pub spawn_child : Spawn → Watchdog → Watchdog
spawn_child failed w = spawn_failed w
spawn_child ok w = record w { phase = launched }

-- The child exits after `ran`, with or without an error. After a stop the loop ends.
unfoldable pub child_exits : ℕ → Bool → Watchdog → Watchdog
child_exits ran with_err w = if w.stopping then leave (record w { running = false }) else record w {
  phase = asleep;
  running = false;
  restarts = (w.restarts + 1) % 2 ^ 32;
  has_err = w.has_err || with_err;
  backoff = if ltb stable_run ran then backoff_min else w.backoff;
}

-- The sleep is over: the backoff has passed, or a stop came first.
unfoldable pub wakes : Bool → Watchdog → Watchdog
wakes by_stop w =
    if by_stop then leave w else record w { phase = at_head; backoff = next_backoff w.backoff }

-- One step of the program: the callers' steps fall between any two of the loop's. A stop may win over the timer only if it was requested.
pub data Step : Watchdog → Watchdog → Type 0 where
  starting : (w : Watchdog) → Step w (start w)
  stopping : (w : Watchdog) → Step w (stop w)
  heading : (w : Watchdog) → w.phase ≡ at_head → Step w (head w)
  spawning_child :
      (w : Watchdog) (spawn : Spawn) → w.phase ≡ spawning → Step w (spawn_child spawn w)
  noting : (w : Watchdog) → w.phase ≡ launched → Step w (spawned w)
  exiting :
      (w : Watchdog) (ran : ℕ) (with_err : Bool)
      → w.phase ≡ waiting
      → Step w (child_exits ran with_err w)
  waking :
      (w : Watchdog) (by_stop : Bool)
      → w.phase ≡ asleep
      → (by_stop ≡ true → w.stopping ≡ true)
      → Step w (wakes by_stop w)

-- The states that a sequence of steps leads to.
pub data Reach (w : Watchdog) : Watchdog → Type 0 where
  here : Reach w w
  next : {u v : Watchdog} → Reach w u → Step u v → Reach w v
