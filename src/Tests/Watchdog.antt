-- ===== src/Tests/Watchdog.antt =====
-- Runs of the watchdog of daemon/watchdog.go.
use em_xray.Daemon.Watchdog.Life.{Winds, IsSound, Reach-IsSound, Step-Winds}
use em_xray.Prelude.{◌≢◌, ◌≡◌, true, refl}
use em_xray.Daemon.Watchdog.{
  Watchdog, head, start, stop, Reach, new_watchdog, ok, spawned, next, idle, child_exits, at_head,
  here, stopping, starting, waiting, heading, exiting, spawn_child, spawning, spawning_child,
  launched, noting,
}

-- A started watchdog whose child runs.
abbrev up : Watchdog
up = spawned (spawn_child ok (head (start new_watchdog)))

up_running : up.running ≡ true
unfolding spawned
up_running = refl

headed : (head (start new_watchdog)).phase ≡ spawning
unfolding head start
headed = refl

child_started : (spawn_child ok (head (start new_watchdog))).phase ≡ launched
unfolding spawn_child
child_started = refl

up_reached : Reach new_watchdog up
unfolding start
up_reached =
    next
      (next (next (next here (starting new_watchdog)) (heading (start new_watchdog) refl))
        (spawning_child (head (start new_watchdog)) ok headed))
      (noting (spawn_child ok (head (start new_watchdog))) child_started)

Reach-IsSound_example : IsSound up
Reach-IsSound_example = Reach-IsSound up_reached

abbrev halted : Watchdog
halted = stop up

halted_reached : Reach new_watchdog halted
halted_reached = next up_reached (stopping up)

halted_waits : halted.phase ≡ waiting
unfolding head start spawn_child spawned stop
halted_waits = refl

halted_stops : halted.stopping ≡ true
unfolding head start spawn_child spawned stop
halted_stops = refl

halted_busy : halted.phase ≢ idle
halted_busy e = cc halted_waits

Step-Winds_example : Winds halted (child_exits 5 true halted)
Step-Winds_example =
    Step-Winds (exiting halted 5 true halted_waits) (Reach-IsSound halted_reached) halted_stops
      halted_busy

abbrev fresh_start : Watchdog
fresh_start = record new_watchdog { phase = at_head }
