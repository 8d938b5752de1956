-- ===== src/Daemon/Parker/Backoff.antt =====
-- How park lengths grow over failed trials in daemon/nodepark.go.
use em_xray.Prelude.{ℕ, ◌*◌, ◌^◌, ◌<◌, min, List, [], ◌∷◌, ◌≡◌, refl, length, arith, ◌∙◌}
use native.Mathlib.Nat.{pow-suc, one-le-pow}
use em_xray.Daemon.Parker.{
  ParkState, fresh, node_park_initial, node_park_max, mark_dead, park, next_park,
}
use em_xray.Daemon.Parker.Release.{on_trial_again}

-- A node that is dead at time t is parked, and later put back on trial.
cycle : ℕ → ParkState → ParkState
unfolding mark_dead park
cycle t ps = on_trial_again (park t (mark_dead t ps))

-- One cycle for each time, the latest first.
unfoldable pub cycles : List ℕ → ParkState → ParkState
unfolding cycle
cycles [] ps = ps
cycles (t ∷ ts) ps = cycle t (cycles ts ps)

next_park-cycle :
    (t : ℕ) (ps : ParkState)
    → 0 < next_park ps
    → next_park (cycle t ps) ≡ min node_park_max (next_park ps * 2)
unfolding cycle next_park
next_park-cycle t ps h = ground arith

next_park-cycles :
    (ts : List ℕ)
    → next_park (cycles ts fresh) ≡ min node_park_max (node_park_initial * 2 ^ length ts)
unfolding cycles next_park
next_park-cycles [] = refl
next_park-cycles (t ∷ ts) =
    let ih = next_park-cycles ts in
    let positive : 0 < 2 ^ length ts = one-le-pow (length ts) 2 (omega arith) in
    next_park-cycle t (cycles ts fresh) (omega arith) ∙ omega (arith, ih, pow-suc 2 (length ts))

-- The n-th failed trial parks a node for nodeParkInitial * 2 ^ n, capped at nodeParkMax.
pub park-cycles :
    (now : ℕ) (ts : List ℕ)
    → (park now (mark_dead now (cycles ts fresh))).park_for
      ≡ min node_park_max (node_park_initial * 2 ^ length ts)
unfolding park next_park mark_dead
park-cycles now ts = ground (arith, next_park-cycles ts)
