-- ===== src/Daemon/Auto.antt =====
-- The auto strategy: autoClassifier of daemon/autostrategy.go. The texts that say why a pool
-- switched are left out; every event has the pool's key and its new mode.
pub mod Dwell
pub mod Evaluate
use em_xray.Xray.Settings.{AutoTuning}
use em_xray.Prelude.{
  ℕ, zero, suc, ◌+◌, ◌-◌, ◌*◌, String, Bool, true, false, ◌&&◌, ◌||◌, not, List, [], ◌∷◌, ◌++◌,
  Dict, if◌then◌else◌, get, count, leb, is_some, keep_if, ltb, put, some, none, holds,
}
use em_xray.Daemon.Clock.{minute}
use em_xray.Daemon.History.Stats.{PoolHealth, NodeHealth, is_observed}

-- autoMinFlapping
abbrev pub auto_min_flapping : ℕ
auto_min_flapping = 2

-- autoState
pub record AutoState : Type 0 where
  pub agile : Bool
  pub since : ℕ
  pub last_flappy : ℕ

-- autoEvent
pub record AutoEvent : Type 0 where
  pub key : String
  pub agile : Bool

-- agile: the mode that the classifier holds for a pool
unfoldable pub agile_mode : Dict AutoState → String → Bool
agile_mode pools key = elim (get pools key) [ some st ↦ st.agile | none ↦ false ]

-- n.UptimePct >= 0 && n.Flips >= t.Flips
unfoldable pub is_flapper : AutoTuning → NodeHealth → Bool
is_flapper t n = is_observed n && leb t.flips n.flips

-- flapping
unfoldable pub flapping : PoolHealth → AutoTuning → Bool
flapping p t =
    let observed = count is_observed p.nodes in
    let flappers = count (is_flapper t) p.nodes in
    ltb 0 t.pick_loss && leb t.pick_loss p.pick_loss
    || leb auto_min_flapping flappers && leb (t.flapping_pct * observed) (flappers * 100)

-- One judged pool: its new state, and whether its mode changed.
unfoldable pub judge : ℕ → ℕ → Bool → AutoState → AutoState × Bool
judge now calm flappy st =
    if flappy
    then if st.agile
      then (record st { last_flappy = now }, false)
      else (record { agile = true; since = now; last_flappy = now }, true)
    else if st.agile && leb calm (now - st.last_flappy)
    then (record st { agile = false; since = now }, true)
    else (st, false)

-- st := c.pools[key], a new stable one where there is none
unfoldable pub auto_state_of : ℕ → Dict AutoState → String → AutoState
auto_state_of now pools key = elim (get pools key) [
  | some st ↦ st
  | none ↦ record { agile = false; since = now; last_flappy = 0 }
]

-- One window of the loop.
unfoldable pub evaluate_window :
    ℕ
    → Dict Bool
    → AutoTuning
    → PoolHealth
    → Dict AutoState × List AutoEvent
    → Dict AutoState × List AutoEvent
evaluate_window now auto t p (pools, events) =
    let judged = judge now (t.calm_min * minute) (flapping p t) (auto_state_of now pools p.key) in
    let event : AutoEvent = record { key = p.key; agile = judged.0.agile } in
    if holds auto p.key
    then (put pools p.key judged.0, if judged.1 then events ++ (event ∷ []) else events)
    else (pools, events)

unfoldable pub evaluate_windows :
    ℕ
    → Dict Bool
    → AutoTuning
    → List PoolHealth
    → Dict AutoState × List AutoEvent
    → Dict AutoState × List AutoEvent
evaluate_windows now auto t [] s = s
evaluate_windows now auto t (p ∷ windows) s =
    evaluate_windows now auto t windows (evaluate_window now auto t p s)

-- evaluate: the new states and the switches; pools no longer auto are forgotten
unfoldable pub evaluate :
    ℕ → List PoolHealth → Dict Bool → AutoTuning → Dict AutoState → Dict AutoState × List AutoEvent
evaluate now windows auto t pools =
    evaluate_windows now auto t windows (keep_if (λ k st. holds auto k) pools, [])
