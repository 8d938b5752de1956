-- ===== src/Xray/Settings.antt =====
-- The auto strategy's thresholds: AutoTuning of core/xray/settings.go, with its validation.
use em_xray.Prelude.{ℕ, Option, if◌then◌else◌, ltb, ◌||◌, some, ◌*◌, none}

-- AutoTuning; PickLoss = 0 means not to judge by pick losses
pub record AutoTuning : Type 0 where
  pub window_min : ℕ
  pub flips : ℕ
  pub flapping_pct : ℕ
  pub pick_loss : ℕ
  pub calm_min : ℕ

-- DefaultAutoTuning
abbrev pub default_auto_tuning : AutoTuning
default_auto_tuning = record {
  window_min = 10;
  flips = 2;
  flapping_pct = 30;
  pick_loss = 2;
  calm_min = 30;
}

-- MaxAutoWindowMin
abbrev pub max_auto_window_min : ℕ
max_auto_window_min = 30

-- Validate: the first threshold out of range, as the message names it
pub data TuningError : Type 0 where
  bad_window bad_flips bad_flapping bad_pick_loss bad_calm : TuningError

unfoldable pub validate : AutoTuning → Option TuningError
validate t =
    if ltb t.window_min 2 || ltb max_auto_window_min t.window_min
    then some bad_window
    else if ltb t.flips 1 || ltb 100 t.flips
    then some bad_flips
    else if ltb t.flapping_pct 1 || ltb 100 t.flapping_pct
    then some bad_flapping
    else if ltb 100 t.pick_loss
    then some bad_pick_loss
    else if ltb t.calm_min 1 || ltb (24 * 60) t.calm_min
    then some bad_calm
    else none
