-- ===== src/Tests/Auto.antt =====
-- Runs of the auto classifier of daemon/autostrategy.go.
use em_xray.Daemon.Auto.Evaluate.{judged_by, window_of, get-evaluate}
use em_xray.Xray.Settings.{default_auto_tuning}
use em_xray.Daemon.Auto.{evaluate}
use em_xray.Daemon.History.Stats.{PoolHealth}
use em_xray.Prelude.{
  ℕ, Bool, List, get, false, ◌∷◌, true, ◌≡◌, [], if◌then◌else◌, holds, arith, none,
}
use em_xray.Daemon.Auto.Dwell.{
  Judgement, after_judgements, flapped_within, latest_flappy, after_judgements_agile,
}

abbrev judged_at : ℕ → Bool → Judgement
judged_at now flappy = record { now = now; flappy = flappy }

-- The pool flapped at 10, and was calm at 30 and 50.
abbrev history : List Judgement
history = judged_at 30 false ∷ judged_at 10 true ∷ []

after_judgements_agile_example :
    (after_judgements 30 0 (judged_at 50 false ∷ history)).agile
    ≡ flapped_within 30 50 (latest_flappy (judged_at 50 false ∷ history))
after_judgements_agile_example =
    after_judgements_agile 30 0 (judged_at 50 false) history (omega arith)
      (omega arith, (omega arith, tt))

abbrev calm_pool : PoolHealth
calm_pool = record {
  key = "xraysub:s";
  masters = "m" ∷ [];
  strategy = "stable";
  auto = true;
  since = 0;
  rounds = 60;
  pick_loss = 2;
  loss_sec = 40;
  churn_pct = 0;
  nodes = [];
}

get-evaluate_example :
    get
      (evaluate 100 (calm_pool ∷ []) (("xraysub:s", true) ∷ []) default_auto_tuning []).0
      "xraysub:s"
    ≡ (if holds (("xraysub:s", true) ∷ []) "xraysub:s"
        then judged_by 100
            (("xraysub:s", true) ∷ [])
            default_auto_tuning
            "xraysub:s"
            (window_of "xraysub:s" (calm_pool ∷ []))
            []
        else none)
get-evaluate_example =
    get-evaluate 100 (("xraysub:s", true) ∷ []) default_auto_tuning "xraysub:s" (calm_pool ∷ []) []
      (omega arith)
