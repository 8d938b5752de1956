-- ===== src/Tests/History.antt =====
-- Runs of the health history of daemon/nodehistory.go.
use em_xray.Xray.Tag.{
  slot_member_tag, sanitize_key, is_tag_char, replace_runs, is_underscore, trim_left, trim_right,
  trim_space, is_space,
}
use em_xray.Daemon.History.Window.{IsWindowed, IsBetween, record_poll-IsWindowed}
use em_xray.Daemon.Parker.{NodeStatus}
use em_xray.Xray.Slot.{
  Slot, active_keys, pick_of, pick_active_count, add_keys, active_count, slot_masters,
}
use em_xray.Daemon.History.Loss.{IsFair, AreSilent, record_poll-IsFair}
use em_xray.Daemon.Clock.{second, minute}
use em_xray.Daemon.History.Uptime.{judged}
use em_xray.Daemon.History.Stats.{
  node_stats, pool_stats, tally_rounds, losses, tally_sample, is_loss, is_flip, count_samples,
}
use mathlib.Core.Path.{subst}
use em_xray.Daemon.Uplink.{
  uplink_down, any_sampled, any_alive, any_slot, any_member, sample_of, sampled,
}
use em_xray.Prelude.{
  ℕ, List, false, ◌*◌, ◌≡◌, get, [], true, length, ◌∷◌, refl, arith, Dict, some, put, keep_if,
  AllValues, inl,
}
use em_xray.Daemon.History.{
  HealthRound, HealthState, hs_alive, NodeSample, role_active, hs_dead, hs_parked, PoolHistory,
  record_poll, pool_loaded, no_history, record_pool, record_slots, pool_of, role_idle,
}

abbrev sample : HealthState → NodeSample
sample s = record { state = s; role = role_active; rtt_ms = 80 }

abbrev round_at : ℕ → HealthState → HealthRound
round_at t s = record { at = t; uplink_down = false; ranked = true; nodes = ("a", sample s) ∷ [] }

abbrev first_round : HealthRound
first_round = round_at 0 hs_alive

-- Alive, then dead, parked and alive again.
abbrev later_rounds : List HealthRound
later_rounds =
    round_at (10 * second) hs_dead
    ∷ round_at (20 * second) hs_parked
    ∷ round_at (30 * second) hs_alive
    ∷ []

two_flips : (node_stats first_round later_rounds "a").flips ≡ 2
unfolding node_stats tally_rounds tally_sample is_flip get
two_flips = refl

three_judged : length (judged "a" (first_round ∷ later_rounds)) ≡ 3
unfolding judged get
three_judged = refl

one_loss : (pool_stats "k" [] first_round later_rounds).pick_loss ≡ 1
unfolding pool_stats losses is_loss count_samples
one_loss = refl

abbrev pool : Slot
pool = record {
  master = "m";
  aliases = "n" ∷ [];
  key = "xraysub:s";
  index = 0;
  members = record { key = "a"; outbound = "{}" } ∷ record { key = "b"; outbound = "{}" } ∷ [];
  picked = "a" ∷ "b" ∷ "c" ∷ [];
  active = 0;
  master_picks = ("n", record { picked = "b" ∷ []; active = 1 }) ∷ [];
  strategy = "stable";
  auto = false;
  pinned = [];
}

abbrev dead_status : NodeStatus
dead_status = record { alive = false; delay = 0; all = 2; fail = 2 }

all_silent : AreSilent (("slot0-out-a", dead_status) ∷ []) (pool ∷ [])
unfolding sample_of sampled get slot_member_tag sanitize_key is_tag_char replace_runs is_underscore
    trim_left trim_right trim_space is_space
all_silent = ((refl, (tt, tt)), tt)

-- A history in which an earlier round blames a node.
abbrev blamed : PoolHistory
blamed = record no_history {
  rounds =
      record {
        at = 1;
        uplink_down = false;
        ranked = false;
        nodes = ("a", record { state = hs_dead; role = role_idle; rtt_ms = 0 }) ∷ [];
      }
      ∷ [];
}

record_poll-IsFair_example :
    AllValues (IsFair (λ (r : HealthRound). r.at ≡ 1)) (
      record_poll 5 (pool ∷ []) (("slot0-out-a", dead_status) ∷ []) [] (("xraysub:s", blamed) ∷ []))
record_poll-IsFair_example =
    record_poll-IsFair (("slot0-out-a", dead_status) ∷ []) (λ (r : HealthRound). r.at ≡ 1) 5
      (pool ∷ []) [] (("xraysub:s", blamed) ∷ []) all_silent ((inl refl, tt), tt)

abbrev had : PoolHistory
had = record no_history { rounds = first_round ∷ later_rounds }

abbrev pools : Dict PoolHistory
pools = ("xraysub:s", had) ∷ ("gone", no_history) ∷ []

abbrev now_recorded : Dict PoolHistory
now_recorded = record_poll (31 * minute) (pool ∷ []) [] [] pools

abbrev first_pool : PoolHistory
first_pool = record_pool (31 * minute) false [] [] pool had

had_past :
    (ph : PoolHistory) → get pools "xraysub:s" ≡ some ph → IsBetween 0 (31 * minute) ph.rounds
unfolding get
had_past ph e =
    let same : had ≡ ph = cc in
    subst (λ (p : PoolHistory). IsBetween 0 (31 * minute) p.rounds) same (omega arith)

recorded : get now_recorded "xraysub:s" ≡ some first_pool
unfolding get record_poll record_slots record_pool put keep_if pool_of pool_loaded uplink_down
    any_sampled any_alive any_slot any_member sample_of sampled slot_member_tag
recorded = refl

record_poll-IsWindowed_example :
    (pool_loaded (pool ∷ []) "xraysub:s" ≡ true) × IsWindowed (31 * minute) first_pool
record_poll-IsWindowed_example =
    record_poll-IsWindowed (31 * minute) (pool ∷ []) [] [] pools "xraysub:s" had_past first_pool
      recorded

b_active : get (active_keys pool) "b" ≡ some true
unfolding active_keys pick_of pick_active_count add_keys active_count slot_masters get put
b_active = refl
