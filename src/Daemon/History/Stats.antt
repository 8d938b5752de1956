-- ===== src/Daemon/History/Stats.antt =====
-- The statistics of a pool's rounds: poolStats, roleRank and snapshot of daemon/nodehistory.go. The
-- display fields that Supervisor.PoolHealth adds (names, and why an auto pool switched) are left out.
use Prim.Native.String.{◌++◌ as concat}
use em_xray.Prelude.{
  ℕ, suc, ◌+◌, ◌-◌, ◌*◌, ◌/◌, String, Bool, true, false, ◌&&◌, ◌||◌, not, List, [], ◌∷◌, ◌++◌, ℤ,
  Dict, if◌then◌else◌, Option, get, is_neg, ltb, map, ◌==◌, pos, str_eq, count, some, negsuc, ltb_ℤ,
  length, sort, str_le, none,
}
use em_xray.Daemon.Clock.{second}
use em_xray.Daemon.History.{
  hs_none, hs_alive, hs_dead, hs_parked, role_idle, role_active, role_spare, HealthState,
  HealthRole, NodeSample, HealthRound, PoolHistory, node_health_poll_interval, node_history_window,
  trim_rounds, hs_none, known_from,
}

-- NodeHealth; an uptime of -1 is no data
pub record NodeHealth : Type 0 where
  pub key : String
  pub role : String
  pub states : List HealthState
  pub uptime_pct : ℤ
  pub flips : ℕ
  pub avg_rtt_ms : ℕ
  pub last_rtt_ms : ℕ

-- PoolHealth
pub record PoolHealth : Type 0 where
  pub key : String
  pub masters : List String
  pub strategy : String
  pub auto : Bool
  pub since : ℕ
  pub rounds : ℕ
  pub pick_loss : ℕ
  pub loss_sec : ℕ
  pub churn_pct : ℕ
  pub nodes : List NodeHealth

-- s.role == roleActive || s.role == roleSpare
abbrev pub is_picked : NodeSample → Bool
is_picked s = elim s.role [ role_idle ↦ false | _ ↦ true ]

abbrev pub is_dead_state : HealthState → Bool
is_dead_state hs_dead = true
is_dead_state _ = false

unfoldable pub count_samples : (NodeSample → Bool) → Dict NodeSample → ℕ
count_samples p [] = 0
count_samples p ((k, s) ∷ nodes) =
    let rest = count_samples p nodes in if p s then suc rest else rest

-- loss: the ranked pick had members and all were dead
unfoldable pub is_loss : HealthRound → Bool
is_loss r =
    if r.ranked && not r.uplink_down
    then ltb 0 (count_samples is_picked r.nodes)
      && count_samples (λ s. is_picked s && is_dead_state s.state) r.nodes
        == count_samples is_picked r.nodes
    else false

-- The seconds from a round to the next; the last one counts for a poll interval.
unfoldable pub round_secs : HealthRound → List HealthRound → ℕ
round_secs r [] = node_health_poll_interval / second
round_secs r (n ∷ rest) = (n.at - r.at) / second

-- The loop over the rounds: pick_loss and loss_sec, from whether the round before was a loss.
unfoldable pub losses : Bool → List HealthRound → ℕ × ℕ
losses in_loss [] = (0, 0)
losses in_loss (r ∷ rounds) =
    let (pick_loss, loss_sec) = losses (is_loss r) rounds in
    (
      if is_loss r && not in_loss then suc pick_loss else pick_loss,
      if is_loss r then round_secs r rounds + loss_sec else loss_sec,
    )

-- What the loop over one member's samples carries.
pub record Tally : Type 0 where
  pub states : List HealthState
  pub alive : ℕ
  pub dead : ℕ
  pub rtt_sum : ℕ
  pub last_rtt : ℕ
  pub flips : ℕ
  pub last : HealthState

abbrev pub no_tally : Tally
no_tally = record {
  states = [];
  alive = 0;
  dead = 0;
  rtt_sum = 0;
  last_rtt = 0;
  flips = 0;
  last = hs_none;
}

-- last != hsNone && last != s.state, where s.state is alive or dead
unfoldable pub is_flip : HealthState → HealthState → Bool
is_flip hs_none s = false
is_flip hs_alive hs_alive = false
is_flip hs_dead hs_dead = false
is_flip _ _ = true

-- One round of a member; a round without it leaves the zero state.
unfoldable pub tally_sample : Option NodeSample → Tally → Tally
tally_sample none t = record t { states = t.states ++ (hs_none ∷ []) }
tally_sample (some s) t =
    let t' : Tally = record t { states = t.states ++ (s.state ∷ []) } in
    let flips = if is_flip t.last s.state then suc t.flips else t.flips in
    elim s.state [
      | hs_alive ↦ record t' {
        alive = suc t.alive;
        rtt_sum = t.rtt_sum + s.rtt_ms;
        last_rtt = s.rtt_ms;
        flips = flips;
        last = hs_alive;
      }
      | hs_dead ↦ record t' { dead = suc t.dead; flips = flips; last = hs_dead }
      | _ ↦ t'
    ]

unfoldable pub tally_rounds : String → List HealthRound → Tally → Tally
tally_rounds k [] t = t
tally_rounds k (r ∷ rounds) t = tally_rounds k rounds (tally_sample (get r.nodes k) t)

-- healthRole.String
unfoldable pub role_string : HealthRole → String
role_string role_active = "active"
role_string role_spare = "spare"
role_string role_idle = "idle"

-- The role of the latest round.
unfoldable pub latest_role : Option NodeSample → String
latest_role none = "gone"
latest_role (some s) = elim s.state [ hs_parked ↦ "parked" | _ ↦ role_string s.role ]

-- rounds[len(rounds)-1]
unfoldable pub latest : HealthRound → List HealthRound → HealthRound
latest r [] = r
latest r (n ∷ rounds) = latest n rounds

unfoldable pub uptime_of : Tally → ℤ
uptime_of t =
    if ltb 0 (t.alive + t.dead) then pos (t.alive * 100 / (t.alive + t.dead)) else negsuc 0

unfoldable pub node_stats : HealthRound → List HealthRound → String → NodeHealth
node_stats r rounds k =
    let t = tally_rounds k (r ∷ rounds) no_tally in
    record {
      key = k;
      role = latest_role (get (latest r rounds).nodes k);
      states = t.states;
      uptime_pct = uptime_of t;
      flips = t.flips;
      avg_rtt_ms = if ltb 0 t.alive then t.rtt_sum / t.alive else 0;
      last_rtt_ms = t.last_rtt;
    }

-- roleRank
unfoldable pub role_rank : String → ℕ
role_rank role =
    if str_eq role "active"
    then 0
    else if str_eq role "spare"
    then 1
    else if str_eq role "idle"
    then 2
    else if str_eq role "parked"
    then 3
    else 4

-- The order of the final sort: by role, then the best uptime, then the key.
unfoldable pub node_before : NodeHealth → NodeHealth → Bool
node_before a b =
    if not (role_rank a.role == role_rank b.role)
    then ltb (role_rank a.role) (role_rank b.role)
    else if ltb_ℤ b.uptime_pct a.uptime_pct
    then true
    else if ltb_ℤ a.uptime_pct b.uptime_pct
    then false
    else str_le a.key b.key

abbrev pub is_observed : NodeHealth → Bool
is_observed n = not (is_neg n.uptime_pct)

abbrev pub is_flipped : NodeHealth → Bool
is_flipped n = is_observed n && ltb 0 n.flips

-- flipped * 100 / observed
unfoldable pub churn_of : List NodeHealth → ℕ
churn_of ns =
    if ltb 0 (count is_observed ns) then count is_flipped ns * 100 / count is_observed ns else 0

-- poolStats, for at least one round
unfoldable pub pool_stats : String → List String → HealthRound → List HealthRound → PoolHealth
pool_stats key masters r rounds =
    let (pick_loss, loss_sec) = losses false (r ∷ rounds) in
    let ns = map (node_stats r rounds) (known_from (r ∷ rounds) []) in
    record {
      key = key;
      masters = masters;
      strategy = "";
      auto = false;
      since = r.at;
      rounds = length (r ∷ rounds);
      pick_loss = pick_loss;
      loss_sec = loss_sec;
      churn_pct = churn_of ns;
      nodes = sort node_before ns;
    }

-- strings.Join
unfoldable pub join : String → List String → String
join sep [] = ""
join sep (s ∷ []) = s
join sep (s ∷ t ∷ ts) = concat s (concat sep (join sep (t ∷ ts)))

-- One pool's part of a snapshot: nothing if it has no round in the window.
unfoldable pub snapshot_pool : ℕ → String → PoolHistory → List PoolHealth → List PoolHealth
snapshot_pool cutoff key ph out = elim (trim_rounds cutoff ph.rounds) [
  | [] ↦ out
  | r ∷ rounds ↦
      record (pool_stats key ph.masters r rounds) { strategy = ph.strategy; auto = ph.auto } ∷ out
]

unfoldable pub snapshot_pools : ℕ → Dict PoolHistory → List PoolHealth
snapshot_pools cutoff [] = []
snapshot_pools cutoff ((k, ph) ∷ pools) = snapshot_pool cutoff k ph (snapshot_pools cutoff pools)

-- snapshot
unfoldable pub snapshot : ℕ → ℕ → Dict PoolHistory → List PoolHealth
snapshot now window pools =
    let w = if window == 0 || ltb node_history_window window then node_history_window else window in
    sort (λ a b. str_le (join "," a.masters) (join "," b.masters)) (snapshot_pools (now - w) pools)
