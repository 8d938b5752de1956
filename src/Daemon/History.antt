-- ===== src/Daemon/History.antt =====
-- Pool health history: nodeHistory of daemon/nodehistory.go. Delays are whole milliseconds below
-- 2 ^ 31, on which the source's conversion to int32 is the identity.
pub mod Stats
pub mod Window
pub mod Uptime
pub mod Loss
use em_xray.Daemon.Uplink.{sample_of, uplink_down}
use em_xray.Daemon.Parker.{NodeStatus}
use em_xray.Xray.Slot.{Slot, active_keys, picked_keys, SlotMember, is_ranked, slot_masters}
use em_xray.Prelude.{
  ℕ, ◌-◌, ◌*◌, String, Bool, true, false, ◌&&◌, ◌||◌, not, List, [], ◌∷◌, ◌++◌, Dict, Option, ltb,
  put, get, if◌then◌else◌, str_eq, contains, is_some, keep_if, some, none,
}
use em_xray.Daemon.Clock.{minute, second}

abbrev pub node_history_window : ℕ
node_history_window = 30 * minute

abbrev pub node_health_poll_interval : ℕ
node_health_poll_interval = 10 * second

-- healthState
pub data HealthState : Type 0 where
  hs_none hs_unknown hs_alive hs_dead hs_parked hs_uplink_down : HealthState

-- healthRole
pub data HealthRole : Type 0 where
  role_idle role_active role_spare : HealthRole

-- nodeSample
pub record NodeSample : Type 0 where
  pub state : HealthState
  pub role : HealthRole
  pub rtt_ms : ℕ

-- healthRound
pub record HealthRound : Type 0 where
  pub at : ℕ
  pub uplink_down : Bool
  pub ranked : Bool
  pub nodes : Dict NodeSample

-- poolHistory
pub record PoolHistory : Type 0 where
  pub masters : List String
  pub strategy : String
  pub auto : Bool
  pub rounds : List HealthRound

-- &poolHistory{}
abbrev pub no_history : PoolHistory
no_history = record { masters = []; strategy = ""; auto = false; rounds = [] }

-- roles[k] = role for every key of a set
unfoldable pub set_roles : HealthRole → Dict Bool → Dict HealthRole → Dict HealthRole
set_roles role [] roles = roles
set_roles role ((k, b) ∷ keys) roles = set_roles role keys (put roles k role)

-- Active for any master on the pool beats spare for another.
unfoldable pub slot_roles : Slot → Dict HealthRole
slot_roles sl = set_roles role_active (active_keys sl) (set_roles role_spare (picked_keys sl) [])

-- roles[m.Key], the zero value where there is none
unfoldable pub role_of : Dict HealthRole → String → HealthRole
role_of roles k = elim (get roles k) [ some role ↦ role | none ↦ role_idle ]

-- A loaded member's sample of this poll.
unfoldable pub sample_member : Bool → Option NodeStatus → HealthRole → NodeSample
sample_member down none role = record { state = hs_unknown; role = role; rtt_ms = 0 }
sample_member down (some st) role =
    if st.alive
    then record { state = hs_alive; role = role; rtt_ms = st.delay }
    else record { state = if down then hs_uplink_down else hs_dead; role = role; rtt_ms = 0 }

unfoldable pub sample_members :
    Bool
    → Dict NodeStatus
    → Slot
    → Dict HealthRole
    → List SlotMember
    → Dict NodeSample
    → Dict NodeSample
sample_members down by_tag sl roles [] nodes = nodes
sample_members down by_tag sl roles (m ∷ ms) nodes =
    sample_members down by_tag sl roles ms
      (put nodes m.key (sample_member down (sample_of by_tag sl m) (role_of roles m.key)))

-- The keys of one round, then of every round, each once.
unfoldable pub add_known : Dict NodeSample → List String → List String
add_known [] out = out
add_known ((k, s) ∷ nodes) out = add_known nodes (if contains out k then out else out ++ (k ∷ []))

unfoldable pub known_from : List HealthRound → List String → List String
known_from [] out = out
known_from (r ∷ rounds) out = known_from rounds (add_known r.nodes out)

-- knownKeys
unfoldable pub known_keys : PoolHistory → List String
known_keys ph = known_from ph.rounds []

abbrev pub parked_sample : NodeSample
parked_sample = record { state = hs_parked; role = role_idle; rtt_ms = 0 }

-- Members seen in this pool before and now parked stay on the strip.
unfoldable pub add_parked : Dict ℕ → List String → Dict NodeSample → Dict NodeSample
add_parked parked [] nodes = nodes
add_parked parked (k ∷ ks) nodes = add_parked parked ks (
    if not (is_some (get nodes k)) && is_some (get parked k)
    then put nodes k parked_sample
    else nodes)

-- trim: the leading rounds before the cutoff go
unfoldable pub trim_rounds : ℕ → List HealthRound → List HealthRound
trim_rounds cutoff [] = []
trim_rounds cutoff (r ∷ rounds) = elim (ltb r.at cutoff) [
  | true ↦ trim_rounds cutoff rounds
  | false ↦ r ∷ rounds
]

-- The round of one loaded pool.
unfoldable pub round_of : ℕ → Bool → Dict NodeStatus → Dict ℕ → Slot → PoolHistory → HealthRound
round_of now down by_tag parked sl ph = record {
  at = now;
  uplink_down = down;
  ranked = is_ranked sl;
  nodes =
      add_parked parked (known_keys ph)
        (sample_members down by_tag sl (slot_roles sl) sl.members []);
}

unfoldable pub record_pool : ℕ → Bool → Dict NodeStatus → Dict ℕ → Slot → PoolHistory → PoolHistory
record_pool now down by_tag parked sl ph = record {
  masters = slot_masters sl;
  strategy = sl.strategy;
  auto = sl.auto;
  rounds =
      trim_rounds (now - node_history_window)
        (ph.rounds ++ (round_of now down by_tag parked sl ph ∷ []));
}

-- ph := h.pools[key], a new one where there is none
unfoldable pub pool_of : Dict PoolHistory → String → PoolHistory
pool_of pools k = elim (get pools k) [ some ph ↦ ph | none ↦ no_history ]

unfoldable pub record_slots :
    ℕ → Bool → Dict NodeStatus → Dict ℕ → List Slot → Dict PoolHistory → Dict PoolHistory
record_slots now down by_tag parked [] pools = pools
record_slots now down by_tag parked (sl ∷ slots) pools =
    record_slots now down by_tag parked slots
      (put pools sl.key (record_pool now down by_tag parked sl (pool_of pools sl.key)))

-- Whether a loaded pool has the key.
unfoldable pub pool_loaded : List Slot → String → Bool
pool_loaded [] k = false
pool_loaded (sl ∷ slots) k = str_eq sl.key k || pool_loaded slots k

-- record
unfoldable pub record_poll :
    ℕ → List Slot → Dict NodeStatus → Dict ℕ → Dict PoolHistory → Dict PoolHistory
record_poll now slots by_tag parked pools =
    keep_if (λ k ph. pool_loaded slots k)
      (record_slots now (uplink_down by_tag slots) by_tag parked slots pools)
