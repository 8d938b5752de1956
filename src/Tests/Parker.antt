-- ===== src/Tests/Parker.antt =====
-- Runs of the parker of daemon/nodepark.go.
use em_xray.Daemon.Parker.Guards.{observe_slot-events_dead, parks-lt-members}
use em_xray.Xray.Tag.{slot_member_tag}
use em_xray.Daemon.Parker.Release.{release, is_due}
use em_xray.Prelude.{
  ℕ, String, false, true, [], Dict, ◌*◌, List, AllValues, length, get, ◌∷◌, put, ◌+◌, ◌≡◌, delete,
  ◌<◌, arith, some, refl, keep_if, is_some,
}
use em_xray.Daemon.Clock.{minute}
use em_xray.Daemon.Parker.{
  NodeStatus, ParkEvent, observe, count_alive, observe_slot, member_key, ParkState, fresh,
}
use em_xray.Xray.Slot.{Slot, SlotMember, never_parks}
use em_xray.Daemon.Parker.Invariant.{
  Call, after_calls, releasing, IsSound, observing, after_calls-IsSound,
}

abbrev dead : NodeStatus
dead = record { alive = false; delay = 0; all = 2; fail = 2 }

abbrev alive : NodeStatus
alive = record { alive = true; delay = 90; all = 2; fail = 0 }

abbrev member : String → SlotMember
member k = record { key = k; outbound = "{}" }

-- A pool of three nodes.
abbrev pool : Slot
pool = record {
  master = "m";
  aliases = [];
  key = "xraysub:s";
  index = 0;
  members = member "a" ∷ member "b" ∷ member "c" ∷ [];
  picked = [];
  active = 0;
  master_picks = [];
  strategy = "stable";
  auto = false;
  pinned = [];
}

-- Two dead nodes and a live one.
abbrev poll : Dict NodeStatus
poll = ("slot0-out-a", dead) ∷ ("slot0-out-b", dead) ∷ ("slot0-out-c", alive) ∷ []

abbrev outage : Dict NodeStatus
outage = ("slot0-out-a", dead) ∷ ("slot0-out-b", dead) ∷ ("slot0-out-c", dead) ∷ []

abbrev t0 : ℕ
t0 = 1000 * minute

-- Dead for a quarter of an hour: both dead nodes are parked at once.
abbrev marked : Dict ParkState
marked = ("a", record fresh { dead_since = t0 }) ∷ ("b", record fresh { dead_since = t0 }) ∷ []

abbrev park_a : ParkEvent
park_a = record { key = "a"; parked = true; for_ = 30 * minute }

abbrev park_b : ParkEvent
park_b = record { key = "b"; parked = true; for_ = 30 * minute }

first_poll : (observe t0 (pool ∷ []) poll []).0 ≡ marked
unfolding observe get put delete keep_if slot_member_tag never_parks member_key
first_poll = refl

second_poll : (observe (t0 + 15 * minute) (pool ∷ []) poll marked).1 ≡ park_a ∷ park_b ∷ []
unfolding observe get put delete keep_if slot_member_tag never_parks member_key
second_poll = refl

abbrev calls : List Call
calls =
    releasing (t0 + 50 * minute)
    ∷ observing (t0 + 15 * minute) (pool ∷ []) poll
    ∷ observing t0 (pool ∷ []) poll
    ∷ []

-- After the park both nodes are on trial.
trial : is_some (get (after_calls calls) "a") ≡ true
unfolding after_calls observe release get put delete keep_if slot_member_tag never_parks member_key
    is_due
trial = refl

after_calls-IsSound_example : AllValues IsSound (after_calls calls)
after_calls-IsSound_example = after_calls-IsSound calls

parks-lt-members_example : length (observe_slot (t0 + 15 * minute) poll pool (marked, [])).1 < 0 + 3
parks-lt-members_example = parks-lt-members (t0 + 15 * minute) poll pool marked [] (omega arith)

outage_counts : count_alive outage 0 pool.members ≡ 0
unfolding count_alive get slot_member_tag
outage_counts = refl

observe_slot-events_dead_example : (observe_slot (t0 + 15 * minute) outage pool (marked, [])).1 ≡ []
observe_slot-events_dead_example =
    observe_slot-events_dead (t0 + 15 * minute) outage pool marked [] outage_counts

marked-IsSound : AllValues IsSound marked
marked-IsSound = (ground arith, (ground arith, tt))

pool_parks : never_parks pool ≡ false
unfolding never_parks
pool_parks = refl

c_member : member_key "c" pool.members ≡ true
unfolding member_key
c_member = refl

c_polled : get poll (slot_member_tag 0 "c") ≡ some alive
unfolding get slot_member_tag
c_polled = refl

-- Parked until an hour after t0.
abbrev parked_a : ParkState
parked_a = record {
  dead_since = 0;
  parked_until = t0 + 60 * minute;
  park_for = 30 * minute;
  on_trial = false;
}

abbrev parked_b : ParkState
parked_b = record { dead_since = 0; parked_until = t0; park_for = 30 * minute; on_trial = false }

abbrev resting : Dict ParkState
resting = ("a", parked_a) ∷ ("b", parked_b) ∷ []
