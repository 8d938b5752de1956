-- ===== src/Daemon/Parker/Release.antt =====
-- The end of a park in daemon/nodepark.go: release and unpark.
use em_xray.Prelude.{
  ℕ, String, Bool, true, false, ◌&&◌, not, List, [], ◌∷◌, Option, none, some, Dict, get, delete,
  sort, str_le, ltb, ◌==◌, if◌then◌else◌, ◌≡◌, AllValues, length, contains, arith, ◌⊎◌, count, ◌<◌,
  get-delete, refl, length-sort, ◌∙◌,
}
use mathlib.Core.Option
use em_xray.Daemon.Parker.{ParkState, ParkEvent, parked_keys}

-- A park whose time is up.
unfoldable pub is_due : ℕ → ParkState → Bool
is_due now st = not (st.parked_until == 0) && not (ltb now st.parked_until)

abbrev pub on_trial_again : ParkState → ParkState
on_trial_again st = record st { parked_until = 0; on_trial = true; dead_since = 0 }

unfoldable pub release_states : ℕ → Dict ParkState → Dict ParkState
unfolding is_due
release_states now [] = []
release_states now ((k, st) ∷ nodes) =
    (k, if is_due now st then on_trial_again st else st) ∷ release_states now nodes

unfoldable pub release_events : ℕ → Dict ParkState → List ParkEvent
unfolding is_due
release_events now [] = []
release_events now ((k, st) ∷ nodes) =
    let rest = release_events now nodes in
    if is_due now st then record { key = k; parked = false; for_ = 0 } ∷ rest else rest

-- release: the new nodes, and the events in the order of their keys
unfoldable pub release : ℕ → Dict ParkState → Dict ParkState × List ParkEvent
unfolding release_states release_events
release now nodes =
    (release_states now nodes, sort (λ a b. str_le a.key b.key) (release_events now nodes))

-- Whether a state is parked at `now`.
unfoldable pub is_parked_at : ℕ → Option ParkState → Bool
is_parked_at now none = false
is_parked_at now (some st) = ltb now st.parked_until

-- unpark: the new nodes, and the keys that were parked
unfoldable pub unpark : ℕ → List String → Dict ParkState → Dict ParkState × List String
unfolding is_parked_at
unpark now [] nodes = (nodes, [])
unpark now (k ∷ keys) nodes =
    let rest = unpark now keys (delete nodes k) in
    (rest.0, if is_parked_at now (get nodes k) then k ∷ rest.1 else rest.1)

-- What release does to the state of one key.
pub get-release :
    (now : ℕ) (nodes : Dict ParkState) (k : String)
    → get (release_states now nodes) k
      ≡ Option.map (λ st. if is_due now st then on_trial_again st else st) (get nodes k)
unfolding release_states get
get-release now [] k = refl
get-release now ((j, st) ∷ nodes) k = ground (arith, get-release now nodes k)

-- A release leaves the set of parked keys, with their times, as it is: it only ends parks that are
-- over, and puts those nodes on trial.
pub parked_keys-release :
    (now : ℕ) (nodes : Dict ParkState)
    → parked_keys now (release now nodes).0 ≡ parked_keys now nodes
unfolding release parked_keys release_states is_due
parked_keys-release now [] = refl
parked_keys-release now ((k, st) ∷ nodes) = ground (arith, parked_keys-release now nodes)

-- A state that is parked into the future, or not at all.
abbrev pub IsSettled : ℕ → ParkState → Type 0
IsSettled now st = (st.parked_until ≡ 0) ⊎ (now < st.parked_until)

-- After a release no park is over and still held: a state is parked into the future or not at all.
pub release-IsSettled :
    (now : ℕ) (nodes : Dict ParkState) → AllValues (IsSettled now) (release now nodes).0
unfolding release release_states is_due
release-IsSettled now [] = tt
release-IsSettled now ((k, st) ∷ nodes) = (ground arith, release-IsSettled now nodes)

length-events :
    (now : ℕ) (nodes : Dict ParkState)
    → length (release_events now nodes) ≡ count (λ e. is_due now e.1) nodes
unfolding release_events is_due
length-events now [] = refl
length-events now ((k, st) ∷ nodes) = ground (arith, length-events now nodes)

-- There is one event for each park that is over.
pub length-release_events :
    (now : ℕ) (nodes : Dict ParkState)
    → length (release now nodes).1 ≡ count (λ e. is_due now e.1) nodes
unfolding release
length-release_events now nodes = length-sort _ (release_events now nodes) ∙ length-events now nodes

-- After an unpark none of its keys has a state, and every other key keeps its own.
pub get-unpark :
    (now : ℕ) (keys : List String) (nodes : Dict ParkState) (j : String)
    → get (unpark now keys nodes).0 j ≡ (if contains keys j then none else get nodes j)
unfolding unpark contains
get-unpark now [] nodes j = refl
get-unpark now (k ∷ keys) nodes j =
    ground (arith, get-unpark now keys (delete nodes k) j, get-delete nodes k j)
