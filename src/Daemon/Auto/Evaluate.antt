-- ===== src/Daemon/Auto/Evaluate.antt =====
-- What one poll's evaluate in daemon/autostrategy.go does to the state of each pool.
use em_xray.Prelude.{
  ℕ, ◌*◌, String, Dict, Bool, str_eq, List, get, ◌≡◌, if◌then◌else◌, ◌&&◌, holds, some, Bool-cases,
  inl, eq_iff, inr, Option, arith, none, get-put, count, true, ◌∷◌, [], refl, false, ◌∙◌, keep_if,
  ap, ◌≤◌, ◌⊎◌,
}
use em_xray.Daemon.Clock.{minute}
use em_xray.Daemon.Auto.{
  AutoState, judge, PoolHealth, AutoTuning, flapping, evaluate_window, auto_state_of, AutoEvent,
  evaluate_windows, evaluate,
}

abbrev pub has_key : String → PoolHealth → Bool
has_key k p = str_eq p.key k

-- The window of a pool among those of a poll.
pub window_of : String → List PoolHealth → Option PoolHealth
window_of k [] = none
window_of k (p ∷ windows) = if has_key k p then some p else window_of k windows

module _ (now : ℕ) (auto : Dict Bool) (t : AutoTuning) (k : String) where
  abbrev judged_as : PoolHealth → Dict AutoState → AutoState
  judged_as p pools = (judge now (t.calm_min * minute) (flapping p t) (auto_state_of now pools k)).0

  get-evaluate_window :
      (p : PoolHealth) (s : Dict AutoState × List AutoEvent)
      → get (evaluate_window now auto t p s).0 k
        ≡ (if has_key k p && holds auto k then some (judged_as p s.0) else get s.0 k)
  unfolding evaluate_window
  get-evaluate_window p (pools, events) = ground (
    arith,
    eq_iff p.key k,
    get-put pools p.key k
        (judge now (t.calm_min * minute) (flapping p t) (auto_state_of now pools p.key)).0,
  )

  get-evaluate_windows_off :
      (windows : List PoolHealth) (s : Dict AutoState × List AutoEvent)
      → holds auto k ≡ false
      → get (evaluate_windows now auto t windows s).0 k ≡ get s.0 k
  unfolding evaluate_windows
  get-evaluate_windows_off [] s h = refl
  get-evaluate_windows_off (p ∷ windows) s h = ground (
    arith,
    get-evaluate_window p s,
    get-evaluate_windows_off windows (evaluate_window now auto t p s),
  )

  get-evaluate_windows_other :
      (windows : List PoolHealth) (s : Dict AutoState × List AutoEvent)
      → count (has_key k) windows ≡ 0
      → get (evaluate_windows now auto t windows s).0 k ≡ get s.0 k
  unfolding evaluate_windows
  get-evaluate_windows_other [] s h = refl
  get-evaluate_windows_other (p ∷ windows) s h = ground (
    arith,
    get-evaluate_window p s,
    get-evaluate_windows_other windows (evaluate_window now auto t p s),
  )

  auto_state_of_eq :
      (start : ℕ) (pools pools' : Dict AutoState)
      → get pools k ≡ get pools' k
      → auto_state_of start pools k ≡ auto_state_of start pools' k
  unfolding auto_state_of
  auto_state_of_eq start pools pools' h = ground arith

  get-evaluate_windows :
      (windows : List PoolHealth) (s : Dict AutoState × List AutoEvent) (p : PoolHealth)
      → holds auto k ≡ true
      → count (has_key k) windows ≡ 1
      → window_of k windows ≡ some p
      → get (evaluate_windows now auto t windows s).0 k ≡ some (judged_as p s.0)
  unfolding evaluate_windows window_of
  get-evaluate_windows [] s p a one found = absurd (omega arith)
  get-evaluate_windows (q ∷ windows) s p a one found = elim (Bool-cases (has_key k q)) [
    | inl here ↦
        let rest : count (has_key k) windows ≡ 0 = ground arith in
        let same : q ≡ p = ground arith in
        get-evaluate_windows_other windows (evaluate_window now auto t q s) rest
        ∙ get-evaluate_window q s
        ∙ rw (here, a) (ap (λ r. some (judged_as r s.0)) same)
    | inr later ↦
        let rest : count (has_key k) windows ≡ 1 = ground arith in
        let at : window_of k windows ≡ some p = ground arith in
        get-evaluate_windows windows (evaluate_window now auto t q s) p a rest at
        ∙ ap (λ st. some (judge now (t.calm_min * minute) (flapping p t) st).0)
            (auto_state_of_eq now (evaluate_window now auto t q s).0 s.0
              (get-evaluate_window q s ∙ rw later))
  ]

  get-keep_auto :
      (pools : Dict AutoState)
      → get (keep_if (λ j st. holds auto j) pools) k ≡ (if holds auto k then get pools k else none)
  unfolding get keep_if
  get-keep_auto [] = ground arith
  get-keep_auto ((j, st) ∷ pools) = ground (arith, eq_iff j k, get-keep_auto pools)

  -- The state after a poll that judged the pool by a window, or did not judge it.
  abbrev pub judged_by : Option PoolHealth → Dict AutoState → Option AutoState
  judged_by none pools = get pools k
  judged_by (some p) pools = some (judged_as p pools)

  window_of_one :
      (windows : List PoolHealth)
      → count (has_key k) windows ≤ 1
      → (window_of k windows ≡ none) × (count (has_key k) windows ≡ 0)
        ⊎ (p : PoolHealth) × (window_of k windows ≡ some p) × (count (has_key k) windows ≡ 1)
  unfolding window_of
  window_of_one [] h = inl (refl, refl)
  window_of_one (p ∷ windows) h = elim (Bool-cases (has_key k p)) [
    | inl here ↦ inr (p, rw here, ground arith)
    | inr later ↦ rw later (window_of_one windows (rw later at h))
  ]

  -- What one poll does to a pool that has one window at most: on auto, it is judged by the window from
  -- the state that it had, and without a window it keeps that state; not on auto, it is forgotten.
  pub get-evaluate :
      (windows : List PoolHealth) (pools : Dict AutoState)
      → count (has_key k) windows ≤ 1
      → get (evaluate now windows auto t pools).0 k
        ≡ (if holds auto k then judged_by (window_of k windows) pools else none)
  unfolding evaluate
  get-evaluate windows pools h =
      let kept : Dict AutoState = keep_if (λ j st. holds auto j) pools in
      elim (Bool-cases (holds auto k)) [
        | inr off ↦ get-evaluate_windows_off windows (kept, []) off ∙ get-keep_auto pools ∙ rw off
        | inl on ↦ elim (window_of_one windows h) [
          | inl (no_window, none_here) ↦
              get-evaluate_windows_other windows (kept, []) none_here
              ∙ get-keep_auto pools
              ∙ rw (on, no_window)
          | inr (p, found, one) ↦
              get-evaluate_windows windows (kept, []) p on one found
              ∙ rw (on, found)
                  (ap (λ st. some (judge now (t.calm_min * minute) (flapping p t) st).0)
                    (auto_state_of_eq now kept pools (get-keep_auto pools ∙ rw on)))
        ]
      ]
