-- ===== src/Daemon/History/Window.antt =====
-- The window of a pool's rounds in daemon/nodehistory.go: trim and what record keeps.
use mathlib.Core.Path.{subst}
use mathlib.Core.Bool.{false≢true}
use em_xray.Prelude.{
  ℕ, List, ◌-◌, ◌≤◌, ◌∷◌, arith, ◌≡◌, Bool-cases, Bool, [], ◌++◌, ltb, Dict, inl, inr, ltb→le, refl,
  String, get, some, Option-cases, str_eq, keep_if, true, eq_iff, if◌then◌else◌, false, sym, none,
  put, ◌∙◌, if_elim, get-put,
}
use em_xray.Daemon.History.{
  HealthRound, PoolHistory, trim_rounds, record_pool, node_history_window, round_of, NodeStatus,
  Slot, record_slots, pool_of, record_poll, pool_loaded, uplink_down,
}

-- The rounds are in the order of their times, all from a first time on and none after a last.
abbrev pub IsBetween : ℕ → ℕ → List HealthRound → Type 0
IsBetween lo hi [] = Unit
IsBetween lo hi (r ∷ rounds) = (lo ≤ r.at) × (r.at ≤ hi) × IsBetween r.at hi rounds

IsBetween-widen :
    (lo lo' hi hi' : ℕ) (rounds : List HealthRound)
    → lo' ≤ lo
    → hi ≤ hi'
    → IsBetween lo hi rounds
    → IsBetween lo' hi' rounds
IsBetween-widen lo lo' hi hi' [] a b h = tt
IsBetween-widen lo lo' hi hi' (r ∷ rounds) a b h =
    (omega arith, omega arith, IsBetween-widen r.at r.at hi hi' rounds (omega arith) b h.2)

IsBetween-append :
    (lo hi now : ℕ) (rounds : List HealthRound) (r : HealthRound)
    → IsBetween lo hi rounds
    → lo ≤ now
    → hi ≤ now
    → r.at ≡ now
    → IsBetween lo now (rounds ++ (r ∷ []))
IsBetween-append lo hi now [] r h a b e = (omega arith, omega arith, tt)
IsBetween-append lo hi now (n ∷ rounds) r h a b e =
    (omega arith, omega arith, IsBetween-append n.at hi now rounds r h.2 (omega arith) b e)

trim_rounds-IsBetween :
    (cutoff lo hi : ℕ) (rounds : List HealthRound)
    → IsBetween lo hi rounds
    → IsBetween cutoff hi (trim_rounds cutoff rounds)
unfolding trim_rounds
trim_rounds-IsBetween cutoff lo hi [] h = tt
trim_rounds-IsBetween cutoff lo hi (r ∷ rounds) h = elim (Bool-cases (ltb r.at cutoff)) [
  | inl old ↦ rw (old, trim_rounds) (trim_rounds-IsBetween cutoff r.at hi rounds h.2)
  | inr new ↦ rw (new, trim_rounds) (ltb→le r.at cutoff new, h.1, h.2)
]

-- A pool's history lies within the window that ends at a time.
abbrev pub IsWindowed : ℕ → PoolHistory → Type 0
IsWindowed now ph = IsBetween (now - node_history_window) now ph.rounds

-- A history whose rounds are in order and none after a time.
abbrev IsPast : ℕ → PoolHistory → Type 0
IsPast now ph = IsBetween 0 now ph.rounds

-- What holds of the history of one key, if there is one.
abbrev Holds : (PoolHistory → Type 0) → String → Dict PoolHistory → Type 0
Holds P k pools = (ph : PoolHistory) → get pools k ≡ some ph → P ph

module _ (now : ℕ) (down : Bool) (by_tag : Dict NodeStatus) (parked : Dict ℕ) (k : String) where
  record_pool-IsWindowed :
      (sl : Slot) (ph : PoolHistory)
      → IsPast now ph
      → IsWindowed now (record_pool now down by_tag parked sl ph)
  unfolding record_pool round_of
  record_pool-IsWindowed sl ph h =
      trim_rounds-IsBetween (now - node_history_window) 0 now
        (ph.rounds ++ (round_of now down by_tag parked sl ph ∷ []))
        (IsBetween-append 0 now now ph.rounds _ h (omega arith) (omega arith) refl)

  pool_of-IsPast :
      (pools : Dict PoolHistory) (j : String)
      → Holds (IsPast now) j pools
      → IsPast now (pool_of pools j)
  unfolding pool_of
  pool_of-IsPast pools j h = elim (Option-cases (get pools j)) [
    | inl e ↦ rw (e, pool_of) tt
    | inr (ph, e) ↦ rw (e, pool_of) (h ph e)
  ]

  IsWindowed-IsPast : (ph : PoolHistory) → IsWindowed now ph → IsPast now ph
  IsWindowed-IsPast ph h =
      IsBetween-widen (now - node_history_window) 0 now now ph.rounds (omega arith) (omega arith) h

  -- One slot's turn: the pool of its key is within the window, the others are as they were.
  put-Holds :
      (P : PoolHistory → Type 0) (j : String) (ph : PoolHistory) (pools : Dict PoolHistory)
      → (str_eq j k ≡ true → P ph)
      → (str_eq j k ≡ false → Holds P k pools)
      → Holds P k (put pools j ph)
  put-Holds P j ph pools new old found e =
      if_elim (λ o. o ≡ some found → P found) (str_eq j k)
        (λ same q. let same_ph : ph ≡ found = cc in subst P same_ph (new same))
        (λ other q. old other found q) (sym (get-put pools j k ph) ∙ e)

  record_slots_keeps :
      (slots : List Slot) (pools : Dict PoolHistory)
      → Holds (IsWindowed now) k pools
      → Holds (IsWindowed now) k (record_slots now down by_tag parked slots pools)
  unfolding record_slots
  record_slots_keeps [] pools h = h
  record_slots_keeps (sl ∷ slots) pools h = record_slots_keeps slots _ (
      put-Holds (IsWindowed now) sl.key _ pools
        (λ same. record_pool-IsWindowed sl (pool_of pools sl.key) (
          pool_of-IsPast pools sl.key λ ph e.
            IsWindowed-IsPast ph
              (h ph (subst (λ i. get pools i ≡ some ph) ((eq_iff sl.key k).0 same) e))))
        (λ _. h))

  record_slots-IsWindowed :
      (slots : List Slot) (pools : Dict PoolHistory)
      → Holds (IsPast now) k pools
      → pool_loaded slots k ≡ true
      → Holds (IsWindowed now) k (record_slots now down by_tag parked slots pools)
  unfolding record_slots pool_loaded
  record_slots-IsWindowed [] pools h loaded = absurd (false≢true loaded)
  record_slots-IsWindowed (sl ∷ slots) pools h loaded = elim (Bool-cases (str_eq sl.key k)) [
    | inl same ↦
        let at_key : Holds (IsPast now) sl.key pools =
          subst (λ i. Holds (IsPast now) i pools) (sym ((eq_iff sl.key k).0 same)) h in
        record_slots_keeps slots _ (
          put-Holds (IsWindowed now) sl.key _ pools
            (λ _.
              record_pool-IsWindowed sl (pool_of pools sl.key) (pool_of-IsPast pools sl.key at_key))
            (λ other. absurd (false≢true (sym other ∙ same))))
    | inr other ↦
        record_slots-IsWindowed slots _
          (put-Holds (IsPast now) sl.key _ pools (λ same. absurd (false≢true (sym other ∙ same)))
            (λ _. h))
          (rw other at loaded)
  ]

get-keep_if :
    (q : String → Bool) (pools : Dict PoolHistory) (k : String)
    → get (keep_if (λ j _. q j) pools) k ≡ (if q k then get pools k else none)
unfolding get keep_if
get-keep_if q [] k = ground arith
get-keep_if q ((j, ph) ∷ pools) k = ground (arith, eq_iff j k, get-keep_if q pools k)

-- One poll: from histories in order and not after the poll, every pool's rounds are in order and within
-- the last nodeHistoryWindow, and a pool that is not loaded has no history.
pub record_poll-IsWindowed :
    (now : ℕ) (slots : List Slot) (by_tag : Dict NodeStatus) (parked : Dict ℕ)
    (pools : Dict PoolHistory) (k : String)
    → ((ph : PoolHistory) → get pools k ≡ some ph → IsBetween 0 now ph.rounds)
    → (ph : PoolHistory) → get (record_poll now slots by_tag parked pools) k ≡ some ph
    → (pool_loaded slots k ≡ true) × IsWindowed now ph
unfolding record_poll
record_poll-IsWindowed now slots by_tag parked pools k past ph found =
    let after = record_slots now (uplink_down by_tag slots) by_tag parked slots pools in
    if_elim (λ o. o ≡ some ph → (pool_loaded slots k ≡ true) × IsWindowed now ph)
      (pool_loaded slots k)
      (λ loaded e. (
        loaded,
        record_slots-IsWindowed now (uplink_down by_tag slots) by_tag parked k slots pools past
            loaded ph e,
      ))
      (λ _ e. cc) (sym (get-keep_if (pool_loaded slots) after k) ∙ found)
