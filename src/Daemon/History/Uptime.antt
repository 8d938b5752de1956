-- ===== src/Daemon/History/Uptime.antt =====
-- What the statistics of poolStats in daemon/nodehistory.go say of a member's samples.
use em_xray.Daemon.History.{
  HealthState, HealthRound, NodeSample, hs_none, hs_alive, hs_dead, known_from,
}
use native.Mathlib.Nat.{div-le_of_le-mul}
use em_xray.Prelude.{
  ℕ, suc, ◌+◌, String, Option, List, ◌∷◌, Bool, ◌≡◌, arith, ◌≤◌, ◌<◌, get, if◌then◌else◌, true,
  count, length, some, false, length-append, none, [], refl, ◌*◌, ◌/◌, ltb, pos, map, negsuc,
  if_elim,
}
use em_xray.Daemon.History.Stats.{
  Tally, tally_sample, tally_rounds, node_stats, is_flip, no_tally, uptime_of, NodeHealth,
  pool_stats, is_flipped, churn_of, is_observed,
}

-- The states that count: alive and dead, in the order of the rounds.
abbrev keep_judged : HealthState → List HealthState → List HealthState
keep_judged hs_alive l = hs_alive ∷ l
keep_judged hs_dead l = hs_dead ∷ l
keep_judged _ l = l

abbrev judged_sample : Option NodeSample → List HealthState → List HealthState
judged_sample none l = l
judged_sample (some s) l = keep_judged s.state l

unfoldable pub judged : String → List HealthRound → List HealthState
judged k [] = []
judged k (r ∷ rounds) = judged_sample (get r.nodes k) (judged k rounds)

-- How often two states in a row differ, from a state before them.
unfoldable pub changes : HealthState → List HealthState → ℕ
changes s [] = 0
changes s (n ∷ l) = let rest = changes n l in if is_flip s n then suc rest else rest

abbrev pub is_alive_state : HealthState → Bool
is_alive_state hs_alive = true
is_alive_state _ = false

-- What a tally is after some rounds, from what it was.
record Sums (k : String) (rounds : List HealthRound) (t t' : Tally) : Type 0 where
  alive : t'.alive ≡ t.alive + count is_alive_state (judged k rounds)
  judged_all : t'.alive + t'.dead ≡ t.alive + t.dead + length (judged k rounds)
  flips : t'.flips ≡ t.flips + changes t.last (judged k rounds)
  states : length t'.states ≡ length t.states + length rounds

tally_sample-Sums :
    (k : String) (r : HealthRound) (rounds : List HealthRound) (o : Option NodeSample)
    (t t' : Tally)
    → get r.nodes k ≡ o
    → Sums k rounds (tally_sample o t) t'
    → Sums k (r ∷ rounds) t t'
unfolding tally_sample judged changes
tally_sample-Sums k r rounds none t t' e h = ground (arith, length-append t.states (hs_none ∷ []))
tally_sample-Sums k r rounds (some s) t t' e h =
    ground (arith, length-append t.states (s.state ∷ []))

tally_rounds-Sums :
    (k : String) (rounds : List HealthRound) (t : Tally) → Sums k rounds t (tally_rounds k rounds t)
unfolding tally_rounds judged changes
tally_rounds-Sums k [] t = ground arith
tally_rounds-Sums k (r ∷ rounds) t =
    tally_sample-Sums k r rounds (get r.nodes k) t _ refl
      (tally_rounds-Sums k rounds (tally_sample (get r.nodes k) t))

-- A member's flips are the changes between its alive and dead states in a row: rounds in which it is
-- unknown, parked or absent, or the uplink is down, neither count nor separate.
pub flips-changes :
    (k : String) (r : HealthRound) (rounds : List HealthRound)
    → (node_stats r rounds k).flips ≡ changes hs_none (judged k (r ∷ rounds))
unfolding node_stats
flips-changes k r rounds = omega (arith, tally_rounds-Sums k (r ∷ rounds) no_tally)

changes-le-length : (s : HealthState) (l : List HealthState) → changes s l ≤ length l
unfolding changes
changes-le-length s [] = omega arith
changes-le-length s (n ∷ l) = ground (arith, changes-le-length n l)

changes_fresh : (l : List HealthState) → 0 < length l → changes hs_none l < length l
unfolding changes is_flip
changes_fresh [] h = absurd (omega arith)
changes_fresh (n ∷ l) h = omega (arith, changes-le-length n l)

-- A member's flips stay below the number of rounds that judged it, if there is one.
pub flips-lt-judged :
    (k : String) (r : HealthRound) (rounds : List HealthRound)
    → 0 < length (judged k (r ∷ rounds))
    → (node_stats r rounds k).flips < length (judged k (r ∷ rounds))
flips-lt-judged k r rounds h =
    omega (arith, flips-changes k r rounds, changes_fresh (judged k (r ∷ rounds)) h)

share_bound : (a b : ℕ) → a ≤ b → a * 100 / b ≤ 100
share_bound a b le = omega (arith, div-le_of_le-mul b {m = a * 100} {n = 100} (omega arith))

-- The share of the alive rounds among those that judged the member, -1 if there is none.
pub uptime_share :
    (k : String) (r : HealthRound) (rounds : List HealthRound)
    → (node_stats r rounds k).uptime_pct ≡ (
        if ltb 0 (length (judged k (r ∷ rounds)))
        then pos
            (count is_alive_state (judged k (r ∷ rounds)) * 100 / length (judged k (r ∷ rounds)))
        else negsuc 0)
unfolding node_stats uptime_of
uptime_share k r rounds =
    let h = tally_rounds-Sums k (r ∷ rounds) no_tally in
    let t = tally_rounds k (r ∷ rounds) no_tally in
    let alive : t.alive ≡ count is_alive_state (judged k (r ∷ rounds)) = omega arith in
    let all : t.alive + t.dead ≡ length (judged k (r ∷ rounds)) = omega arith in
    rw (uptime_of, all, alive)

count_mono : (ns : List NodeHealth) → count is_flipped ns ≤ count is_observed ns
count_mono [] = omega arith
count_mono (n ∷ ns) = ground (arith, count_mono ns)

-- The churn of a pool is a percentage.
pub churn_bound :
    (key : String) (masters : List String) (r : HealthRound) (rounds : List HealthRound)
    → (pool_stats key masters r rounds).churn_pct ≤ 100
unfolding pool_stats churn_of
churn_bound key masters r rounds =
    let ns = map (node_stats r rounds) (known_from (r ∷ rounds) []) in
    if_elim (λ c. c ≤ 100) (ltb 0 (count is_observed ns))
      (λ _. share_bound (count is_flipped ns) (count is_observed ns) (count_mono ns))
      (λ _. omega arith)
