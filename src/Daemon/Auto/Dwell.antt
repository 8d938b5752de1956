-- ===== src/Daemon/Auto/Dwell.antt =====
-- When a pool on auto is agile: the hysteresis of evaluate in daemon/autostrategy.go.
use em_xray.Prelude.{
  ℕ, ◌-◌, Bool, false, List, Option, none, ◌≡◌, ◌<◌, some, ◌∷◌, if◌then◌else◌, ◌≤◌, ltb, arith, [],
  true, refl,
}
use em_xray.Daemon.Auto.{AutoState, judge}

-- One poll's judgement of a pool.
pub record Judgement : Type 0 where
  pub now : ℕ
  pub flappy : Bool

abbrev stable_from : ℕ → AutoState
stable_from t = record { agile = false; since = t; last_flappy = 0 }

-- The state of a pool after some judgements, the latest first; the pool is new at the oldest.
unfoldable pub after_judgements : ℕ → ℕ → List Judgement → AutoState
after_judgements calm start [] = stable_from start
after_judgements calm start (j ∷ js) =
    (judge j.now calm j.flappy (after_judgements calm start js)).0

-- The time of the latest judgement that found the pool flapping.
pub latest_flappy : List Judgement → Option ℕ
latest_flappy [] = none
latest_flappy (j ∷ js) = if j.flappy then some j.now else latest_flappy js

-- Each judgement is no earlier than the one before it.
abbrev pub IsOrdered : List Judgement → Type 0
IsOrdered [] = Unit
IsOrdered (j ∷ []) = Unit
IsOrdered (j ∷ i ∷ js) = (i.now ≤ j.now) × IsOrdered (i ∷ js)

-- Agile as of a time: the pool flapped less than the calm time ago.
abbrev pub flapped_within : ℕ → ℕ → Option ℕ → Bool
flapped_within calm now none = false
flapped_within calm now (some t) = ltb (now - t) calm

-- What a state says of the judgements behind it.
record Reflects (calm : ℕ) (now : ℕ) (o : Option ℕ) (st : AutoState) : Type 0 where
  mode : st.agile ≡ flapped_within calm now o
  last : (t : ℕ) → o ≡ some t → st.last_flappy ≡ t

judge-Reflects :
    (calm was now : ℕ) (flappy : Bool) (o : Option ℕ) (st : AutoState)
    → 0 < calm
    → was ≤ now
    → Reflects calm was o st
    → Reflects calm now (if flappy then some now else o) (judge now calm flappy st).0
unfolding judge
judge-Reflects calm was now true o st c le h = record {
  mode = ground arith;
  last = λ t e. ground arith;
}
judge-Reflects calm was now false none st c le h = record { mode = ground arith; last = λ t e. cc }
judge-Reflects calm was now false (some f) st c le h =
    let last : st.last_flappy ≡ f = h.last f refl in
    record { mode = ground arith; last = λ t e. ground arith }

after_judgements-Reflects :
    (calm start : ℕ) (j : Judgement) (js : List Judgement)
    → 0 < calm
    → IsOrdered (j ∷ js)
    → Reflects calm j.now (latest_flappy (j ∷ js)) (after_judgements calm start (j ∷ js))
unfolding after_judgements latest_flappy
after_judgements-Reflects calm start j [] c ordered =
    judge-Reflects calm j.now j.now j.flappy none (stable_from start) c (omega arith)
      (record { mode = refl; last = λ t e. cc })
after_judgements-Reflects calm start j (i ∷ js) c ordered =
    judge-Reflects calm i.now j.now j.flappy (latest_flappy (i ∷ js))
      (after_judgements calm start (i ∷ js)) c ordered.0
      (after_judgements-Reflects calm start i js c ordered.1)

-- After any judgements in the order of time, with a calm time that is not 0, a pool is agile exactly if
-- the latest one that found it flapping is less than the calm time ago.
pub after_judgements_agile :
    (calm start : ℕ) (j : Judgement) (js : List Judgement)
    → 0 < calm
    → IsOrdered (j ∷ js)
    → (after_judgements calm start (j ∷ js)).agile
      ≡ flapped_within calm j.now (latest_flappy (j ∷ js))
after_judgements_agile calm start j js c ordered =
    (after_judgements-Reflects calm start j js c ordered).mode
