-- ===== src/Daemon/Picker/Stable/Kept.antt =====
-- What the picked candidates of daemon/nodepick.go inherit from all of them.
use em_xray.Daemon.Picker.Stable.{until_failed, spares_of, is_failed, head_failed}
use em_xray.Daemon.Picker.{Floats}
use em_xray.Daemon.Picker.Rank.{Cand}
use em_xray.Prelude.{ℕ, zero, suc, List, [], ◌∷◌, All, take, drop, if_elim}

module _ {F : Type 0} (fl : Floats F) where
  -- The picked candidates keep what holds of all.
  pub All-take : (P : Cand F → Type 0) (n : ℕ) (cs : List (Cand F)) → All P cs → All P (take n cs)
  All-take P zero cs h = tt
  All-take P (suc n) [] h = tt
  All-take P (suc n) (c ∷ cs) h = (h.0, All-take P n cs h.1)

  All-drop : (P : Cand F → Type 0) (n : ℕ) (cs : List (Cand F)) → All P cs → All P (drop n cs)
  All-drop P zero cs h = h
  All-drop P (suc n) [] h = tt
  All-drop P (suc n) (c ∷ cs) h = All-drop P n cs h.1

  All-until_failed :
      (P : Cand F → Type 0) (cs : List (Cand F)) → All P cs → All P (until_failed fl cs)
  unfolding until_failed
  All-until_failed P [] h = tt
  All-until_failed P (c ∷ cs) h =
      let rest = All-until_failed P cs h.1 in
      if_elim (λ (xs : List (Cand F)). All P xs) (is_failed fl c) (λ _. tt) (λ _. (h.0, rest))

  pub All-spares :
      (P : Cand F → Type 0) (active : ℕ) (cs : List (Cand F))
      → All P cs
      → All P (spares_of fl active cs)
  unfolding spares_of
  All-spares P active cs h =
      if_elim (λ (xs : List (Cand F)). All P xs) (head_failed fl cs) (λ _. All-drop P active cs h)
        (λ _. All-until_failed P (drop active cs) (All-drop P active cs h))
