-- ===== src/Xray/Ports/Range.antt =====
-- The search of nextFreePort in core/xray/ports.go.
use em_xray.Xray.Ports.{is_taken, free_port_from, next_free_port, port_end, port_start}
use em_xray.Prelude.{
  ℕ, zero, suc, List, true, false, ◌≡◌, ◌≤◌, inl, ◌<◌, Bool-cases, arith, ◌-◌, ◌+◌, ◌==◌, inr, ◌⊎◌,
  ap, sym, refl, ◌∙◌,
}

-- What the search from p over `left` ports gives: 0 if they are all taken, and otherwise the first
-- free one.
abbrev pub Found : ℕ → ℕ → List ℕ → ℕ → Type 0
Found left p used q =
    (q ≡ 0) × ((k : ℕ) → p ≤ k → k < p + left → is_taken used k ≡ true)
    ⊎ (p ≤ q)
      × (q < p + left)
      × (is_taken used q ≡ false)
      × ((k : ℕ) → p ≤ k → k < q → is_taken used k ≡ true)

at_or_after :
    (used : List ℕ) (p k : ℕ)
    → is_taken used p ≡ true
    → p ≤ k
    → (suc p ≤ k → is_taken used k ≡ true)
    → is_taken used k ≡ true
at_or_after used p k here low later = elim (Bool-cases (p == k)) [
  | inl e ↦ (let same : p ≡ k = ground arith in ap (is_taken used) (sym same) ∙ here)
  | inr e ↦ later (ground arith)
]

pub free_port_from-Found :
    (left p : ℕ) (used : List ℕ) → Found left p used (free_port_from left p used)
unfolding free_port_from
free_port_from-Found zero p used = inl (refl, λ k low high. absurd (omega arith))
free_port_from-Found (suc left) p used = elim (Bool-cases (is_taken used p)) [
  | inr e ↦ rw e (inr (omega arith, omega arith, e, λ k low high. absurd (omega arith)))
  | inl e ↦ rw e (elim (free_port_from-Found left (suc p) used) [
    | inl (z, all) ↦
        inl (z, λ k low high. at_or_after used p k e low (λ next. all k next (omega arith)))
    | inr (low, high, free, all) ↦ inr (
      omega arith,
      omega arith,
      free,
      λ k le lt. at_or_after used p k e le (λ next. all k next lt),
    )
  ])
]

-- nextFreePort gives the lowest port of the range that is not taken, and 0 exactly if all are.
pub next_free_port-Found :
    (used : List ℕ) → Found (suc port_end - port_start) port_start used (next_free_port used)
unfolding next_free_port
next_free_port-Found used = free_port_from-Found (suc port_end - port_start) port_start used
