-- ===== src/Daemon/Dialers/Routes.antt =====
-- Routes of two lookups of the dialers, before and after EntryBulkDialer of daemon/server_methods.go.
use em_xray.Xray.Names.{normalize_name}
use em_xray.Xray.Dialer.Cycle.Route.{Route, hops, RunsIntoCycle, hops_of, hops-IsNormal}
use mathlib.Core.Path.{subst}
use em_xray.Prelude.{
  ℕ, zero, suc, String, true, false, Bool, Option, ◌+◌, ◌≡◌, arith, ap, contains, ◌⊎◌, sym, inl,
  Bool-cases, inr, refl,
}

Route-append :
    (look : String → Option String) (n m : ℕ) (e f g : String)
    → Route look n e f
    → Route look m f g
    → Route look (n + m) e g
Route-append look zero m e f g r q =
    let none_more : m ≡ 0 + m = omega arith in
    subst (λ i. Route look i e g) none_more (subst (λ x. Route look m x g) (sym r) q)
Route-append look (suc n) m e f g (d, to_d, rest) q =
    let one_more : suc (n + m) ≡ suc n + m = omega arith in
    subst (λ i. Route look i e g) one_more (d, to_d, Route-append look n m d f g rest q)

hops-agree :
    (look look' : String → Option String) (e : String)
    → look e ≡ look' e
    → hops look e ≡ hops look' e
unfolding hops
hops-agree look look' e h = ap hops_of h

-- Lookups that agree on the normal names have the same routes from one.
Route-agree :
    (look look' : String → Option String)
    → ((e : String) → normalize_name e ≡ e → look e ≡ look' e)
    → (n : ℕ) (e g : String) → normalize_name e ≡ e
    → Route look n e g
    → Route look' n e g
Route-agree look look' same zero e g normal r = r
Route-agree look look' same (suc n) e g normal (f, to_f, rest) = (
  f,
  subst (λ hs. contains hs f ≡ true) (hops-agree look look' e (same e normal)) to_f,
  Route-agree look look' same n f g (hops-IsNormal look e f to_f) rest,
)

-- A route goes by a marked entry, or is one of the lookup that agrees on the others.
Route-split :
    (look look' : String → Option String) (marked : String → Bool)
    → ((e : String) → normalize_name e ≡ e → marked e ≡ false → look e ≡ look' e)
    → (n : ℕ) (e g : String) → normalize_name e ≡ e
    → Route look n e g
    → Route look' n e g
      ⊎ ((c : String) × (k : ℕ) × (m : ℕ) × (marked c ≡ true)
          × (normalize_name c ≡ c)
          × Route look k e c
          × Route look (suc m) c g)
Route-split look look' marked same zero e g normal r = inl r
Route-split look look' marked same (suc n) e g normal (f, to_f, rest) =
    elim (Bool-cases (marked e)) [
      | inl q ↦ inr (e, 0, n, q, normal, refl, (f, to_f, rest))
      | inr q ↦ elim (Route-split look look' marked same n f g (hops-IsNormal look e f to_f) rest) [
        | inl r ↦ inl (
          f,
          subst (λ hs. contains hs f ≡ true) (hops-agree look look' e (same e normal q)) to_f,
          r,
        )
        | inr (c, k, m, on, nc, before, after) ↦ inr (c, suc k, m, on, nc, (f, to_f, before), after)
      ]
    ]

-- No entry with a normal name dials through itself.
abbrev pub IsAcyclic : (String → Option String) → Type 0
IsAcyclic look = (e : String) → normalize_name e ≡ e → (m : ℕ) → ¬ Route look (suc m) e e

-- A lookup that changes an acyclic one at marked entries only, none of which runs into a cycle, is
-- acyclic.
pub IsAcyclic-split :
    (look look' : String → Option String) (marked : String → Bool)
    → ((e : String) → normalize_name e ≡ e → marked e ≡ false → look e ≡ look' e)
    → ((c : String) → normalize_name c ≡ c → marked c ≡ true → ¬ RunsIntoCycle look c)
    → IsAcyclic look'
    → IsAcyclic look
IsAcyclic-split look look' marked same clean acyclic e normal m loop =
    elim (Route-split look look' marked same (suc m) e e normal loop) [
      | inl r ↦ acyclic e normal m r
      | inr (c, k, j, on, nc, before, after) ↦
          (let length_is : suc j + k ≡ suc (j + k) = omega arith in
            clean c nc on (
              c,
              0,
              j + k,
              refl,
              subst (λ i. Route look i c c) length_is
                  (Route-append look (suc j) k c e c after before),
            ))
    ]

pub IsAcyclic-agree :
    (look look' : String → Option String)
    → ((e : String) → normalize_name e ≡ e → look e ≡ look' e)
    → IsAcyclic look'
    → IsAcyclic look
IsAcyclic-agree look look' same acyclic e normal m loop =
    acyclic e normal m (Route-agree look look' same (suc m) e e normal loop)
