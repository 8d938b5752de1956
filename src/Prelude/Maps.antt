-- ===== src/Prelude/Maps.antt =====
-- Go's `map[string]V` as an association list. Go leaves the order of a `range` over a map
-- unspecified; here it is the order of the entries.
use Prim.Native.String.{String}
use mathlib.Core.Path.{◌≡◌, refl, subst}
use mathlib.Core.Logic.{inl, inr}
use mathlib.Core.Bool.{Bool, false}
use mathlib.Core.Option.{Option, none, some}
use mathlib.Core.List.{List, [], ◌∷◌}
use native.Mathlib.Omega.{arith}
use text.Mathlib.Text.{◌==◌ as str_eq}
use text.Mathlib.TextEquality.{eq_iff}
use em_xray.Prelude.Tests.{Bool-cases, if◌then◌else◌}

abbrev pub Dict {ℓ} : Type ℓ → Type ℓ
Dict V = List (String × V)

module _ {ℓ} {V : Type ℓ} where
  -- v, ok := d[k]
  unfoldable pub get : Dict V → String → Option V
  get [] k = none
  get ((j, v) ∷ d) k = if str_eq j k then some v else get d k

  -- delete(d, k)
  unfoldable pub delete : Dict V → String → Dict V
  delete [] k = []
  delete ((j, v) ∷ d) k = let rest = delete d k in if str_eq j k then rest else (j, v) ∷ rest

  -- d[k] = v
  unfoldable pub put : Dict V → String → V → Dict V
  put [] k v = (k, v) ∷ []
  put ((j, w) ∷ d) k v = let rest = put d k v in if str_eq j k then (k, v) ∷ d else (j, w) ∷ rest

  pub get-put :
      (d : Dict V) (k j : String) (v : V)
      → get (put d k v) j ≡ (if str_eq k j then some v else get d j)
  unfolding get put
  get-put [] k j v = refl
  get-put ((i, w) ∷ d) k j v = ground (arith, eq_iff k j, eq_iff i k, eq_iff i j, get-put d k j v)

  pub get-delete :
      (d : Dict V) (k j : String) → get (delete d k) j ≡ (if str_eq k j then none else get d j)
  unfolding get delete
  get-delete [] k j = ground arith
  get-delete ((i, w) ∷ d) k j = ground (arith, eq_iff k j, eq_iff i k, eq_iff i j, get-delete d k j)

  -- The loop `for k, v := range d { if !keep(k, v) { delete(d, k) } }`.
  unfoldable pub keep_if : (String → V → Bool) → Dict V → Dict V
  keep_if p [] = []
  keep_if p ((j, v) ∷ d) = let rest = keep_if p d in if p j v then (j, v) ∷ rest else rest

  -- A predicate on every value of a map.
  abbrev pub AllValues : (V → Type 0) → Dict V → Type 0
  AllValues P [] = Unit
  AllValues P ((j, v) ∷ d) = P v × AllValues P d

  pub AllValues-put :
      (P : V → Type 0) (d : Dict V) (k : String) (v : V)
      → P v
      → AllValues P d
      → AllValues P (put d k v)
  unfolding put
  AllValues-put P [] k v p h = (p, tt)
  AllValues-put P ((j, w) ∷ d) k v p h = elim (Bool-cases (str_eq j k)) [
    | inl e ↦ rw e (p, h.1)
    | inr e ↦ rw e (h.0, AllValues-put P d k v p h.1)
  ]

  pub AllValues-delete :
      (P : V → Type 0) (d : Dict V) (k : String) → AllValues P d → AllValues P (delete d k)
  unfolding delete
  AllValues-delete P [] k h = tt
  AllValues-delete P ((j, w) ∷ d) k h = elim (Bool-cases (str_eq j k)) [
    | inl e ↦ rw e (AllValues-delete P d k h.1)
    | inr e ↦ rw e (h.0, AllValues-delete P d k h.1)
  ]

  pub AllValues-keep_if :
      (P : V → Type 0) (p : String → V → Bool) (d : Dict V)
      → AllValues P d
      → AllValues P (keep_if p d)
  unfolding keep_if
  AllValues-keep_if P p [] h = tt
  AllValues-keep_if P p ((j, w) ∷ d) h = elim (Bool-cases (p j w)) [
    | inl e ↦ rw e (h.0, AllValues-keep_if P p d h.1)
    | inr e ↦ rw e (AllValues-keep_if P p d h.1)
  ]

  pub AllValues-get :
      (P : V → Type 0) (d : Dict V) (k : String) {v : V} → AllValues P d → get d k ≡ some v → P v
  unfolding get
  AllValues-get P [] k h e = absurd (ground arith)
  AllValues-get P ((j, w) ∷ d) k {v} h e = elim (Bool-cases (str_eq j k)) [
    | inl q ↦ (let same : w ≡ v = ground arith in subst P same h.0)
    | inr q ↦ AllValues-get P d k h.1 (ground arith)
  ]

-- m[k] of a map[string]bool: false where there is no entry.
unfoldable pub holds : Dict Bool → String → Bool
holds d k = elim (get d k) [ some b ↦ b | none ↦ false ]

-- No key has two entries.
unfoldable pub IsKeyed {ℓ} : {V : Type ℓ} → Dict V → Type ℓ
IsKeyed [] = Unit
IsKeyed ((j, v) ∷ d) = (get d j ≡ none) × IsKeyed d
