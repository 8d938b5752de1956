-- ===== src/Prelude/Sort.antt =====
-- A stable insertion sort by a Boolean order, for Go's sort.SliceStable, and for sort.Slice and
-- sort.Strings where equal elements cannot be told apart.
use Prim.Native.Nat.{suc}
use Prim.Native.String.{String, compare}
use mathlib.Core.Path.{◌≡◌, refl, ◌∙◌, ap}
use mathlib.Core.Bool.{Bool, ◌||◌}
use mathlib.Core.List.{List, [], ◌∷◌}
use native.Mathlib.Omega.{arith}
use text.Mathlib.Text.{is_le, ◌==◌ as str_eq}
use em_xray.Prelude.Tests.{if◌then◌else◌, if_elim}
use em_xray.Prelude.Lists.{length, count, contains, All}

-- a <= b on texts
unfoldable pub str_le : String → String → Bool
str_le a b = is_le (compare a b)

module _ {ℓ} {A : Type ℓ} (le : A → A → Bool) where
  -- Before the first element that is not below it.
  unfoldable pub insert : A → List A → List A
  insert a [] = a ∷ []
  insert a (x ∷ xs) = let rest = insert a xs in if le a x then a ∷ x ∷ xs else x ∷ rest

  unfoldable pub sort : List A → List A
  unfolding insert
  sort [] = []
  sort (x ∷ xs) = insert x (sort xs)

  count-insert : (p : A → Bool) (a : A) (xs : List A) → count p (insert a xs) ≡ count p (a ∷ xs)
  unfolding insert
  count-insert p a [] = refl
  count-insert p a (x ∷ xs) = ground (arith, count-insert p a xs)

  pub count-sort : (p : A → Bool) (xs : List A) → count p (sort xs) ≡ count p xs
  unfolding sort
  count-sort p [] = refl
  count-sort p (x ∷ xs) = ground (arith, count-insert p x (sort xs), count-sort p xs)

  length-insert : (a : A) (xs : List A) → length (insert a xs) ≡ suc (length xs)
  unfolding insert
  length-insert a [] = refl
  length-insert a (x ∷ xs) = ground (arith, length-insert a xs)

  pub length-sort : (xs : List A) → length (sort xs) ≡ length xs
  unfolding sort
  length-sort [] = refl
  length-sort (x ∷ xs) = length-insert x (sort xs) ∙ ap suc (length-sort xs)

-- A predicate on every element holds after a sort.
module _ {ℓ} {A : Type ℓ} (le : A → A → Bool) (P : A → Type 0) where
  pub All-insert : (a : A) (xs : List A) → P a → All P xs → All P (insert le a xs)
  unfolding insert
  All-insert a [] p h = (p, tt)
  All-insert a (x ∷ xs) p h =
      let rest = All-insert a xs p h.1 in
      if_elim (λ (ys : List A). All P ys) (le a x) (λ _. (p, h)) (λ _. (h.0, rest))

  pub All-sort : (xs : List A) → All P xs → All P (sort le xs)
  unfolding sort
  All-sort [] h = tt
  All-sort (x ∷ xs) h = All-insert x (sort le xs) h.0 (All-sort xs h.1)

contains-insert :
    (le : String → String → Bool) (x : String) (xs : List String) (k : String)
    → contains (insert le x xs) k ≡ (str_eq x k || contains xs k)
unfolding insert contains
contains-insert le x [] k = ground arith
contains-insert le x (y ∷ ys) k = ground (arith, contains-insert le x ys k)

pub contains-sort :
    (le : String → String → Bool) (xs : List String) (k : String)
    → contains (sort le xs) k ≡ contains xs k
unfolding sort contains
contains-sort le [] k = refl
contains-sort le (x ∷ xs) k =
    contains-insert le x (sort le xs) k ∙ ap (λ b. str_eq x k || b) (contains-sort le xs k)
