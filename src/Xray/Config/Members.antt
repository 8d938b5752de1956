-- ===== src/Xray/Config/Members.antt =====
-- Members of a list under the sorts of Generate of core/xray/config.go.
use mathlib.Core.List.{Memᴰ}
use mathlib.Core.List.Memᴰ
use em_xray.Prelude.{List, [], ◌∷◌, Bool, insert, sort, if_elim, refl}

-- A member of a list is one of the sorted list.
module _ {ℓ} {A : Type ℓ} (le : A → A → Bool) where
  Mem-insert_self : (a : A) (xs : List A) → Memᴰ a (insert le a xs)
  unfolding insert
  Mem-insert_self a [] = Memᴰ.head refl
  Mem-insert_self a (x ∷ xs) =
      let rest = Mem-insert_self a xs in
      if_elim (λ (ys : List A). Memᴰ a ys) (le a x) (λ _. Memᴰ.head refl) (λ _. Memᴰ.tail rest)

  Mem-insert : (a b : A) (xs : List A) → Memᴰ b xs → Memᴰ b (insert le a xs)
  unfolding insert
  Mem-insert a b [] m = elim m [ ]
  Mem-insert a b (x ∷ xs) (Memᴰ.head e) =
      if_elim (λ (ys : List A). Memᴰ b ys) (le a x) (λ _. Memᴰ.tail (Memᴰ.head e))
        (λ _. Memᴰ.head e)
  Mem-insert a b (x ∷ xs) (Memᴰ.tail m) =
      let rest = Mem-insert a b xs m in
      if_elim (λ (ys : List A). Memᴰ b ys) (le a x) (λ _. Memᴰ.tail (Memᴰ.tail m))
        (λ _. Memᴰ.tail rest)

  pub Mem-sort : (b : A) (xs : List A) → Memᴰ b xs → Memᴰ b (sort le xs)
  unfolding sort
  Mem-sort b [] m = elim m [ ]
  Mem-sort b (x ∷ xs) (Memᴰ.head e) = Memᴰ.cast e (Mem-insert_self x (sort le xs))
  Mem-sort b (x ∷ xs) (Memᴰ.tail m) = Mem-insert x b (sort le xs) (Mem-sort b xs m)
