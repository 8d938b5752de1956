-- ===== src/Daemon/Parker/Without.antt =====
-- withoutParked of daemon/nodepark.go.
use em_xray.Prelude.{
  Bool, not, List, [], ◌∷◌, Dict, get, is_some, filter, ℕ, count, length, ◌≡◌, arith, ◌⊎◌, inr, inl,
  refl, sym, ap, suc,
}
use em_xray.Xray.Slot.{SlotMember}

abbrev pub is_unparked : Dict ℕ → SlotMember → Bool
is_unparked parked m = not (is_some (get parked m.key))

or_all : List SlotMember → List SlotMember → List SlotMember
or_all members [] = members
or_all members (m ∷ out) = m ∷ out

unfoldable pub without_parked : List SlotMember → Dict ℕ → List SlotMember
unfolding or_all
without_parked members [] = members
without_parked members (e ∷ parked) = or_all members (filter (is_unparked (e ∷ parked)) members)

count-filter-not {ℓ} :
    {A : Type ℓ} (p : A → Bool) (xs : List A) → count (λ x. not (p x)) (filter p xs) ≡ 0
count-filter-not p [] = refl
count-filter-not p (x ∷ xs) = ground (arith, count-filter-not p xs)

length-filter {ℓ} : {A : Type ℓ} (p : A → Bool) (xs : List A) → length (filter p xs) ≡ count p xs
length-filter p [] = refl
length-filter p (x ∷ xs) = ground (arith, length-filter p xs)

or_all_cases :
    (p : SlotMember → Bool) (ms out : List SlotMember)
    → length out ≡ count p ms
    → count (λ m. not (p m)) out ≡ 0
    → (count (λ m. not (p m)) (or_all ms out) ≡ 0) × (length (or_all ms out) ≡ count p ms)
      ⊎ (or_all ms out ≡ ms) × (count p ms ≡ 0)
unfolding or_all
or_all_cases p ms [] len clean = inr (refl, sym len)
or_all_cases p ms (m ∷ out) len clean = inl (clean, len)

none_parked :
    (ms : List SlotMember)
    → (count (λ m. not (is_unparked [] m)) ms ≡ 0) × (length ms ≡ count (is_unparked []) ms)
unfolding get
none_parked [] = (refl, refl)
none_parked (m ∷ ms) = ((none_parked ms).0, ap suc (none_parked ms).1)

-- A pool keeps exactly its members that are not parked, unless every member is parked: then it keeps
-- them all.
pub without_parked_cases :
    (ms : List SlotMember) (parked : Dict ℕ)
    → (count (λ m. not (is_unparked parked m)) (without_parked ms parked) ≡ 0)
        × (length (without_parked ms parked) ≡ count (is_unparked parked) ms)
      ⊎ (without_parked ms parked ≡ ms) × (count (is_unparked parked) ms ≡ 0)
unfolding without_parked
without_parked_cases ms [] = inl (none_parked ms)
without_parked_cases ms (e ∷ parked) =
    or_all_cases (is_unparked (e ∷ parked)) ms (filter (is_unparked (e ∷ parked)) ms)
      (length-filter (is_unparked (e ∷ parked)) ms) (count-filter-not (is_unparked (e ∷ parked)) ms)
