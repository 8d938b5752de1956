-- ===== src/Daemon/Live/Order.antt =====
-- The order of removals and additions: dependentsFirst of daemon/xray_live.go.
use em_xray.Daemon.Live.{dependents_first, LivePlan, is_dependent}
use em_xray.Prelude.{
  List, String, insert, Bool, sort, ◌≡◌, ◌||◌, true, not, false, filter, ◌∷◌, ◌++◌, arith,
  Bool-cases, [], inl, refl, inr,
}

insert_first :
    {A : Type 0} (le : A → A → Bool) (x : A) (ys : List A)
    → ((y : A) → le x y ≡ true)
    → insert le x ys ≡ x ∷ ys
unfolding insert
insert_first le x [] h = refl
insert_first le x (y ∷ ys) h = rw (h y) refl

abbrev before : {A : Type 0} → (A → Bool) → A → A → Bool
before p a b = p a || not (p b)

insert_past :
    {A : Type 0} (p : A → Bool) (x : A) (xs ys : List A)
    → p x ≡ false
    → insert (before p) x (filter p xs ++ ys) ≡ filter p xs ++ insert (before p) x ys
unfolding insert
insert_past p x [] ys h = refl
insert_past p x (z ∷ xs) ys h = ground (arith, insert_past p x xs ys h)

insert_among :
    {A : Type 0} (p : A → Bool) (x : A) (xs : List A)
    → p x ≡ false
    → insert (before p) x (filter (λ y. not (p y)) xs) ≡ x ∷ filter (λ y. not (p y)) xs
unfolding insert
insert_among p x [] h = refl
insert_among p x (z ∷ xs) h = ground (arith, insert_among p x xs h)

pub sort-before :
    {A : Type 0} (p : A → Bool) (xs : List A)
    → sort (before p) xs ≡ filter p xs ++ filter (λ y. not (p y)) xs
unfolding sort
sort-before p [] = refl
sort-before p (x ∷ xs) = elim (Bool-cases (p x)) [
  | inl e ↦ rw (e, sort-before p xs) (insert_first (before p) x _ (λ y. ground arith))
  | inr e ↦
      rw
        (
          e,
          sort-before p xs,
          insert_past p x xs (filter (λ y. not (p y)) xs) e,
          insert_among p x xs e,
        )
        refl
]

-- The removals come as every outbound that dials through another, in the order given, and then
-- every plain one, in the order given.
pub dependents_first_lem :
    (p : LivePlan) (tags : List String)
    → dependents_first p tags
      ≡ filter (is_dependent p) tags ++ filter (λ t. not (is_dependent p t)) tags
unfolding dependents_first
dependents_first_lem p tags = sort-before (is_dependent p) tags
