-- ===== src/Daemon/Caps/Settle.antt =====
-- What enforceCaps of daemon/traffic.go settles on.
use em_xray.Daemon.Caps.{InboundUser, enforce_user, is_capped, is_over, enforce_users, enforce_caps}
use em_xray.Prelude.{
  ℕ, List, [], ◌∷◌, String, some, none, true, false, Bool, Option, Dict, holds, All, put, delete,
  str_eq, ◌≡◌, ◌||◌, not, ◌&&◌, ap, if◌then◌else◌, arith, if_elim, get-put, get-delete, eq_iff, ◌∙◌,
  refl, Bool-cases, inl, inr,
}

-- The remembered flag of a user under a cap says whether the user is over it.
abbrev pub IsSettled : (String → ℕ) → Dict Bool → InboundUser → Type 0
IsSettled total over_cap u = is_capped u ≡ true → holds over_cap u.email ≡ is_over total u

-- The users have different emails.
abbrev pub HaveEmails : List InboundUser → Type 0
HaveEmails [] = Unit
HaveEmails (u ∷ users) =
    All (λ (v : InboundUser). str_eq u.email v.email ≡ false) users × HaveEmails users

holds-put : (d : Dict Bool) (k j : String) → holds (put d k true) j ≡ (str_eq k j || holds d j)
unfolding holds
holds-put d k j =
    ap (λ (o : Option Bool). elim o [ some b ↦ b | none ↦ false ]) (get-put d k j true)
    ∙ elim (Bool-cases (str_eq k j)) [ inl e ↦ rw e refl | inr e ↦ rw e refl ]

holds-delete :
    (d : Dict Bool) (k j : String) → holds (delete d k) j ≡ (not (str_eq k j) && holds d j)
unfolding holds
holds-delete d k j =
    ap (λ (o : Option Bool). elim o [ some b ↦ b | none ↦ false ]) (get-delete d k j)
    ∙ elim (Bool-cases (str_eq k j)) [ inl e ↦ rw e refl | inr e ↦ rw e refl ]

-- The flag of an email after one user's turn.
holds-enforce_user :
    (total : String → ℕ) (u : InboundUser) (st : Dict Bool × Bool) (k : String)
    → holds (enforce_user total u st).0 k
      ≡ (if is_capped u && str_eq u.email k then is_over total u else holds st.0 k)
unfolding enforce_user
holds-enforce_user total u (over_cap, trigger) k =
    let P : Dict Bool × Bool → Type 0 = λ out.
      holds out.0 k
      ≡ (if is_capped u && str_eq u.email k then is_over total u else holds over_cap k) in
    let added = holds-put over_cap u.email k in
    let removed = holds-delete over_cap u.email k in
    let at_k : str_eq u.email k ≡ true → holds over_cap u.email ≡ holds over_cap k =
      λ e. ap (holds over_cap) ((eq_iff u.email k).0 e) in
    if_elim P (not (is_capped u)) (λ n. ground (arith, n))
      (λ capped.
        if_elim P (is_over total u && not (holds over_cap u.email))
          (λ yes. ground (arith, capped, yes, added))
          (λ no.
            if_elim P (not (is_over total u) && holds over_cap u.email)
              (λ yes. ground (arith, capped, yes, removed))
              (λ same. ground (arith, capped, no, same, at_k))))

holds-enforce_users :
    (total : String → ℕ) (users : List InboundUser) (st : Dict Bool × Bool) (k : String)
    → All (λ (v : InboundUser). str_eq v.email k ≡ false) users
    → holds (enforce_users total users st).0 k ≡ holds st.0 k
unfolding enforce_users
holds-enforce_users total [] st k h = refl
holds-enforce_users total (u ∷ users) st k h =
    holds-enforce_users total users (enforce_user total u st) k h.1
    ∙ (let turn = holds-enforce_user total u st k in let apart = h.0 in ground arith)

flip-All :
    (k : String) (users : List InboundUser)
    → All (λ (v : InboundUser). str_eq k v.email ≡ false) users
    → All (λ (v : InboundUser). str_eq v.email k ≡ false) users
flip-All k [] h = tt
flip-All k (v ∷ users) h =
    (ground (arith, h.0, eq_iff k v.email, eq_iff v.email k), flip-All k users h.1)

-- After a check each flag is right: a user under a cap is remembered exactly if the user is over it.
-- The users have different emails.
pub enforce_users-IsSettled :
    (total : String → ℕ) (users : List InboundUser) (st : Dict Bool × Bool)
    → HaveEmails users
    → All (IsSettled total (enforce_users total users st).0) users
unfolding enforce_users
enforce_users-IsSettled total [] st h = tt
enforce_users-IsSettled total (u ∷ users) st h =
    let turn = holds-enforce_user total u st u.email in
    let later =
      holds-enforce_users total users (enforce_user total u st) u.email
        (flip-All u.email users h.0) in
    (
      λ capped. later ∙ ground (arith, turn, capped, eq_iff u.email u.email),
      enforce_users-IsSettled total users (enforce_user total u st) h.1,
    )

still :
    (total : String → ℕ) (u : InboundUser) (over_cap : Dict Bool)
    → IsSettled total over_cap u
    → enforce_user total u (over_cap, false) ≡ (over_cap, false)
unfolding enforce_user
still total u over_cap h =
    let P : Dict Bool × Bool → Type 0 = λ out. out ≡ (over_cap, false) in
    if_elim P (not (is_capped u)) (λ n. refl)
      (λ capped.
        (let same : holds over_cap u.email ≡ is_over total u = h (ground arith) in
          if_elim P (is_over total u && not (holds over_cap u.email)) (λ yes. absurd (ground arith))
            (λ no.
              if_elim P (not (is_over total u) && holds over_cap u.email)
                (λ yes. absurd (ground arith)) (λ rest. refl))))

quiet :
    (total : String → ℕ) (users : List InboundUser) (over_cap : Dict Bool)
    → All (IsSettled total over_cap) users
    → enforce_users total users (over_cap, false) ≡ (over_cap, false)
unfolding enforce_users
quiet total [] over_cap h = refl
quiet total (u ∷ users) over_cap h =
    ap (enforce_users total users) (still total u over_cap h.0) ∙ quiet total users over_cap h.1

-- A check that finds nothing new does not reconcile: with the same users and totals, a second check
-- leaves the flags as they are and asks for nothing. The users have different emails.
pub enforce_caps_twice :
    (total : String → ℕ) (users : List InboundUser) (over_cap : Dict Bool)
    → HaveEmails users
    → enforce_caps total users (enforce_caps total users over_cap).0
      ≡ ((enforce_caps total users over_cap).0, false)
unfolding enforce_caps
enforce_caps_twice total users over_cap h =
    quiet total users (enforce_users total users (over_cap, false)).0
      (enforce_users-IsSettled total users (over_cap, false) h)
