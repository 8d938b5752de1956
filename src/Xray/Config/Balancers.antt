-- ===== src/Xray/Config/Balancers.antt =====
-- Where the balancers of slotBalancer of core/xray/config.go send.
use mathlib.Core.Path.{subst}
use em_xray.Xray.Config.{
  Balancer, picked_tags, slot_balancer, slot_member_tag, head_or, block_tag, member_key_of,
  first_tag, active_count,
}
use em_xray.Xray.Slot.{SlotMember, MasterPick}
use em_xray.Prelude.{
  ℕ, zero, suc, List, [], ◌∷◌, String, true, contains, ◌≡◌, All, ◌⊎◌, take, drop, map,
  if◌then◌else◌, arith, if_elim, str_eq, Bool-cases, length, inl, eq_iff, ◌==◌, inr, refl,
}

abbrev pub Has : List String → String → Type 0
Has tags t = contains tags t ≡ true

-- A balancer that names only outbounds that are there, and falls back to one: its selector is exact,
-- or the prefix of the members of its slot.
abbrev pub NamesOnly : List String → Balancer → Type 0
NamesOnly tags b = Has tags b.fallback × ((b.least_load ≡ true) ⊎ All (Has tags) b.selector)

module _ (tags : List String) (idx : ℕ) where
  member_tag-Has :
      (ms : List SlotMember) (k : String)
      → All (λ (m : SlotMember). Has tags (slot_member_tag idx m.key)) ms
      → contains (map member_key_of ms) k ≡ true
      → Has tags (slot_member_tag idx k)
  unfolding contains
  member_tag-Has [] k h on = absurd (ground (arith, on))
  member_tag-Has (m ∷ ms) k h on = elim (Bool-cases (str_eq m.key k)) [
    | inl q ↦ subst (λ j. Has tags (slot_member_tag idx j)) ((eq_iff m.key k).0 q) h.0
    | inr q ↦ member_tag-Has ms k h.1 (ground (arith, on, q))
  ]

  picked_tags-Have :
      (ms : List SlotMember) (ks : List String)
      → All (λ (m : SlotMember). Has tags (slot_member_tag idx m.key)) ms
      → All (Has tags) (picked_tags idx (map member_key_of ms) ks)
  unfolding picked_tags
  picked_tags-Have ms [] h = tt
  picked_tags-Have ms (k ∷ ks) h =
      let rest = picked_tags-Have ms ks h in
      if_elim (λ (ts : List String). All (Has tags) ts) (contains (map member_key_of ms) k)
        (λ on. (member_tag-Has ms k h on, rest)) (λ _. rest)

  All-take_tags : (n : ℕ) (ts : List String) → All (Has tags) ts → All (Has tags) (take n ts)
  All-take_tags zero ts h = tt
  All-take_tags (suc n) [] h = tt
  All-take_tags (suc n) (t ∷ ts) h = (h.0, All-take_tags n ts h.1)

  All-drop_tags : (n : ℕ) (ts : List String) → All (Has tags) ts → All (Has tags) (drop n ts)
  All-drop_tags zero ts h = h
  All-drop_tags (suc n) [] h = tt
  All-drop_tags (suc n) (t ∷ ts) h = All-drop_tags n ts h.1

  head_or-Has :
      (t : String) (ts : List String) → Has tags t → All (Has tags) ts → Has tags (head_or t ts)
  head_or-Has t [] h hs = h
  head_or-Has t (u ∷ us) h hs = hs.0

  first_tag-Has :
      (ms : List SlotMember)
      → All (λ (m : SlotMember). Has tags (slot_member_tag idx m.key)) ms
      → Has tags block_tag
      → Has tags (if str_eq (first_tag idx ms) "" then block_tag else first_tag idx ms)
  first_tag-Has [] h block = block
  first_tag-Has (m ∷ ms) h block =
      if_elim (Has tags) (str_eq (slot_member_tag idx m.key) "") (λ _. block) (λ _. h.0)

  -- A balancer names only outbounds that are there, where the members of its slot are and `block` is.
  pub slot_balancer-NamesOnly :
      (master : String) (pick : MasterPick) (ms : List SlotMember)
      → All (λ (m : SlotMember). Has tags (slot_member_tag idx m.key)) ms
      → Has tags block_tag
      → NamesOnly tags (slot_balancer idx master pick (map member_key_of ms) (first_tag idx ms))
  unfolding slot_balancer
  slot_balancer-NamesOnly master pick ms h block =
      let picked = picked_tags idx (map member_key_of ms) pick.picked in
      let fallback = first_tag-Has ms h block in
      let all = picked_tags-Have ms pick.picked h in
      let active = active_count pick.active picked in
      if_elim (NamesOnly tags) (length picked == 0) (λ _. (fallback, inl refl))
        (λ _. (
          head_or-Has _ (drop active picked) (head_or-Has _ picked fallback all)
              (All-drop_tags active picked all),
          inr (All-take_tags active picked all),
        ))
