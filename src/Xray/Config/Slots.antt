-- ===== src/Xray/Config/Slots.antt =====
-- The parts of a slot in the config of Generate of core/xray/config.go: where its rules, balancers
-- and outbounds send.

use em_xray.Xray.Config.Masters.{contains-tags_of}
use em_xray.Xray.Config.Balancers.{Has, NamesOnly, slot_balancer-NamesOnly}
use em_xray.Xray.Config.{
  dials, slot_balancer, Balancer, Target, Outbound, Body, tags_of, MasterPick, hop_outbounds,
  member_outbounds, master_balancers, to_outbound, api_tag, slot_bal_tag, SlotMember, Slot,
  master_rules, Inbound, relays, check_member_outbound, slot_member_tag, Rule, slot_parts,
  block_tag, pick_of, tunnel_members, to_balancer, picked_tags, member_key_of, slot_masters,
  first_tag, slot_in_tag, slot_in_tags, own_proxy,
}
use em_xray.Prelude.{
  List, String, contains, Option, ◌≡◌, ◌∷◌, ℕ, true, ◌++◌, Bool, [], arith, All, ◌⊎◌, eq_iff,
  Bool-cases, if_elim, filter, str_eq, length, map, some, inl, ◌==◌, inr, All-append, refl, none,
}
use mathlib.Core.Path.{subst}

abbrev pub bal_tags : List Balancer → List String
bal_tags [] = []
bal_tags (b ∷ bs) = b.tag ∷ bal_tags bs

-- Where a rule sends is there: xray's own api outbound, an outbound or a balancer.
abbrev pub Sends : List String → List String → Target → Type 0
Sends tags bals (to_outbound t) = (t ≡ api_tag) ⊎ Has tags t
Sends tags bals (to_balancer t) = Has bals t

-- A rule is about a listener that is there, and sends to what is there.
abbrev pub Leads : List String → List String → List String → Rule → Type 0
Leads ls tags bals r = Has ls r.inbound × Sends tags bals r.target

-- A dialerProxy is an outbound that is there, or the one that the stored JSON has itself.
abbrev pub IsKnown : List String → Option String → Option String → Type 0
IsKnown tags own none = Unit
IsKnown tags own (some t) = (own ≡ some t) ⊎ Has tags t

-- A member tunnels and keeps the dialerProxy of its JSON; another outbound dials through a known one.
abbrev pub IsSafe :
    (String → Option String) → (String → Option (Option String)) → List String → Body → Type 0
IsSafe protocol_of object_of tags (relays raw proxy) =
    (check_member_outbound protocol_of raw ≡ true) × (proxy ≡ own_proxy (object_of raw))
IsSafe protocol_of object_of tags (dials raw proxy) = IsKnown tags (own_proxy (object_of raw)) proxy
IsSafe protocol_of object_of tags b = Unit

-- The tags of xs are tags of ys.
abbrev pub Within : List String → List String → Type 0
Within xs ys = (t : String) → contains xs t ≡ true → Has ys t

pub Within-cons : (x : String) (xs ys : List String) → Within (x ∷ xs) ys → Has ys x × Within xs ys
unfolding contains
Within-cons x xs ys h = (h x (ground (arith, eq_iff x x)), λ t on. h t (ground (arith, on)))

pub Within-tags :
    (os ps : List Outbound) (ys : List String)
    → Within (tags_of (os ++ ps)) ys
    → Within (tags_of os) ys × Within (tags_of ps) ys
Within-tags os ps ys h = (
  λ t on. h t (ground (arith, on, contains-tags_of os ps t)),
  λ t on. h t (ground (arith, on, contains-tags_of os ps t)),
)

Within-bal_tags :
    (bs cs : List Balancer) (ys : List String)
    → Within (bal_tags (bs ++ cs)) ys
    → Within (bal_tags bs) ys × Within (bal_tags cs) ys
unfolding contains
Within-bal_tags [] cs ys h = (λ t on. absurd (ground (arith, on)), h)
Within-bal_tags (b ∷ bs) cs ys h =
    let (here, rest) = Within-cons b.tag (bal_tags (bs ++ cs)) ys h in
    let (first, second) = Within-bal_tags bs cs ys rest in
    (
      λ t on. elim (Bool-cases (str_eq b.tag t)) [
        | inl q ↦ subst (Has ys) ((eq_iff b.tag t).0 q) here
        | inr q ↦ first t (ground (arith, on, q))
      ],
      second,
    )

slot_balancer-tag :
    (idx : ℕ) (master : String) (pick : MasterPick) (loaded : List String) (first : String)
    → (slot_balancer idx master pick loaded first).tag ≡ slot_bal_tag idx master
unfolding slot_balancer
slot_balancer-tag idx master pick loaded first =
    if_elim (λ (b : Balancer). b.tag ≡ slot_bal_tag idx master)
      (length (picked_tags idx loaded pick.picked) == 0) (λ _. refl) (λ _. refl)

module _ (protocol_of : String → Option String) (object_of : String → Option (Option String))
    (ls tags bals : List String) where
  hop_outbounds-Safe :
      (idx : ℕ) (names : List String)
      → All (λ (o : Outbound). IsSafe protocol_of object_of tags o.body) (hop_outbounds idx names)
  unfolding hop_outbounds
  hop_outbounds-Safe idx [] = tt
  hop_outbounds-Safe idx (n ∷ names) = (tt, hop_outbounds-Safe idx names)

  member_outbounds-Safe :
      (idx : ℕ) (ms : List SlotMember)
      → All
          (λ (o : Outbound). IsSafe protocol_of object_of tags o.body)
          (member_outbounds object_of idx
            (filter (λ m. check_member_outbound protocol_of m.outbound) ms))
  unfolding member_outbounds
  member_outbounds-Safe idx [] = tt
  member_outbounds-Safe idx (m ∷ ms) =
      let rest = member_outbounds-Safe idx ms in
      if_elim
        (λ (ns : List SlotMember).
          All (λ (o : Outbound). IsSafe protocol_of object_of tags o.body)
            (member_outbounds object_of idx ns))
        (check_member_outbound protocol_of m.outbound) (λ on. ((on, refl), rest)) (λ _. rest)

  member_outbounds-Has :
      (idx : ℕ) (ms : List SlotMember)
      → Within (tags_of (member_outbounds object_of idx ms)) tags
      → All (λ (m : SlotMember). Has tags (slot_member_tag idx m.key)) ms
  unfolding member_outbounds tags_of
  member_outbounds-Has idx [] h = tt
  member_outbounds-Has idx (m ∷ ms) h =
      let (here, rest) =
        Within-cons (slot_member_tag idx m.key) (tags_of (member_outbounds object_of idx ms)) tags
          h in
      (here, member_outbounds-Has idx ms rest)

  master_balancers-NamesOnly :
      (s : Slot) (ms : List SlotMember) (names : List String)
      → All (λ (m : SlotMember). Has tags (slot_member_tag s.index m.key)) ms
      → Has tags block_tag
      → All (NamesOnly tags) (master_balancers s ms names)
  unfolding master_balancers
  master_balancers-NamesOnly s ms [] h block = tt
  master_balancers-NamesOnly s ms (n ∷ names) h block = (
    slot_balancer-NamesOnly tags s.index n (pick_of s n) ms h block,
    master_balancers-NamesOnly s ms names h block,
  )

  master_rules-Send :
      (s : Slot) (ms : List SlotMember) (names : List String)
      → Within (bal_tags (master_balancers s ms names)) bals
      → Has ls (slot_in_tag s.index)
      → All (Leads ls tags bals) (master_rules s.index names)
  unfolding master_balancers master_rules
  master_rules-Send s ms [] h in_tag = tt
  master_rules-Send s ms (n ∷ names) h in_tag =
      let bal =
        slot_balancer s.index n (pick_of s n) (map member_key_of ms) (first_tag s.index ms) in
      let (here, rest) = Within-cons bal.tag (bal_tags (master_balancers s ms names)) bals h in
      (
        (
          in_tag,
          subst (Has bals)
              (slot_balancer-tag s.index n (pick_of s n) (map member_key_of ms)
                (first_tag s.index ms))
              here,
        ),
        master_rules-Send s ms names rest in_tag,
      )

  module _ (builds : Inbound → Bool) where
    -- What the loop over the slots adds sends only to what is there, where its outbounds and
    -- balancers are.
    pub slot_parts-Safe :
        (slots : List Slot)
        → Within (tags_of (slot_parts protocol_of object_of builds slots).0) tags
        → Within (bal_tags (slot_parts protocol_of object_of builds slots).1) bals
        → Within (slot_in_tags slots) ls
        → Has tags block_tag
        → All
            (λ (o : Outbound). IsSafe protocol_of object_of tags o.body)
            (slot_parts protocol_of object_of builds slots).0
          × All (NamesOnly tags) (slot_parts protocol_of object_of builds slots).1
          × All (Leads ls tags bals) (slot_parts protocol_of object_of builds slots).2
    unfolding slot_parts tunnel_members slot_in_tags
    slot_parts-Safe [] outs_in bals_in ls_in block = (tt, tt, tt)
    slot_parts-Safe (s ∷ slots) outs_in bals_in ls_in block =
        let parts = slot_parts protocol_of object_of builds slots in
        let names = slot_masters s in
        let ms = tunnel_members protocol_of object_of builds s.members in
        let hops = hop_outbounds s.index names in
        let mems = member_outbounds object_of s.index ms in
        let Safe = λ (o : Outbound). IsSafe protocol_of object_of tags o.body in
        let (in_tag, ls_rest) = Within-cons (slot_in_tag s.index) (slot_in_tags slots) ls ls_in in
        let (_, in_rest) = Within-tags hops (mems ++ parts.0) tags outs_in in
        let (in_mems, in_outs) = Within-tags mems parts.0 tags in_rest in
        let (in_new, in_bals) =
          Within-bal_tags (master_balancers s ms names) parts.1 bals bals_in in
        let (outs, sel, rules) = slot_parts-Safe slots in_outs in_bals ls_rest block in
        let there = member_outbounds-Has s.index ms in_mems in
        (
          All-append Safe hops (mems ++ parts.0) (hop_outbounds-Safe s.index names)
              (All-append Safe mems parts.0 (member_outbounds-Safe s.index s.members) outs),
          All-append (NamesOnly tags) (master_balancers s ms names) parts.1
              (master_balancers-NamesOnly s ms names there block) sel,
          All-append (Leads ls tags bals) (master_rules s.index names) parts.2
              (master_rules-Send s ms names in_new in_tag) rules,
        )
