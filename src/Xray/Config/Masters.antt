-- ===== src/Xray/Config/Masters.antt =====
-- The hops of the masters in the config of Generate of core/xray/config.go.
use em_xray.Xray.Config.{
  Outbound, tags_of, add_masters, hop_outbounds, dialer_tag, slot_parts, slot_index_by_name,
  Inbound, slot_masters, member_outbounds, tunnel_members,
}
use em_xray.Xray.Slot.{Slot}
use em_xray.Prelude.{
  ℕ, List, [], ◌∷◌, String, true, Bool, Option, Dict, contains, ◌++◌, is_some, ◌≡◌, ap, ◌||◌, get,
  ◌∙◌, get-put, refl, contains-append, put, arith, Bool-cases, str_eq, inl, eq_iff, inr,
}

pub tags_of-append : (os ps : List Outbound) → tags_of (os ++ ps) ≡ tags_of os ++ tags_of ps
unfolding tags_of
tags_of-append [] ps = refl
tags_of-append (o ∷ os) ps = ap (λ ts. o.tag ∷ ts) (tags_of-append os ps)

pub contains-tags_of :
    (os ps : List Outbound) (t : String)
    → contains (tags_of (os ++ ps)) t ≡ (contains (tags_of os) t || contains (tags_of ps) t)
contains-tags_of os ps t =
    ap (λ ts. contains ts t) (tags_of-append os ps) ∙ contains-append (tags_of os) (tags_of ps) t

get-add_masters :
    (idx : ℕ) (names : List String) (d : Dict ℕ) (n : String)
    → is_some (get (add_masters idx names d) n) ≡ (contains names n || is_some (get d n))
unfolding add_masters contains
get-add_masters idx [] d n = refl
get-add_masters idx (m ∷ names) d n =
    let put_it = get-put d m n idx in
    get-add_masters idx names (put d m idx) n ∙ ground (arith, put_it)

hop_outbounds-Has :
    (idx : ℕ) (names : List String) (n : String)
    → contains names n ≡ true
    → contains (tags_of (hop_outbounds idx names)) (dialer_tag n) ≡ true
unfolding tags_of contains hop_outbounds
hop_outbounds-Has idx [] n h = ground (arith, h)
hop_outbounds-Has idx (m ∷ names) n h = elim (Bool-cases (str_eq m n)) [
  | inl q ↦
      (let same : dialer_tag m ≡ dialer_tag n = ap dialer_tag ((eq_iff m n).0 q) in
        ground (arith, same, eq_iff (dialer_tag m) (dialer_tag n)))
  | inr q ↦
      (let rest = hop_outbounds-Has idx names n (ground (arith, h, q)) in ground (arith, rest))
]

-- A name that has an index is of the given map, or its master has a hop.
pub slot_parts-Has :
    (protocol_of : String → Option String) (object_of : String → Option (Option String))
    (builds : Inbound → Bool) (slots : List Slot) (d : Dict ℕ) (n : String)
    → is_some (get (slot_index_by_name slots d) n) ≡ true
    → (is_some (get d n)
        || contains (tags_of (slot_parts protocol_of object_of builds slots).0) (dialer_tag n))
      ≡ true
unfolding slot_parts slot_index_by_name
slot_parts-Has protocol_of object_of builds [] d n h = ground (arith, h)
slot_parts-Has protocol_of object_of builds (s ∷ slots) d n h =
    let masters = slot_masters s in
    let hops = hop_outbounds s.index masters in
    let members =
      member_outbounds object_of s.index (tunnel_members protocol_of object_of builds s.members) in
    let outs = (slot_parts protocol_of object_of builds slots).0 in
    let ih =
      slot_parts-Has protocol_of object_of builds slots (add_masters s.index masters d) n h in
    let ga = get-add_masters s.index masters d n in
    let e1 = contains-tags_of hops (members ++ outs) (dialer_tag n) in
    let e2 = contains-tags_of members outs (dialer_tag n) in
    elim (Bool-cases (contains masters n)) [
      | inl q ↦ (let hop = hop_outbounds-Has s.index masters n q in ground (arith, hop, e1))
      | inr q ↦ ground (arith, ih, ga, e1, e2, q)
    ]
