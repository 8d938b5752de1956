-- ===== src/Xray/Subs/Active.antt =====
-- recomputeActive of core/xray/store.go, on the rows that its queries return: the subscription, its
-- nodes by id, and its overrides. The writes of a changed flag are the flags of the result.
use em_xray.Prelude.{
  ℕ, zero, suc, List, [], ◌∷◌, String, true, false, Bool, ℤ, pos, negsuc, ◌&&◌, if◌then◌else◌, not,
  ◌≤◌, count, ◌≡◌, str_eq, ltb, min, ◌||◌, ◌-◌, arith, ◌<◌, refl, ap, Bool-cases, inl, inr,
}

-- SubNode, the fields that are read or set
pub record SubNode : Type 0 where
  pub id : ℕ
  pub fingerprint : String
  pub outbound : String
  pub active : Bool

-- SubNodeOverride
pub record SubNodeOverride : Type 0 where
  pub fingerprint : String
  pub disabled : Bool
  pub pinned : Bool

-- DefaultSubNodeCap
abbrev pub default_sub_node_cap : ℕ
default_sub_node_cap = 30

-- Subscription.EffectiveCap, of the field
unfoldable pub effective_cap : ℤ → ℕ
effective_cap (pos zero) = default_sub_node_cap
effective_cap (pos (suc n)) = suc n
effective_cap (negsuc n) = default_sub_node_cap

-- off[fp] and pinned[fp]
unfoldable pub is_off : List SubNodeOverride → String → Bool
is_off [] fp = false
is_off (o ∷ os) fp = (o.disabled && str_eq o.fingerprint fp) || is_off os fp

unfoldable pub is_pinned : List SubNodeOverride → String → Bool
is_pinned [] fp = false
is_pinned (o ∷ os) fp = (o.pinned && str_eq o.fingerprint fp) || is_pinned os fp

-- The loop over the nodes, with `kept` of them within the cap so far.
unfoldable pub mark_active : Bool → List SubNodeOverride → ℕ → ℕ → List SubNode → List SubNode
mark_active enabled os cap_n kept [] = []
mark_active enabled os cap_n kept (n ∷ ns) =
    let same = mark_active enabled os cap_n kept ns in
    let more = mark_active enabled os cap_n (suc kept) ns in
    if enabled && not (is_off os n.fingerprint)
    then (if is_pinned os n.fingerprint
        then record n { active = true } ∷ same
        else if ltb kept cap_n
        then record n { active = true } ∷ more
        else record n { active = false } ∷ same)
    else record n { active = false } ∷ same

-- recomputeActive
unfoldable pub recompute_active : Bool → ℤ → List SubNodeOverride → List SubNode → List SubNode
recompute_active enabled node_cap os nodes = mark_active enabled os (effective_cap node_cap) 0 nodes

-- A node that takes a place of the cap, if there is one.
abbrev pub wants_place : List SubNodeOverride → SubNode → Bool
wants_place os n = not (is_off os n.fingerprint) && not (is_pinned os n.fingerprint)

abbrev is_active : SubNode → Bool
is_active n = n.active

-- An active node without a pin.
abbrev pub placed : List SubNodeOverride → SubNode → Bool
placed os n = n.active && not (is_pinned os n.fingerprint)

count-mark_active :
    (os : List SubNodeOverride) (cap_n kept : ℕ) (ns : List SubNode)
    → kept ≤ cap_n
    → count (placed os) (mark_active true os cap_n kept ns)
      ≡ min (cap_n - kept) (count (wants_place os) ns)
unfolding mark_active
count-mark_active os cap_n kept [] h = ground arith
count-mark_active os cap_n kept (n ∷ ns) h =
    let same = count-mark_active os cap_n kept ns h in
    let more : kept < cap_n
        → count (placed os) (mark_active true os cap_n (suc kept) ns)
          ≡ min (cap_n - suc kept) (count (wants_place os) ns) =
      λ q. count-mark_active os cap_n (suc kept) ns (omega arith) in
    ground (arith, same, more)

-- The cap is used in full and not passed: of an enabled subscription's nodes, the active ones
-- without a pin are as many as the nodes that are neither disabled nor pinned, up to the cap.
pub count-recompute_active :
    (node_cap : ℤ) (os : List SubNodeOverride) (nodes : List SubNode)
    → count (placed os) (recompute_active true node_cap os nodes)
      ≡ min (effective_cap node_cap) (count (wants_place os) nodes)
unfolding recompute_active
count-recompute_active node_cap os nodes =
    let lem = count-mark_active os (effective_cap node_cap) 0 nodes (omega arith) in
    ground (arith, lem)

-- The rule of the flags, node by node: `rank` nodes before it want a place.
abbrev pub by_rank : Bool → List SubNodeOverride → ℕ → ℕ → List SubNode → List SubNode
by_rank enabled os cap_n rank [] = []
by_rank enabled os cap_n rank (n ∷ ns) =
    record n {
      active =
          enabled
          && (not (is_off os n.fingerprint) && (is_pinned os n.fingerprint || ltb rank cap_n));
    }
    ∷ by_rank enabled os cap_n (if wants_place os n then suc rank else rank) ns

mark_active_off :
    (os : List SubNodeOverride) (cap_n kept rank : ℕ) (ns : List SubNode)
    → mark_active false os cap_n kept ns ≡ by_rank false os cap_n rank ns
unfolding mark_active
mark_active_off os cap_n kept rank [] = refl
mark_active_off os cap_n kept rank (n ∷ ns) =
    ap (λ rest. record n { active = false } ∷ rest)
      (mark_active_off os cap_n kept (if wants_place os n then suc rank else rank) ns)

mark_active_on :
    (os : List SubNodeOverride) (cap_n kept rank : ℕ) (ns : List SubNode)
    → kept ≡ min rank cap_n
    → mark_active true os cap_n kept ns ≡ by_rank true os cap_n rank ns
unfolding mark_active
mark_active_on os cap_n kept rank [] h = refl
mark_active_on os cap_n kept rank (n ∷ ns) h = elim (Bool-cases (is_off os n.fingerprint)) [
  | inl e ↦
      rw e
        (ap (λ rest. record n { active = false } ∷ rest) (mark_active_on os cap_n kept rank ns h))
  | inr e ↦ elim (Bool-cases (is_pinned os n.fingerprint)) [
    | inl q ↦
        rw (e, q)
          (ap (λ rest. record n { active = true } ∷ rest) (mark_active_on os cap_n kept rank ns h))
    | inr q ↦ elim (Bool-cases (ltb rank cap_n)) [
      | inl r ↦
          (let low : ltb kept cap_n ≡ true = ground arith in
            rw (e, q, r, low)
              (ap (λ rest. record n { active = true } ∷ rest)
                (mark_active_on os cap_n (suc kept) (suc rank) ns (ground arith))))
      | inr r ↦
          (let full : ltb kept cap_n ≡ false = ground arith in
            rw (e, q, r, full)
              (ap (λ rest. record n { active = false } ∷ rest)
                (mark_active_on os cap_n kept (suc rank) ns (ground arith))))
    ]
  ]
]

-- The flags follow the rule: a node is active if its subscription is enabled, it is not disabled, and
-- it is pinned or fewer nodes than the cap that want a place stand before it. Nothing else changes.
pub recompute_active-by_rank :
    (enabled : Bool) (node_cap : ℤ) (os : List SubNodeOverride) (nodes : List SubNode)
    → recompute_active enabled node_cap os nodes
      ≡ by_rank enabled os (effective_cap node_cap) 0 nodes
unfolding recompute_active
recompute_active-by_rank true node_cap os nodes =
    mark_active_on os (effective_cap node_cap) 0 0 nodes (ground arith)
recompute_active-by_rank false node_cap os nodes =
    mark_active_off os (effective_cap node_cap) 0 0 nodes
