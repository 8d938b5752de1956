-- ===== src/Xray/Subs/Store/Flags.antt =====
-- What the writes of recomputeActive of core/xray/store.go leave in the table.
use em_xray.Xray.Subs.Store.{write_flags, flags_of, same_flag}
use em_xray.Xray.Subs.Active.{
  SubNode, mark_active, recompute_active, SubNodeOverride, effective_cap, is_off, is_pinned,
}
use em_xray.Xray.Subs.Tables.{
  NodeTables, KeepsRows, NodeRow, set_active_rows, nodes_of, set_active, Rows,
}
use em_xray.Prelude.{
  ℕ, suc, List, [], ◌∷◌, some, true, false, Bool, ◌≡◌, map, All, Bool-cases, ap, sym, arith, ◌==◌,
  ◌∙◌, Option-cases, inl, refl, inr, if_elim, ℤ, ◌&&◌, not, ltb,
}

-- The writes one after the other on one node, on the nodes of a subscription and on the table.
unfoldable pub flag_node : List (ℕ × Bool) → SubNode → SubNode
flag_node [] n = n
flag_node ((id, want) ∷ flags) n = flag_node flags (set_active id want n)

unfoldable pub flag_rows : List (ℕ × Bool) → List NodeRow → List NodeRow
flag_rows [] rs = rs
flag_rows ((id, want) ∷ flags) rs = flag_rows flags (set_active_rows id want rs)

nodes_of-set_active_rows :
    (sub_id id : ℕ) (want : Bool) (rs : List NodeRow)
    → nodes_of sub_id (set_active_rows id want rs) ≡ map (set_active id want) (nodes_of sub_id rs)
unfolding nodes_of set_active_rows
nodes_of-set_active_rows sub_id id want [] = refl
nodes_of-set_active_rows sub_id id want (r ∷ rs) = elim (Bool-cases (r.sub_id == sub_id)) [
  | inl q ↦
      rw q (ap (λ ns. set_active id want r.node ∷ ns) (nodes_of-set_active_rows sub_id id want rs))
  | inr q ↦ rw q (nodes_of-set_active_rows sub_id id want rs)
]

map-flag_node :
    (id : ℕ) (want : Bool) (flags : List (ℕ × Bool)) (ns : List SubNode)
    → map (flag_node flags) (map (set_active id want) ns) ≡ map (flag_node ((id, want) ∷ flags)) ns
unfolding flag_node
map-flag_node id want flags [] = refl
map-flag_node id want flags (n ∷ ns) =
    ap (λ ms. flag_node flags (set_active id want n) ∷ ms) (map-flag_node id want flags ns)

map_no_flags : (ns : List SubNode) → map (flag_node []) ns ≡ ns
unfolding flag_node
map_no_flags [] = refl
map_no_flags (n ∷ ns) = ap (λ ms. n ∷ ms) (map_no_flags ns)

pub nodes_of-flag_rows :
    (sub_id : ℕ) (flags : List (ℕ × Bool)) (rs : List NodeRow)
    → nodes_of sub_id (flag_rows flags rs) ≡ map (flag_node flags) (nodes_of sub_id rs)
unfolding flag_rows
nodes_of-flag_rows sub_id [] rs = sym (map_no_flags (nodes_of sub_id rs))
nodes_of-flag_rows sub_id ((id, want) ∷ flags) rs =
    nodes_of-flag_rows sub_id flags (set_active_rows id want rs)
    ∙ ap (map (flag_node flags)) (nodes_of-set_active_rows sub_id id want rs)
    ∙ map-flag_node id want flags (nodes_of sub_id rs)

-- The writes go through or leave an error; where they go through only the table of nodes changes.
pub rows-write_flags :
    {S : Type 0} (db : NodeTables S)
    → KeepsRows db
    → (flags : List (ℕ × Bool)) (s t : S) → write_flags db flags s ≡ some t
    → db.rows t ≡ record (db.rows s) { nodes = flag_rows flags (db.rows s).nodes }
unfolding write_flags flag_rows
rows-write_flags db keeps [] s t h = let same : s ≡ t = ground (arith, h) in ap db.rows (sym same)
rows-write_flags db keeps ((id, want) ∷ flags) s t h =
    elim (Option-cases (db.update_active id want s)) [
      | inl e ↦ absurd (ground (arith, h, e))
      | inr (u, e) ↦
          (let written = keeps.wrote_active id want s u e in
            rows-write_flags db keeps flags u t (rw (e, write_flags) at h)
            ∙ ap (λ (r : Rows). record r { nodes = flag_rows flags r.nodes }) written)
    ]

-- No id of a node stands twice.
abbrev pub IsUnused : ℕ → List SubNode → Type 0
IsUnused k ns = All (λ (n : SubNode). (n.id == k) ≡ false) ns

unfoldable pub HasIds : List SubNode → Type 0
HasIds [] = Unit
HasIds (n ∷ ns) = IsUnused n.id ns × HasIds ns

-- Two lists of the same nodes, but for the flags.
unfoldable pub SameNodes : List SubNode → List SubNode → Type 0
SameNodes [] [] = Unit
SameNodes [] (w ∷ ws) = ⊥
SameNodes (n ∷ ns) [] = ⊥
SameNodes (n ∷ ns) (w ∷ ws) = (w ≡ record n { active = w.active }) × SameNodes ns ws

set_active_other :
    (k : ℕ) (want : Bool) (n : SubNode) → (n.id == k) ≡ false → set_active k want n ≡ n
set_active_other k want n h = rw h refl

set_active_own : (want : Bool) (n : SubNode) → set_active n.id want n ≡ record n { active = want }
set_active_own want n = let own : (n.id == n.id) ≡ true = ground arith in rw own refl

-- The writes for other nodes do not touch a node.
flag_node-unused :
    (ns ws : List SubNode) (x : SubNode) → IsUnused x.id ns → flag_node (flags_of ns ws) x ≡ x
unfolding flag_node flags_of
flag_node-unused [] ws x h = refl
flag_node-unused (n ∷ ns) [] x h = refl
flag_node-unused (n ∷ ns) (w ∷ ws) x h =
    let rest = flag_node-unused ns ws x h.1 in
    let head = h.0 in
    if_elim (λ (fs : List (ℕ × Bool)). flag_node fs x ≡ x) (same_flag n.active w.active) (λ _. rest)
      (λ _.
        ap (flag_node (flags_of ns ws)) (set_active_other n.id w.active x (ground (arith, head)))
        ∙ rest)

map-flag_node_other :
    (k : ℕ) (want : Bool) (flags : List (ℕ × Bool)) (ns : List SubNode)
    → IsUnused k ns
    → map (flag_node ((k, want) ∷ flags)) ns ≡ map (flag_node flags) ns
unfolding flag_node
map-flag_node_other k want flags [] h = refl
map-flag_node_other k want flags (n ∷ ns) h =
    ap (λ x. flag_node flags x ∷ map (flag_node ((k, want) ∷ flags)) ns)
      (set_active_other k want n h.0)
    ∙ ap (λ ms. flag_node flags n ∷ ms) (map-flag_node_other k want flags ns h.1)

same_flag-eq : (a b : Bool) → same_flag a b ≡ true → a ≡ b
same_flag-eq a b h = ground (arith, h)

-- Writing the flags that differ makes the nodes the wanted ones.
pub map-flags_of :
    (ns ws : List SubNode) → HasIds ns → SameNodes ns ws → map (flag_node (flags_of ns ws)) ns ≡ ws
unfolding flags_of HasIds SameNodes flag_node
map-flags_of [] [] ids same = refl
map-flags_of [] (w ∷ ws) ids same = absurd same
map-flags_of (n ∷ ns) [] ids same = absurd same
map-flags_of (n ∷ ns) (w ∷ ws) ids same =
    let rest = map-flags_of ns ws ids.1 same.1 in
    let want : w ≡ record n { active = w.active } = same.0 in
    if_elim (λ (fs : List (ℕ × Bool)). map (flag_node fs) (n ∷ ns) ≡ w ∷ ws)
      (same_flag n.active w.active)
      (λ q.
        let kept : n ≡ w =
          ap (λ a. record n { active = a }) (same_flag-eq n.active w.active q) ∙ sym want in
        ap (λ x. x ∷ map (flag_node (flags_of ns ws)) ns) (flag_node-unused ns ws n ids.0 ∙ kept)
        ∙ ap (λ ms. w ∷ ms) rest)
      (λ q.
        ap (λ x. x ∷ map (flag_node ((n.id, w.active) ∷ flags_of ns ws)) ns)
          (ap (flag_node (flags_of ns ws)) (set_active_own w.active n)
            ∙ flag_node-unused ns ws (record n { active = w.active }) ids.0
            ∙ sym want)
        ∙ ap (λ ms. w ∷ ms) (map-flag_node_other n.id w.active (flags_of ns ws) ns ids.0 ∙ rest))

mark_active-SameNodes :
    (enabled : Bool) (os : List SubNodeOverride) (cap_n kept : ℕ) (ns : List SubNode)
    → SameNodes ns (mark_active enabled os cap_n kept ns)
unfolding mark_active SameNodes
mark_active-SameNodes enabled os cap_n kept [] = tt
mark_active-SameNodes enabled os cap_n kept (n ∷ ns) =
    let same = mark_active-SameNodes enabled os cap_n kept ns in
    let more = mark_active-SameNodes enabled os cap_n (suc kept) ns in
    let P : List SubNode → Type 0 = λ ws. SameNodes (n ∷ ns) ws in
    if_elim P (enabled && not (is_off os n.fingerprint))
      (λ _.
        if_elim P (is_pinned os n.fingerprint) (λ _. (refl, same))
          (λ _. if_elim P (ltb kept cap_n) (λ _. (refl, more)) (λ _. (refl, same))))
      (λ _. (refl, same))

pub recompute_active-SameNodes :
    (enabled : Bool) (node_cap : ℤ) (os : List SubNodeOverride) (ns : List SubNode)
    → SameNodes ns (recompute_active enabled node_cap os ns)
unfolding recompute_active
recompute_active-SameNodes enabled node_cap os ns =
    mark_active-SameNodes enabled os (effective_cap node_cap) 0 ns
