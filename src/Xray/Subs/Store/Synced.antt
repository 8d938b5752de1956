-- ===== src/Xray/Subs/Store/Synced.antt =====
-- Every edit of core/xray/store.go leaves the flags of the nodes in step with the overrides.
use em_xray.Xray.Subs.Store.Flags.{
  SameNodes, HasIds, flag_rows, recompute_active-SameNodes, rows-write_flags, nodes_of-flag_rows,
  map-flags_of,
}
use em_xray.Xray.Subs.Store.{recompute, flags_of, write_flags}
use em_xray.Xray.Subs.Active.{
  mark_active, recompute_active, SubNodeOverride, SubNode, effective_cap,
}
use mathlib.Core.Path.{subst}
use em_xray.Xray.Subs.Tables.{NodeTables, KeepsRows, Rows, SubRow, sub_row, nodes_of, overs_of}
use em_xray.Prelude.{
  ℕ, suc, List, [], ◌∷◌, some, Bool, ℤ, ◌≡◌, arith, sym, refl, ◌∙◌, Option-cases, inl, inr,
}

-- The flags before do not matter to the flags after.
mark_active-same :
    (enabled : Bool) (os : List SubNodeOverride) (cap_n kept : ℕ) (ns ws : List SubNode)
    → SameNodes ns ws
    → mark_active enabled os cap_n kept ws ≡ mark_active enabled os cap_n kept ns
unfolding mark_active SameNodes
mark_active-same enabled os cap_n kept [] [] h = refl
mark_active-same enabled os cap_n kept [] (w ∷ ws) h = absurd h
mark_active-same enabled os cap_n kept (n ∷ ns) [] h = absurd h
mark_active-same enabled os cap_n kept (n ∷ ns) (w ∷ ws) h =
    let same = mark_active-same enabled os cap_n kept ns ws h.1 in
    let more = mark_active-same enabled os cap_n (suc kept) ns ws h.1 in
    let want = h.0 in
    subst
      (λ x. mark_active enabled os cap_n kept (x ∷ ws) ≡ mark_active enabled os cap_n kept (n ∷ ns))
      (sym want) (rw (same, more) refl)

recompute_active_twice :
    (enabled : Bool) (node_cap : ℤ) (os : List SubNodeOverride) (ns : List SubNode)
    → recompute_active enabled node_cap os (recompute_active enabled node_cap os ns)
      ≡ recompute_active enabled node_cap os ns
unfolding recompute_active
recompute_active_twice enabled node_cap os ns =
    mark_active-same enabled os (effective_cap node_cap) 0 ns
      (mark_active enabled os (effective_cap node_cap) 0 ns)
      (recompute_active-SameNodes enabled node_cap os ns)

-- The flags of a subscription's nodes are those that recomputeActive derives.
abbrev pub IsSynced : ℕ → Rows → Type 0
IsSynced id rows =
    (r : SubRow)
    → sub_row id rows.subs ≡ some r
    → recompute_active r.enabled r.node_cap (overs_of id rows.overs) (nodes_of id rows.nodes)
      ≡ nodes_of id rows.nodes

-- Writing the flags that recomputeActive derives from the rows brings the nodes in step.
flag_rows-IsSynced :
    (id : ℕ) (rows : Rows) (sub : SubRow)
    → HasIds (nodes_of id rows.nodes)
    → sub_row id rows.subs ≡ some sub
    → IsSynced id (record rows {
      nodes =
          flag_rows
            (flags_of (nodes_of id rows.nodes) (
              recompute_active sub.enabled sub.node_cap
                (overs_of id rows.overs)
                (nodes_of id rows.nodes)))
            rows.nodes;
    })
flag_rows-IsSynced id rows sub ids found r again =
    let ns = nodes_of id rows.nodes in
    let os = overs_of id rows.overs in
    let wanted = recompute_active sub.enabled sub.node_cap os ns in
    let now : nodes_of id (flag_rows (flags_of ns wanted) rows.nodes) ≡ wanted =
      nodes_of-flag_rows id (flags_of ns wanted) rows.nodes
      ∙ map-flags_of ns wanted ids (recompute_active-SameNodes sub.enabled sub.node_cap os ns) in
    let same : sub ≡ r = ground (arith, found, again) in
    subst
      (λ (x : SubRow).
        recompute_active x.enabled x.node_cap os
          (nodes_of id (flag_rows (flags_of ns wanted) rows.nodes))
        ≡ nodes_of id (flag_rows (flags_of ns wanted) rows.nodes))
      same (rw now (recompute_active_twice sub.enabled sub.node_cap os ns))

module _ {S : Type 0} (db : NodeTables S) (keeps : KeepsRows db) where
  -- A recompute that goes through writes flags of nodes, and brings the subscription in step.
  pub recompute-writes :
      (id : ℕ) (s t : S)
      → HasIds (nodes_of id (db.rows s).nodes)
      → recompute db id s ≡ some t
      → (flags : List (ℕ × Bool)) × (db.rows t
          ≡ record (db.rows s) { nodes = flag_rows flags (db.rows s).nodes })
        × IsSynced id (db.rows t)
  unfolding recompute
  recompute-writes id s t ids h = elim (Option-cases (db.first_sub id s)) [
    | inl q ↦ absurd (ground (arith, h, q))
    | inr (sub, q) ↦ elim (Option-cases (db.find_nodes id s)) [
      | inl p ↦ absurd (ground (arith, h, q, p))
      | inr (ns, p) ↦ elim (Option-cases (db.find_overs id s)) [
        | inl o ↦ absurd (ground (arith, h, q, p, o))
        | inr (os, o) ↦
            by_rows sub (keeps.read_sub id s sub q)
              (rw (q, p, o, keeps.read_nodes id s ns p, keeps.read_overs id s os o, recompute) at h)
      ]
    ]
  ]
    where
      by_rows :
          (sub : SubRow)
          → sub_row id (db.rows s).subs ≡ some sub
          → write_flags db
              (flags_of (nodes_of id (db.rows s).nodes) (
                recompute_active sub.enabled sub.node_cap
                  (overs_of id (db.rows s).overs)
                  (nodes_of id (db.rows s).nodes)))
              s
            ≡ some t
          → (flags : List (ℕ × Bool)) × (db.rows t
              ≡ record (db.rows s) { nodes = flag_rows flags (db.rows s).nodes })
            × IsSynced id (db.rows t)
      by_rows sub found through =
          let written = rows-write_flags db keeps _ s t through in
          (
            _,
            written,
            subst (IsSynced id) (sym written) (flag_rows-IsSynced id (db.rows s) sub ids found),
          )
