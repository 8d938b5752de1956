-- ===== src/Xray/Subs/Store/Refresh.antt =====
-- What ReplaceNodes of core/xray/store.go leaves of the overrides and of the nodes.
use em_xray.Xray.Subs.Store.Keys.{HasIds-nodes_of}
use em_xray.Xray.Subs.Store.Synced.{recompute-writes}
use em_xray.Xray.Subs.Store.Edits.{IsStored, write_edit-IsStored}
use em_xray.Xray.Subs.Store.{create_nodes, replace_nodes, edit_nodes, replace, write_edit}
use em_xray.Xray.Subs.Active.{
  SubNodeOverride, mark_active, recompute_active, SubNode, is_off, effective_cap, is_pinned,
}
use mathlib.Core.Path.{subst}
use em_xray.Xray.Subs.Tables.{NodeTables, KeepsRows, Rows, SubRow, sub_row, overs_of, nodes_of}
use em_xray.Prelude.{
  ℕ, suc, List, [], ◌∷◌, some, true, false, Bool, ℤ, All, ◌≡◌, if_elim, arith, Option-cases, ◌&&◌,
  ap, inl, not, sym, inr, ◌∙◌, ltb, refl,
}

-- A node with a disable is not active.
abbrev pub ObeysOff : List SubNodeOverride → SubNode → Type 0
ObeysOff os n = is_off os n.fingerprint ≡ true → n.active ≡ false

mark_active-ObeysOff :
    (enabled : Bool) (os : List SubNodeOverride) (cap_n kept : ℕ) (ns : List SubNode)
    → All (ObeysOff os) (mark_active enabled os cap_n kept ns)
unfolding mark_active
mark_active-ObeysOff enabled os cap_n kept [] = tt
mark_active-ObeysOff enabled os cap_n kept (n ∷ ns) =
    let same = mark_active-ObeysOff enabled os cap_n kept ns in
    let more = mark_active-ObeysOff enabled os cap_n (suc kept) ns in
    let P : List SubNode → Type 0 = λ ws. All (ObeysOff os) ws in
    if_elim P (enabled && not (is_off os n.fingerprint))
      (λ q.
        if_elim P (is_pinned os n.fingerprint) (λ _. ((λ off. ground (arith, q, off)), same))
          (λ _.
            if_elim P (ltb kept cap_n) (λ _. ((λ off. ground (arith, q, off)), more))
              (λ _. ((λ off. refl), same))))
      (λ _. ((λ off. refl), same))

recompute_active-ObeysOff :
    (enabled : Bool) (node_cap : ℤ) (os : List SubNodeOverride) (ns : List SubNode)
    → All (ObeysOff os) (recompute_active enabled node_cap os ns)
unfolding recompute_active
recompute_active-ObeysOff enabled node_cap os ns =
    mark_active-ObeysOff enabled os (effective_cap node_cap) 0 ns

module _ {S : Type 0} (db : NodeTables S) (keeps : KeepsRows db) where
  create_nodes-overs :
      (id : ℕ) (ns : List SubNode) (s t : S)
      → create_nodes db id ns s ≡ some t
      → (db.rows t).overs ≡ (db.rows s).overs
  unfolding create_nodes
  create_nodes-overs id [] s t h =
      let same : s ≡ t = ground (arith, h) in ap (λ x. (db.rows x).overs) (sym same)
  create_nodes-overs id (n ∷ ns) s t h = elim (Option-cases (db.create_node id n s)) [
    | inl q ↦ absurd (ground (arith, h, q))
    | inr (u, q) ↦
        (let (k, new, written) = keeps.created_node id n s u q in
          create_nodes-overs id ns u t (rw (q, create_nodes) at h)
          ∙ ap (λ (r : Rows). r.overs) written)
  ]

  replace-overs :
      (id : ℕ) (ns : List SubNode) (s t : S)
      → replace_nodes db id ns s ≡ some t
      → (db.rows t).overs ≡ (db.rows s).overs
  unfolding replace_nodes
  replace-overs id ns s t h = elim (Option-cases (db.delete_nodes id s)) [
    | inl q ↦ absurd (ground (arith, h, q))
    | inr (u, q) ↦
        create_nodes-overs id ns u t (rw (q, replace_nodes) at h)
        ∙ ap (λ (r : Rows). r.overs) (keeps.deleted_nodes id s u q)
  ]

  -- A refresh leaves the overrides as they are, and a node whose fingerprint has a disable among
  -- them is not active after it, whatever nodes the fetch brought. The keys of the nodes are their
  -- own before, and the subscription is stored after.
  pub replace-ObeysOff :
      (id : ℕ) (ns : List SubNode) (s t : S) (sub : SubRow)
      → IsStored (db.rows s)
      → edit_nodes db id (replace ns) s ≡ some t
      → sub_row id (db.rows t).subs ≡ some sub
      → ((db.rows t).overs ≡ (db.rows s).overs)
        × All (ObeysOff (overs_of id (db.rows s).overs)) (nodes_of id (db.rows t).nodes)
  unfolding edit_nodes write_edit
  replace-ObeysOff id ns s t sub stored h found =
      elim (Option-cases (write_edit db id (replace ns) s)) [
        | inl q ↦ absurd (ground (arith, h, q))
        | inr (u, q) ↦
            (let mid = write_edit-IsStored db keeps id (replace ns) s u q stored in
              let (flags, written, synced) =
                recompute-writes db keeps id u t (HasIds-nodes_of id (db.rows u).nodes mid.keys)
                  (rw (q, edit_nodes) at h) in
              let kept : (db.rows t).overs ≡ (db.rows s).overs =
                ap (λ (r : Rows). r.overs) written ∙ replace-overs id ns s u q in
              let os = overs_of id (db.rows t).overs in
              (
                kept,
                subst (λ o. All (ObeysOff (overs_of id o)) (nodes_of id (db.rows t).nodes)) kept
                    (subst (λ xs. All (ObeysOff os) xs) (synced sub found)
                      (recompute_active-ObeysOff sub.enabled sub.node_cap os
                        (nodes_of id (db.rows t).nodes))),
              ))
      ]
