-- ===== src/Xray/Subs/Store/Edits.antt =====
-- Every edit of core/xray/store.go keeps the tables sound.
use em_xray.Xray.Subs.Store.Synced.{IsSynced, recompute-writes}
use em_xray.Xray.Subs.Store.{
  pin_columns, disable_columns, create_nodes, write_edit, edit_nodes, pin_row, disable_row,
  set_sub_enabled, NodeEdit, replace_nodes, set_node_pinned, clear_pins, set_node_disabled, enable,
  replace, pin, disable, clear_all_pins,
}
use em_xray.Xray.Subs.Active.{SubNodeOverride, SubNode}
use em_xray.Xray.Subs.Store.Keys.{
  HasKeys, HasKeys-last, HasIds-nodes_of, HasKeys-delete, HasKeys-flag_rows,
}
use mathlib.Core.Path.{subst}
use em_xray.Xray.Subs.Tables.{
  NodeTables, KeepsRows, Rows, Columns, OverrideRow, upsert_rows, clear_pins_rows, assign,
}
use em_xray.Prelude.{
  ℕ, List, [], ◌∷◌, String, some, true, false, Bool, ◌&&◌, All, ◌≡◌, if_elim, arith, ◌==◌,
  Option-cases, str_eq, inl, refl, inr, sym,
}

abbrev pub IsExclusive : OverrideRow → Type 0
IsExclusive r = (r.over.disabled && r.over.pinned) ≡ false

-- The keys of the nodes are their own, and no override is both a disable and a pin.
pub record IsStored (rows : Rows) : Type 0 where
  pub keys : HasKeys rows.nodes
  pub exclusive : All IsExclusive rows.overs

-- An upsert whose row excludes one of the two, and clears it on a conflict.
abbrev IsClearing : Columns → SubNodeOverride → Type 0
IsClearing cols new =
    (old : SubNodeOverride)
    → (old.disabled && old.pinned) ≡ false
    → ((assign cols new old).disabled && (assign cols new old).pinned) ≡ false

upsert-IsExclusive :
    (cols : Columns) (id : ℕ) (new : SubNodeOverride) (rs : List OverrideRow)
    → (new.disabled && new.pinned) ≡ false
    → IsClearing cols new
    → All IsExclusive rs
    → All IsExclusive (upsert_rows cols id new rs)
unfolding upsert_rows
upsert-IsExclusive cols id new [] own clear h = (own, tt)
upsert-IsExclusive cols id new (r ∷ rs) own clear h =
    let rest = upsert-IsExclusive cols id new rs own clear h.1 in
    if_elim (λ (out : List OverrideRow). All IsExclusive out)
      (r.sub_id == id && str_eq r.over.fingerprint new.fingerprint) (λ _. (clear r.over h.0, h.1))
      (λ _. (h.0, rest))

clear_pins-IsExclusive :
    (id : ℕ) (rs : List OverrideRow) → All IsExclusive rs → All IsExclusive (clear_pins_rows id rs)
unfolding clear_pins_rows
clear_pins-IsExclusive id [] h = tt
clear_pins-IsExclusive id (r ∷ rs) h = (
  if_elim IsExclusive (r.sub_id == id) (λ _. ground arith) (λ _. h.0),
  clear_pins-IsExclusive id rs h.1,
)

IsClearing-pin : (fp : String) (pinned : Bool) → IsClearing (pin_columns pinned) (pin_row fp pinned)
IsClearing-pin fp true old h = refl
IsClearing-pin fp false old h = ground (arith, h)

IsClearing-disable :
    (fp : String) (disabled : Bool)
    → IsClearing (disable_columns disabled) (disable_row fp disabled)
IsClearing-disable fp true old h = refl
IsClearing-disable fp false old h = refl

module _ {S : Type 0} (db : NodeTables S) (keeps : KeepsRows db) where
  create_nodes-IsStored :
      (id : ℕ) (ns : List SubNode) (s t : S)
      → create_nodes db id ns s ≡ some t
      → IsStored (db.rows s)
      → IsStored (db.rows t)
  unfolding create_nodes
  create_nodes-IsStored id [] s t h stored =
      let same : s ≡ t = ground (arith, h) in subst (λ x. IsStored (db.rows x)) same stored
  create_nodes-IsStored id (n ∷ ns) s t h stored = elim (Option-cases (db.create_node id n s)) [
    | inl q ↦ absurd (ground (arith, h, q))
    | inr (u, q) ↦
        (let (k, new, written) = keeps.created_node id n s u q in
          create_nodes-IsStored id ns u t (rw (q, create_nodes) at h) (
            subst IsStored (sym written) (record {
              keys =
                  HasKeys-last (db.rows s).nodes
                    (record { sub_id = id; node = record n { id = k } }) new stored.keys;
              exclusive = stored.exclusive;
            })))
  ]

  pub write_edit-IsStored :
      (id : ℕ) (edit : NodeEdit) (s t : S)
      → write_edit db id edit s ≡ some t
      → IsStored (db.rows s)
      → IsStored (db.rows t)
  unfolding write_edit set_sub_enabled replace_nodes set_node_pinned clear_pins set_node_disabled
  write_edit-IsStored id (enable enabled) s t h stored =
      subst IsStored (sym (keeps.wrote_enabled id enabled s t h))
        (record { keys = stored.keys; exclusive = stored.exclusive })
  write_edit-IsStored id (replace ns) s t h stored = elim (Option-cases (db.delete_nodes id s)) [
    | inl q ↦ absurd (ground (arith, h, q))
    | inr (u, q) ↦ create_nodes-IsStored id ns u t (rw (q, write_edit, replace_nodes) at h) (
        subst IsStored (sym (keeps.deleted_nodes id s u q)) (record {
          keys = HasKeys-delete id (db.rows s).nodes stored.keys;
          exclusive = stored.exclusive;
        }))
  ]
  write_edit-IsStored id (pin fp pinned) s t h stored =
      subst IsStored (sym (keeps.upserted (pin_columns pinned) id (pin_row fp pinned) s t h))
        (record {
          keys = stored.keys;
          exclusive =
              upsert-IsExclusive (pin_columns pinned) id (pin_row fp pinned) (db.rows s).overs refl
                (IsClearing-pin fp pinned) stored.exclusive;
        })
  write_edit-IsStored id clear_all_pins s t h stored =
      subst IsStored (sym (keeps.cleared id s t h)) (record {
        keys = stored.keys;
        exclusive = clear_pins-IsExclusive id (db.rows s).overs stored.exclusive;
      })
  write_edit-IsStored id (disable fp disabled) s t h stored =
      subst IsStored
        (sym (keeps.upserted (disable_columns disabled) id (disable_row fp disabled) s t h))
        (record {
          keys = stored.keys;
          exclusive =
              upsert-IsExclusive (disable_columns disabled) id (disable_row fp disabled)
                (db.rows s).overs (ground arith) (IsClearing-disable fp disabled) stored.exclusive;
        })

  -- Every edit of a subscription's nodes that goes through leaves its flags in step with its
  -- overrides, the keys of the nodes their own, and no override both a disable and a pin, where the
  -- keys and the overrides were so before. The database keeps rows as its statements say.
  pub edit_nodes-IsSynced :
      (id : ℕ) (edit : NodeEdit) (s t : S)
      → IsStored (db.rows s)
      → edit_nodes db id edit s ≡ some t
      → IsStored (db.rows t) × IsSynced id (db.rows t)
  unfolding edit_nodes
  edit_nodes-IsSynced id edit s t stored h = elim (Option-cases (write_edit db id edit s)) [
    | inl q ↦ absurd (ground (arith, h, q))
    | inr (u, q) ↦
        (let mid = write_edit-IsStored id edit s u q stored in
          let (flags, written, synced) =
            recompute-writes db keeps id u t (HasIds-nodes_of id (db.rows u).nodes mid.keys)
              (rw (q, edit_nodes) at h) in
          (
            subst IsStored (sym written) (record {
              keys = HasKeys-flag_rows flags (db.rows u).nodes mid.keys;
              exclusive = mid.exclusive;
            }),
            synced,
          ))
  ]
