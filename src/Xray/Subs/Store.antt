-- ===== src/Xray/Subs/Store.antt =====
-- The writes of core/xray/store.go on nodes and overrides: SetSubEnabled, ReplaceNodes, SetNodePinned,
-- ClearPins, SetNodeDisabled, and recomputeActive with its writes. Each is a transaction: where a
-- statement fails (`none`) the database is as before.
pub mod Flags
pub mod Keys
pub mod Synced
pub mod Edits
pub mod Refresh
use em_xray.Xray.Subs.Active.{SubNode, SubNodeOverride, recompute_active}
use em_xray.Xray.Subs.Tables.{NodeTables, Columns}
use em_xray.Prelude.{
  ℕ, zero, suc, List, [], ◌∷◌, String, some, none, true, false, Bool, Option, if◌then◌else◌, not,
}

infixl 5 ◌>>=◌
abbrev pub ◌>>=◌ : {A B : Type 0} → Option A → (A → Option B) → Option B
none >>= f = none
some a >>= f = f a

abbrev pub same_flag : Bool → Bool → Bool
same_flag true b = b
same_flag false b = not b

-- The nodes whose flag is to be written, with the flag.
unfoldable pub flags_of : List SubNode → List SubNode → List (ℕ × Bool)
flags_of [] wanted = []
flags_of (n ∷ ns) [] = []
flags_of (n ∷ ns) (w ∷ ws) =
    let rest = flags_of ns ws in
    if same_flag n.active w.active then rest else (n.id, w.active) ∷ rest

-- The edits of a subscription's nodes that the store offers.
pub data NodeEdit : Type 0 where
  enable : Bool → NodeEdit
  replace : List SubNode → NodeEdit
  pin : String → Bool → NodeEdit
  clear_all_pins : NodeEdit
  disable : String → Bool → NodeEdit

-- `ov` and the columns of SetNodePinned and of SetNodeDisabled
abbrev pub pin_row : String → Bool → SubNodeOverride
pin_row fp pinned = record { fingerprint = fp; disabled = false; pinned = pinned }

abbrev pub pin_columns : Bool → Columns
pin_columns pinned = record { disabled = pinned; pinned = true }

abbrev pub disable_row : String → Bool → SubNodeOverride
disable_row fp disabled = record { fingerprint = fp; disabled = disabled; pinned = false }

abbrev pub disable_columns : Bool → Columns
disable_columns disabled = record { disabled = true; pinned = disabled }

module _ {S : Type 0} (db : NodeTables S) where
  unfoldable pub write_flags : List (ℕ × Bool) → S → Option S
  write_flags [] s = some s
  write_flags ((id, want) ∷ flags) s = elim (db.update_active id want s) [
    | none ↦ none
    | some t ↦ write_flags flags t
  ]

  -- recomputeActive
  unfoldable pub recompute : ℕ → S → Option S
  recompute id s = do
    sub ← db.first_sub id s
    nodes ← db.find_nodes id s
    overs ← db.find_overs id s
    write_flags (flags_of nodes (recompute_active sub.enabled sub.node_cap overs nodes)) s

  -- The loop of ReplaceNodes.
  unfoldable pub create_nodes : ℕ → List SubNode → S → Option S
  create_nodes id [] s = some s
  create_nodes id (n ∷ ns) s = elim (db.create_node id n s) [
    | none ↦ none
    | some t ↦ create_nodes id ns t
  ]

  -- SetSubEnabled, ReplaceNodes, SetNodePinned, ClearPins and SetNodeDisabled, up to the recompute
  unfoldable pub set_sub_enabled : ℕ → Bool → S → Option S
  set_sub_enabled id enabled s = db.update_enabled id enabled s

  unfoldable pub replace_nodes : ℕ → List SubNode → S → Option S
  replace_nodes id ns s = do t ← db.delete_nodes id s; create_nodes id ns t

  unfoldable pub set_node_pinned : ℕ → String → Bool → S → Option S
  set_node_pinned id fp pinned s = db.upsert_over (pin_columns pinned) id (pin_row fp pinned) s

  unfoldable pub clear_pins : ℕ → S → Option S
  clear_pins id s = db.clear_pins_of id s

  unfoldable pub set_node_disabled : ℕ → String → Bool → S → Option S
  set_node_disabled id fp disabled s =
      db.upsert_over (disable_columns disabled) id (disable_row fp disabled) s

  unfoldable pub write_edit : ℕ → NodeEdit → S → Option S
  write_edit id (enable enabled) s = set_sub_enabled id enabled s
  write_edit id (replace ns) s = replace_nodes id ns s
  write_edit id (pin fp pinned) s = set_node_pinned id fp pinned s
  write_edit id clear_all_pins s = clear_pins id s
  write_edit id (disable fp disabled) s = set_node_disabled id fp disabled s

  -- An edit of the subscription: each ends with `return recomputeActive(tx, subID)`.
  unfoldable pub edit_nodes : ℕ → NodeEdit → S → Option S
  edit_nodes id edit s = do t ← write_edit id edit s; recompute id t
