-- ===== src/Xray/Subs/Tables.antt =====
-- The tables of the subscriptions, their nodes and the overrides, as core/xray/store.go uses them. The
-- database is not the repository's code: it is the record NodeTables, whose fields are the statements
-- that the store sends; `none` is an error. What the store relies on is the record KeepsRows: a
-- statement that goes through reads or changes the rows as its text says.
use em_xray.Xray.Subs.Active.{SubNode, SubNodeOverride}
use em_xray.Prelude.{
  ℕ, List, [], ◌∷◌, some, none, false, Bool, Option, ℤ, if◌then◌else◌, All, ◌≡◌, ◌==◌, ◌++◌, ◌&&◌,
  str_eq,
}

-- A row of the table of subscriptions, of nodes and of overrides, the columns that matter here.
pub record SubRow : Type 0 where
  pub id : ℕ
  pub enabled : Bool
  pub node_cap : ℤ

pub record NodeRow : Type 0 where
  pub sub_id : ℕ
  pub node : SubNode

pub record OverrideRow : Type 0 where
  pub sub_id : ℕ
  pub over : SubNodeOverride

pub record Rows : Type 0 where
  pub subs : List SubRow
  pub nodes : List NodeRow
  pub overs : List OverrideRow

-- SELECT … WHERE id = ?, and WHERE sub_id = ?
unfoldable pub sub_row : ℕ → List SubRow → Option SubRow
sub_row id [] = none
sub_row id (r ∷ rs) = let rest = sub_row id rs in if r.id == id then some r else rest

unfoldable pub nodes_of : ℕ → List NodeRow → List SubNode
nodes_of id [] = []
nodes_of id (r ∷ rs) = let rest = nodes_of id rs in if r.sub_id == id then r.node ∷ rest else rest

unfoldable pub overs_of : ℕ → List OverrideRow → List SubNodeOverride
overs_of id [] = []
overs_of id (r ∷ rs) = let rest = overs_of id rs in if r.sub_id == id then r.over ∷ rest else rest

-- UPDATE … SET active = ? WHERE id = ?
abbrev pub set_active : ℕ → Bool → SubNode → SubNode
set_active id want n = if n.id == id then record n { active = want } else n

unfoldable pub set_active_rows : ℕ → Bool → List NodeRow → List NodeRow
set_active_rows id want [] = []
set_active_rows id want (r ∷ rs) =
    record r { node = set_active id want r.node } ∷ set_active_rows id want rs

-- UPDATE … SET enabled = ? WHERE id = ?
unfoldable pub set_enabled_rows : ℕ → Bool → List SubRow → List SubRow
set_enabled_rows id want [] = []
set_enabled_rows id want (r ∷ rs) =
    (if r.id == id then record r { enabled = want } else r) ∷ set_enabled_rows id want rs

-- DELETE … WHERE sub_id = ?
unfoldable pub delete_nodes_rows : ℕ → List NodeRow → List NodeRow
delete_nodes_rows id [] = []
delete_nodes_rows id (r ∷ rs) =
    let rest = delete_nodes_rows id rs in if r.sub_id == id then rest else r ∷ rest

-- UPDATE … SET pinned = false WHERE sub_id = ?
unfoldable pub clear_pins_rows : ℕ → List OverrideRow → List OverrideRow
clear_pins_rows id [] = []
clear_pins_rows id (r ∷ rs) =
    (if r.sub_id == id then record r { over = record r.over { pinned = false } } else r)
    ∷ clear_pins_rows id rs

-- The columns that an upsert assigns on a conflict.
pub record Columns : Type 0 where
  pub disabled : Bool
  pub pinned : Bool

abbrev pub assign : Columns → SubNodeOverride → SubNodeOverride → SubNodeOverride
assign cols new old = record old {
  disabled = if cols.disabled then new.disabled else old.disabled;
  pinned = if cols.pinned then new.pinned else old.pinned;
}

-- INSERT … ON CONFLICT (sub_id, fingerprint) DO UPDATE SET …
unfoldable pub upsert_rows : Columns → ℕ → SubNodeOverride → List OverrideRow → List OverrideRow
upsert_rows cols id new [] = record { sub_id = id; over = new } ∷ []
upsert_rows cols id new (r ∷ rs) =
    let rest = upsert_rows cols id new rs in
    if r.sub_id == id && str_eq r.over.fingerprint new.fingerprint
    then record r { over = assign cols new r.over } ∷ rs
    else r ∷ rest

pub record NodeTables (S : Type 0) : Type 0 where
  pub rows : S → Rows
  pub first_sub : ℕ → S → Option SubRow
  pub find_nodes : ℕ → S → Option (List SubNode)
  pub find_overs : ℕ → S → Option (List SubNodeOverride)
  pub update_active : ℕ → Bool → S → Option S
  pub update_enabled : ℕ → Bool → S → Option S
  pub delete_nodes : ℕ → S → Option S
  pub create_node : ℕ → SubNode → S → Option S
  pub upsert_over : Columns → ℕ → SubNodeOverride → S → Option S
  pub clear_pins_of : ℕ → S → Option S

abbrev pub IsNewId : ℕ → List NodeRow → Type 0
IsNewId k rs = All (λ (r : NodeRow). (r.node.id == k) ≡ false) rs

pub record KeepsRows {S : Type 0} (db : NodeTables S) : Type 0 where
  pub read_sub :
      (id : ℕ) (s : S) (r : SubRow)
      → db.first_sub id s ≡ some r
      → sub_row id (db.rows s).subs ≡ some r
  pub read_nodes :
      (id : ℕ) (s : S) (ns : List SubNode)
      → db.find_nodes id s ≡ some ns
      → ns ≡ nodes_of id (db.rows s).nodes
  pub read_overs :
      (id : ℕ) (s : S) (os : List SubNodeOverride)
      → db.find_overs id s ≡ some os
      → os ≡ overs_of id (db.rows s).overs
  pub wrote_active :
      (id : ℕ) (want : Bool) (s t : S)
      → db.update_active id want s ≡ some t
      → db.rows t ≡ record (db.rows s) { nodes = set_active_rows id want (db.rows s).nodes }
  pub wrote_enabled :
      (id : ℕ) (want : Bool) (s t : S)
      → db.update_enabled id want s ≡ some t
      → db.rows t ≡ record (db.rows s) { subs = set_enabled_rows id want (db.rows s).subs }
  pub deleted_nodes :
      (id : ℕ) (s t : S)
      → db.delete_nodes id s ≡ some t
      → db.rows t ≡ record (db.rows s) { nodes = delete_nodes_rows id (db.rows s).nodes }
  -- The key of a new row is not in use.
  pub created_node :
      (id : ℕ) (n : SubNode) (s t : S)
      → db.create_node id n s ≡ some t
      → (k : ℕ) × IsNewId k (db.rows s).nodes
        × (db.rows t ≡ record (db.rows s) {
          nodes = (db.rows s).nodes ++ (record { sub_id = id; node = record n { id = k } } ∷ []);
        })
  pub upserted :
      (cols : Columns) (id : ℕ) (o : SubNodeOverride) (s t : S)
      → db.upsert_over cols id o s ≡ some t
      → db.rows t ≡ record (db.rows s) { overs = upsert_rows cols id o (db.rows s).overs }
  pub cleared :
      (id : ℕ) (s t : S)
      → db.clear_pins_of id s ≡ some t
      → db.rows t ≡ record (db.rows s) { overs = clear_pins_rows id (db.rows s).overs }
