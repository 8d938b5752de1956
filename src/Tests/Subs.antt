-- ===== src/Tests/Subs.antt =====
-- Runs of the writes of core/xray/store.go: a database that is its rows, and edits of one subscription.
use em_xray.Xray.Subs.Store.Refresh.{ObeysOff, replace-ObeysOff}
use em_xray.Xray.Subs.Store.Synced.{IsSynced}
use em_xray.Xray.Subs.Store.Edits.{IsStored, edit_nodes-IsSynced}
use em_xray.Xray.Subs.Store.{
  edit_nodes, set_node_pinned, write_edit, recompute, set_sub_enabled, replace, replace_nodes,
  clear_pins, set_node_disabled, write_flags, flags_of, create_nodes,
}
use em_xray.Xray.Subs.Store.Keys.{HasKeys}
use em_xray.Xray.Subs.Tables.{
  NodeTables, KeepsRows, NodeRow, Rows, sub_row, nodes_of, IsNewId, overs_of, upsert_rows,
  set_active_rows, set_enabled_rows, delete_nodes_rows, clear_pins_rows,
}
use em_xray.Xray.Subs.Active.{
  SubNode, recompute_active, mark_active, effective_cap, is_off, is_pinned,
}
use em_xray.Prelude.{
  ℕ, suc, List, [], ◌∷◌, String, some, true, false, Bool, ◌+◌, ◌≤◌, ◌≡◌, pos, arith, All, refl,
  ◌++◌,
}

-- A key above all that are in use.
unfoldable key_above : List NodeRow → ℕ
key_above [] = 1
key_above (r ∷ rs) = suc (r.node.id + key_above rs)

key_above-IsNewId : (k : ℕ) (rs : List NodeRow) → key_above rs ≤ k → IsNewId k rs
unfolding key_above
key_above-IsNewId k [] h = tt
key_above-IsNewId k (r ∷ rs) h = (ground (arith, h), key_above-IsNewId k rs (omega (arith, h)))

abbrev in_memory : NodeTables Rows
in_memory = record {
  rows = λ s. s;
  first_sub = λ id s. sub_row id s.subs;
  find_nodes = λ id s. some (nodes_of id s.nodes);
  find_overs = λ id s. some (overs_of id s.overs);
  update_active = λ id want s. some (record s { nodes = set_active_rows id want s.nodes });
  update_enabled = λ id want s. some (record s { subs = set_enabled_rows id want s.subs });
  delete_nodes = λ id s. some (record s { nodes = delete_nodes_rows id s.nodes });
  create_node = λ id n s. some (record s {
    nodes = s.nodes ++ (record { sub_id = id; node = record n { id = key_above s.nodes } } ∷ []);
  });
  upsert_over = λ cols id o s. some (record s { overs = upsert_rows cols id o s.overs });
  clear_pins_of = λ id s. some (record s { overs = clear_pins_rows id s.overs });
}

some-eq : {A : Type 0} (a b : A) → some a ≡ some b → b ≡ a
some-eq a b h = ground (arith, h)

in_memory-KeepsRows : KeepsRows in_memory
in_memory-KeepsRows = record {
  read_sub = λ id s r h. h;
  read_nodes = λ id s ns h. some-eq (nodes_of id s.nodes) ns h;
  read_overs = λ id s os h. some-eq (overs_of id s.overs) os h;
  wrote_active =
      λ id want s t h. some-eq (record s { nodes = set_active_rows id want s.nodes }) t h;
  wrote_enabled =
      λ id want s t h. some-eq (record s { subs = set_enabled_rows id want s.subs }) t h;
  deleted_nodes = λ id s t h. some-eq (record s { nodes = delete_nodes_rows id s.nodes }) t h;
  created_node = λ id n s t h. (
    key_above s.nodes,
    key_above-IsNewId (key_above s.nodes) s.nodes (omega arith),
    some-eq _ t h,
  );
  upserted = λ cols id o s t h. some-eq (record s { overs = upsert_rows cols id o s.overs }) t h;
  cleared = λ id s t h. some-eq (record s { overs = clear_pins_rows id s.overs }) t h;
}

abbrev fetched : String → SubNode
fetched fp = record { id = 0; fingerprint = fp; outbound = "{}"; active = false }

-- One subscription of at most one node, and one of its nodes disabled.
abbrev one_sub : Rows
one_sub = record {
  subs = record { id = 7; enabled = true; node_cap = pos 1 } ∷ [];
  nodes = record { sub_id = 7; node = record (fetched "a") { id = 3; active = true } } ∷ [];
  overs =
      record { sub_id = 7; over = record { fingerprint = "b"; disabled = true; pinned = false } }
      ∷ [];
}

abbrev row_at : ℕ → String → Bool → NodeRow
row_at id fp active = record {
  sub_id = 7;
  node = record { id = id; fingerprint = fp; outbound = "{}"; active = active };
}

-- After a fetch of b, a and c: b is off, a has the place, c is over the cap.
abbrev refreshed : Rows
refreshed = record one_sub {
  nodes = row_at 1 "b" false ∷ row_at 3 "a" true ∷ row_at 7 "c" false ∷ [];
}

abbrev fetch : List SubNode
fetch = fetched "b" ∷ fetched "a" ∷ fetched "c" ∷ []

one_sub-IsStored : IsStored one_sub
unfolding HasKeys
one_sub-IsStored = record { keys = (tt, tt); exclusive = (refl, tt) }

refresh_runs : edit_nodes in_memory 7 (replace fetch) one_sub ≡ some refreshed
unfolding edit_nodes write_edit recompute set_sub_enabled replace_nodes set_node_pinned clear_pins
    set_node_disabled write_flags flags_of recompute_active create_nodes mark_active effective_cap
    is_off is_pinned key_above nodes_of overs_of sub_row set_active_rows delete_nodes_rows
refresh_runs = refl

edit_nodes-IsSynced_example : IsStored refreshed × IsSynced 7 refreshed
edit_nodes-IsSynced_example =
    edit_nodes-IsSynced in_memory in_memory-KeepsRows 7 (replace fetch) one_sub refreshed
      one_sub-IsStored refresh_runs

replace-ObeysOff_example :
    (refreshed.overs ≡ one_sub.overs)
    × All (ObeysOff (overs_of 7 one_sub.overs)) (nodes_of 7 refreshed.nodes)
unfolding sub_row
replace-ObeysOff_example =
    replace-ObeysOff in_memory in_memory-KeepsRows 7 fetch one_sub refreshed
      (record { id = 7; enabled = true; node_cap = pos 1 }) one_sub-IsStored refresh_runs refl

-- Pinning b enables it.
pin_runs :
    set_node_pinned in_memory 7 "b" true one_sub
    ≡ some (record one_sub {
      overs =
          record {
            sub_id = 7;
            over = record { fingerprint = "b"; disabled = false; pinned = true };
          }
          ∷ [];
    })
unfolding set_node_pinned upsert_rows
pin_runs = refl
