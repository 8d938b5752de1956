-- ===== src/Xray/Subs/Store/Keys.antt =====
-- The keys of the nodes under the statements of core/xray/store.go.
use em_xray.Xray.Subs.Active.{SubNode}
use em_xray.Xray.Subs.Store.Flags.{flag_rows, IsUnused, HasIds}
use em_xray.Xray.Subs.Tables.{NodeRow, IsNewId, nodes_of, delete_nodes_rows, set_active_rows}
use em_xray.Prelude.{ℕ, List, [], ◌∷◌, false, Bool, if_elim, ◌++◌, ◌==◌, ◌≡◌, arith, All-append}

-- No key of a row stands twice.
unfoldable pub HasKeys : List NodeRow → Type 0
HasKeys [] = Unit
HasKeys (r ∷ rs) = IsNewId r.node.id rs × HasKeys rs

IsUnused-nodes_of : (k id : ℕ) (rs : List NodeRow) → IsNewId k rs → IsUnused k (nodes_of id rs)
unfolding nodes_of
IsUnused-nodes_of k id [] h = tt
IsUnused-nodes_of k id (r ∷ rs) h =
    let rest = IsUnused-nodes_of k id rs h.1 in
    if_elim (λ (ns : List SubNode). IsUnused k ns) (r.sub_id == id) (λ _. (h.0, rest)) (λ _. rest)

pub HasIds-nodes_of : (id : ℕ) (rs : List NodeRow) → HasKeys rs → HasIds (nodes_of id rs)
unfolding nodes_of HasKeys HasIds
HasIds-nodes_of id [] h = tt
HasIds-nodes_of id (r ∷ rs) h =
    let rest = HasIds-nodes_of id rs h.1 in
    if_elim HasIds (r.sub_id == id) (λ _. (IsUnused-nodes_of r.node.id id rs h.0, rest)) (λ _. rest)

IsNewId-delete : (k id : ℕ) (rs : List NodeRow) → IsNewId k rs → IsNewId k (delete_nodes_rows id rs)
unfolding delete_nodes_rows
IsNewId-delete k id [] h = tt
IsNewId-delete k id (r ∷ rs) h =
    let rest = IsNewId-delete k id rs h.1 in
    if_elim (IsNewId k) (r.sub_id == id) (λ _. rest) (λ _. (h.0, rest))

pub HasKeys-delete : (id : ℕ) (rs : List NodeRow) → HasKeys rs → HasKeys (delete_nodes_rows id rs)
unfolding delete_nodes_rows HasKeys
HasKeys-delete id [] h = tt
HasKeys-delete id (r ∷ rs) h =
    let rest = HasKeys-delete id rs h.1 in
    if_elim HasKeys (r.sub_id == id) (λ _. rest) (λ _. (IsNewId-delete r.node.id id rs h.0, rest))

IsNewId-set_active :
    (k id : ℕ) (want : Bool) (rs : List NodeRow)
    → IsNewId k rs
    → IsNewId k (set_active_rows id want rs)
unfolding set_active_rows
IsNewId-set_active k id want [] h = tt
IsNewId-set_active k id want (r ∷ rs) h = (
  if_elim (λ (n : SubNode). (n.id == k) ≡ false) (r.node.id == id) (λ _. h.0) (λ _. h.0),
  IsNewId-set_active k id want rs h.1,
)

HasKeys-set_active :
    (id : ℕ) (want : Bool) (rs : List NodeRow) → HasKeys rs → HasKeys (set_active_rows id want rs)
unfolding set_active_rows HasKeys
HasKeys-set_active id want [] h = tt
HasKeys-set_active id want (r ∷ rs) h =
    let rest = IsNewId-set_active r.node.id id want rs h.0 in
    (
      if_elim (λ (n : SubNode). IsNewId n.id (set_active_rows id want rs)) (r.node.id == id)
          (λ _. rest) (λ _. rest),
      HasKeys-set_active id want rs h.1,
    )

pub HasKeys-flag_rows :
    (flags : List (ℕ × Bool)) (rs : List NodeRow) → HasKeys rs → HasKeys (flag_rows flags rs)
unfolding flag_rows
HasKeys-flag_rows [] rs h = h
HasKeys-flag_rows ((id, want) ∷ flags) rs h =
    HasKeys-flag_rows flags (set_active_rows id want rs) (HasKeys-set_active id want rs h)

pub HasKeys-last :
    (rs : List NodeRow) (r : NodeRow) → IsNewId r.node.id rs → HasKeys rs → HasKeys (rs ++ (r ∷ []))
unfolding HasKeys
HasKeys-last [] r new h = (tt, tt)
HasKeys-last (q ∷ rs) r new h =
    let fresh = new.0 in
    let other : (r.node.id == q.node.id) ≡ false = ground (arith, fresh) in
    (
      All-append (λ (x : NodeRow). (x.node.id == q.node.id) ≡ false) rs (r ∷ []) h.0 (other, tt),
      HasKeys-last rs r new.1 h.1,
    )
