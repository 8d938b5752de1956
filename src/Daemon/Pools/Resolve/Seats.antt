-- ===== src/Daemon/Pools/Resolve/Seats.antt =====
-- Which masters the slots of resolveDialerSlots (daemon/xray.go) serve.
use em_xray.Daemon.Pools.Assign.Keep.{has_key}
use em_xray.Daemon.Live.Diff.{is_key, one_if}
use em_xray.Daemon.Pools.Resolve.{
  add_alias, new_slot, resolve_master, resolve_masters, live_masters, has_slot, PoolInputs,
  DialerRef, Resolving, ParkState, is_live_master, refs_and_key, name_le,
}
use em_xray.Xray.Dialer.{XrayEntry}
use em_xray.Prelude.{
  ℕ, List, [], ◌∷◌, String, true, Bool, Dict, count, snoc, str_eq, ◌≡◌, filter, ◌+◌, ◌&&◌, ltb,
  arith, if_elim, sort, refl, count-append, ◌∙◌, ap, count-sort, ◌≤◌, eq_iff,
}
use em_xray.Xray.Slot.{Slot, slot_masters}

-- How often a name is a master of a slot, as its owner or as an alias.
abbrev pub seats : String → List Slot → ℕ
seats k [] = 0
seats k (sl ∷ slots) = count (is_key k) (slot_masters sl) + seats k slots

abbrev pub is_named : String → XrayEntry → Bool
is_named k e = str_eq e.name k

seats-add_alias :
    (key name : String) (slots : List Slot) (k : String)
    → has_slot key slots ≡ true
    → seats k (add_alias key name slots) ≡ seats k slots + one_if (str_eq name k)
unfolding add_alias has_slot slot_masters
seats-add_alias key name [] k h = absurd (ground arith)
seats-add_alias key name (sl ∷ slots) k h =
    let P : List Slot → Type 0 =
      λ out. seats k out ≡ seats k (sl ∷ slots) + one_if (str_eq name k) in
    if_elim P (str_eq sl.key key)
      (λ e. (let split = count-append (is_key k) sl.aliases (name ∷ []) in ground (arith, split)))
      (λ n.
        (let rest : seats k (add_alias key name slots) ≡ seats k slots + one_if (str_eq name k) =
            seats-add_alias key name slots k (ground arith) in
          omega (arith, rest)))

seats-snoc :
    (slots : List Slot) (sl : Slot) (k : String)
    → seats k (snoc slots sl) ≡ seats k slots + count (is_key k) (slot_masters sl)
seats-snoc [] sl k = omega arith
seats-snoc (s ∷ slots) sl k = omega (arith, seats-snoc slots sl k)

alone :
    (inp : PoolInputs) (name : String) (refs : List DialerRef) (key : String)
    → (nodes : Dict ParkState) (k : String)
    → (count (is_key k) (slot_masters (new_slot inp name refs key nodes).0)
        ≡ one_if (str_eq name k))
      × ((new_slot inp name refs key nodes).0.key ≡ key)
unfolding new_slot slot_masters
alone inp name refs key nodes k = (ground arith, refl)

seats-resolve_master :
    (inp : PoolInputs) (e : XrayEntry) (st : Resolving) (k : String)
    → seats k (resolve_master inp e st).slots ≡ seats k st.slots + one_if (str_eq e.name k)
unfolding resolve_master
seats-resolve_master inp e st k =
    let key = (refs_and_key e).1 in
    let made = new_slot inp e.name (refs_and_key e).0 key st.nodes in
    if_elim (λ (out : Resolving). seats k out.slots ≡ seats k st.slots + one_if (str_eq e.name k))
      (has_slot key st.slots) (λ yes. seats-add_alias key e.name st.slots k yes)
      (λ no.
        seats-snoc st.slots made.0 k
        ∙ ap (λ n. seats k st.slots + n) (alone inp e.name (refs_and_key e).0 key st.nodes k).0)

seats-resolve_masters :
    (inp : PoolInputs) (masters : List XrayEntry) (st : Resolving) (k : String)
    → seats k (resolve_masters inp masters st).slots ≡ seats k st.slots + count (is_named k) masters
unfolding resolve_masters
seats-resolve_masters inp [] st k = omega arith
seats-resolve_masters inp (e ∷ masters) st k =
    let rest = seats-resolve_masters inp masters (resolve_master inp e st) k in
    let here = seats-resolve_master inp e st k in ground (arith, rest, here)

count-filter :
    (p q : XrayEntry → Bool) (es : List XrayEntry)
    → count p (filter q es) ≡ count (λ e. q e && p e) es
count-filter p q [] = refl
count-filter p q (e ∷ es) = ground (arith, count-filter p q es)

-- The slots serve the enabled masters and nobody else, and each as often as there are entries of its
-- name: a master whose dialer cannot be read, or whose pool is empty, has its slot too.
pub seats-live_masters :
    (inp : PoolInputs) (entries : List XrayEntry) (nodes : Dict ParkState) (k : String)
    → seats k
        (resolve_masters inp (live_masters entries) (record { slots = []; nodes = nodes })).slots
      ≡ count (λ e. is_live_master e && is_named k e) entries
unfolding live_masters
seats-live_masters inp entries nodes k =
    let all =
      seats-resolve_masters inp (sort name_le (filter is_live_master entries))
        (record { slots = []; nodes = nodes }) k in
    let sorted = count-sort name_le (is_named k) (filter is_live_master entries) in
    let kept = count-filter (is_named k) is_live_master entries in omega (arith, all, sorted, kept)

count-add_alias :
    (key name : String) (slots : List Slot) (k : String)
    → count (has_key k) (add_alias key name slots) ≡ count (has_key k) slots
unfolding add_alias
count-add_alias key name [] k = refl
count-add_alias key name (sl ∷ slots) k =
    if_elim (λ (out : List Slot). count (has_key k) out ≡ count (has_key k) (sl ∷ slots))
      (str_eq sl.key key) (λ e. refl)
      (λ n. (let rest = count-add_alias key name slots k in ground (arith, rest)))

has_slot-count :
    (slots : List Slot) (key : String) → has_slot key slots ≡ ltb 0 (count (has_key key) slots)
unfolding has_slot
has_slot-count [] key = refl
has_slot-count (sl ∷ slots) key = ground (arith, has_slot-count slots key)

count-resolve_master :
    (inp : PoolInputs) (e : XrayEntry) (st : Resolving) (k : String)
    → count (has_key k) st.slots ≤ 1
    → count (has_key k) (resolve_master inp e st).slots ≤ 1
unfolding resolve_master
count-resolve_master inp e st k h =
    let key = (refs_and_key e).1 in
    let made = new_slot inp e.name (refs_and_key e).0 key st.nodes in
    let same = count-add_alias key e.name st.slots k in
    let known = has_slot-count st.slots key in
    let more = count-append (has_key k) st.slots (made.0 ∷ []) in
    let its = (alone inp e.name (refs_and_key e).0 key st.nodes k).1 in
    let at_k : key ≡ k → count (has_key key) st.slots ≡ count (has_key k) st.slots =
      λ q. ap (λ j. count (has_key j) st.slots) q in
    if_elim (λ (out : Resolving). count (has_key k) out.slots ≤ 1) (has_slot key st.slots)
      (λ yes. omega (arith, same, h))
      (λ no. ground (arith, more, known, no, its, at_k, h, eq_iff key k))

-- Masters whose dialers name the same pool share one slot: no two slots have the same key.
pub resolve_masters_distinct :
    (inp : PoolInputs) (masters : List XrayEntry) (st : Resolving) (k : String)
    → count (has_key k) st.slots ≤ 1
    → count (has_key k) (resolve_masters inp masters st).slots ≤ 1
unfolding resolve_masters
resolve_masters_distinct inp [] st k h = h
resolve_masters_distinct inp (e ∷ masters) st k h =
    resolve_masters_distinct inp masters (resolve_master inp e st) k
      (count-resolve_master inp e st k h)
