-- ===== src/Daemon/Pools/Resolve.antt =====
-- The loop of resolveDialerSlots of daemon/xray.go, up to the indices; the picks of the slots
-- (pickSlots) and the log lines are left out.
pub mod Seats
pub mod Served
use em_xray.Daemon.Parker.Release.{unpark}
use em_xray.Daemon.Parker.Without.{without_parked}
use em_xray.Daemon.Pools.Members.{without_rejected, resolve_dialer_members, pool_pins}
use em_xray.Daemon.Pools.Assign.{assign_slot_indices}
use em_xray.Daemon.Parker.{ParkState, park, parked_keys}
use em_xray.Daemon.Pools.Strategy.{SubStore, pool_strategy}
use em_xray.Xray.Slot.{Slot, SlotMember, strategy_manual, strategy_stable, strategy_agile}
use em_xray.Prelude.{
  ℕ, zero, suc, List, [], ◌∷◌, String, some, none, true, false, Bool, Option, Dict, ◌&&◌, str_le,
  sort, put, if◌then◌else◌, filter, str_eq, map, snoc, ◌||◌, length, ◌==◌,
}
use Prim.Native.String.{◌++◌}
use em_xray.Xray.Dialer.{XrayEntry, DialerRef, is_master, parse_dialer, dialer_group_key}

-- sort.Slice of the enabled masters by name
abbrev pub is_live_master : XrayEntry → Bool
is_live_master e = e.enabled && is_master e

abbrev pub name_le : XrayEntry → XrayEntry → Bool
name_le a b = str_le a.name b.name

unfoldable pub live_masters : List XrayEntry → List XrayEntry
live_masters entries = sort name_le (filter is_live_master entries)

unfoldable pub entries_by_name : List XrayEntry → Dict XrayEntry → Dict XrayEntry
entries_by_name [] by_name = by_name
entries_by_name (e ∷ entries) by_name = entries_by_name entries (put by_name e.name e)

-- "invalid:" + name
unfoldable pub invalid_key : String → String
invalid_key name = "invalid:" ++ name

-- The refs of a master and the key of its pool.
unfoldable pub refs_and_key : XrayEntry → List DialerRef × String
refs_and_key e = elim (parse_dialer e.dialer) [
  | some refs ↦ (refs, dialer_group_key refs)
  | none ↦ ([], invalid_key e.name)
]

-- slotByKey: whether there is a slot of the key, and an alias more in it. Slots have different keys.
unfoldable pub has_slot : String → List Slot → Bool
has_slot key [] = false
has_slot key (sl ∷ slots) = str_eq sl.key key || has_slot key slots

unfoldable pub add_alias : String → String → List Slot → List Slot
add_alias key name [] = []
add_alias key name (sl ∷ slots) =
    let rest = add_alias key name slots in
    if str_eq sl.key key then record sl { aliases = snoc sl.aliases name } ∷ slots else sl ∷ rest

-- The strategy that a pool runs: a manual pool without a pin runs stable.
abbrev pub run_strategy : String → List String → String
run_strategy strategy pinned =
    if str_eq strategy strategy_manual && length pinned == 0 then strategy_stable else strategy

abbrev pub keys_of : List SlotMember → List String
keys_of = map (λ (m : SlotMember). m.key)

-- The slots so far, and the parker's nodes.
pub record Resolving : Type 0 where
  pub slots : List Slot
  pub nodes : Dict ParkState

-- What the loop reads: the store, the classifier's verdicts, the members that xray refused, the
-- parked keys, and the time.
pub record PoolInputs : Type 1 where
  pub protocol_of : String → Option String
  pub store : SubStore
  pub auto_agile : String → Bool
  pub by_name : Dict XrayEntry
  pub rejected : Dict String
  pub parked : Dict ℕ
  pub now : ℕ

-- A new slot: its strategy, its pins and its members; its index of -1 is left to `assign_slot_indices`. A pool that never parks takes its members back
-- from the parker.
unfoldable pub new_slot :
    PoolInputs → String → List DialerRef → String → Dict ParkState → Slot × Dict ParkState
new_slot inp name refs key nodes =
    let (strategy, auto) = pool_strategy inp.store (inp.auto_agile key) refs in
    let members =
      without_rejected (resolve_dialer_members inp.protocol_of inp.store inp.by_name refs)
        inp.rejected in
    let pinned = if str_eq strategy strategy_manual then pool_pins inp.store refs members else [] in
    let strategy = run_strategy strategy pinned in
    let never_parks = str_eq strategy strategy_agile || str_eq strategy strategy_manual in
    (
      record {
        master = name;
        aliases = [];
        key = key;
        index = 0;
        members = if never_parks then members else without_parked members inp.parked;
        picked = [];
        active = 0;
        master_picks = [];
        strategy = strategy;
        auto = auto;
        pinned = pinned;
      },
      if never_parks then (unpark inp.now (keys_of members) nodes).0 else nodes,
    )

unfoldable pub resolve_master : PoolInputs → XrayEntry → Resolving → Resolving
resolve_master inp e st =
    let (refs, key) = refs_and_key e in
    let (sl, nodes) = new_slot inp e.name refs key st.nodes in
    if has_slot key st.slots
    then record st { slots = add_alias key e.name st.slots }
    else record { slots = snoc st.slots sl; nodes = nodes }

unfoldable pub resolve_masters : PoolInputs → List XrayEntry → Resolving → Resolving
resolve_masters inp [] st = st
resolve_masters inp (e ∷ masters) st = resolve_masters inp masters (resolve_master inp e st)

-- resolveDialerSlots: the slots with their indices, the indices to keep, and the parker's nodes
unfoldable pub resolve_dialer_slots :
    PoolInputs → Dict ℕ → List XrayEntry → Dict ParkState → List Slot × Dict ℕ × Dict ParkState
resolve_dialer_slots inp slot_idx entries nodes =
    let inp = record inp {
      by_name = entries_by_name entries [];
      parked = parked_keys inp.now nodes;
    } in
    let st = resolve_masters inp (live_masters entries) (record { slots = []; nodes = nodes }) in
    let (slots, kept) = assign_slot_indices slot_idx st.slots in (slots, kept, st.nodes)
