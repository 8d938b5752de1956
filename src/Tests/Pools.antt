-- ===== src/Tests/Pools.antt =====
-- Runs of the pools of daemon/xray.go.
use em_xray.Daemon.Parker.{parked_keys}
use em_xray.Daemon.Pools.Resolve.Served.{seats-resolve_dialer_slots}
use em_xray.Xray.Tag.Trim.{trim_space, trim_left, trim_right, is_space}
use em_xray.Xray.Subs.Words.{
  effective_strategy, parse_strategy, lower_is, lower_code, strategy_auto,
}
use em_xray.Daemon.Pools.Assign.Count.{length-assign_slot_indices}
use em_xray.Daemon.Pools.Assign.Range.{assign_slot_indices_unique}
use em_xray.Daemon.Pools.Assign.Keep.{is_at, assign_slot_indices_keeps}
use em_xray.Daemon.Pools.Resolve.Seats.{seats, is_named}
use em_xray.Daemon.Pools.Resolve.{
  PoolInputs, resolve_masters, live_masters, is_live_master, resolve_master, resolve_dialer_slots,
  refs_and_key, has_slot, add_alias, invalid_key, new_slot, entries_by_name,
}
use em_xray.Daemon.Pools.Members.Safe.{IsPool, resolve_dialer_members-IsPool}
use em_xray.Daemon.Pools.Members.{
  resolve_dialer_members, pool_pins, add_refs, pool_pins_from, add_subscription, add_pins,
  add_nodes, pins_of, add_member, check_member_outbound, is_word_of,
}
use em_xray.Xray.Dialer.{
  DialerRef, XrayEntry, parse_dialer, parse_refs, parse_ref, split_commas, onto_first, cut_colon,
  is_ref_kind, is_master, dialer_group_key, distinct_refs, join_commas, ref_text,
}
use em_xray.Xray.Subs.Active.{SubNode}
use em_xray.Daemon.Pools.Strategy.{
  Subscription, SubStore, pool_strategy, see_refs, note_ref, strategy_of, runs, is_sub_ref,
  pool_strategy_lem,
}
use em_xray.Daemon.Pools.Assign.{
  assign_slot_indices, keep_indices, kept_index, slot_count, is_used, fill_indices, next_free,
}
use em_xray.Prelude.{
  ℕ, List, [], ◌∷◌, String, some, none, true, false, Dict, count, length, get, ◌≤◌, ◌==◌, ◌≡◌,
  if◌then◌else◌, min, str_eq, ltb, refl, arith, eq_iff, ◌&&◌, sort, not, insert, map, contains,
  str_le,
}
use em_xray.Xray.Slot.{Slot, SlotMember, strategy_manual, strategy_agile, strategy_stable}

abbrev slot_of : String → Slot
slot_of key = record {
  master = key;
  aliases = [];
  key = key;
  index = 0;
  members = [];
  picked = [];
  active = 0;
  master_picks = [];
  strategy = "stable";
  auto = false;
  pinned = [];
}

-- a is new, b had 0, and c had an index that is out of range.
abbrev pools : List Slot
pools = slot_of "a" ∷ slot_of "b" ∷ slot_of "c" ∷ []

abbrev had : Dict ℕ
had = ("b", 0) ∷ ("c", 40) ∷ []

assign_run :
    map {B = String × ℕ} (λ (sl : Slot). (sl.key, sl.index)) (assign_slot_indices had pools).0
    ≡ ("b", 0) ∷ ("a", 1) ∷ ("c", 2) ∷ []
unfolding assign_slot_indices keep_indices kept_index get is_used fill_indices next_free sort insert
assign_run = refl

assign_slot_indices_unique_example :
    (count (λ (sl : Slot). sl.index == 1) (assign_slot_indices had pools).0 ≤ 1)
    × (slot_count ≤ 1 → count (λ (sl : Slot). sl.index == 1) (assign_slot_indices had pools).0 ≡ 0)
assign_slot_indices_unique_example = assign_slot_indices_unique had pools 1

length-assign_slot_indices_example :
    length (assign_slot_indices had pools).0 ≡ min (length pools) slot_count
length-assign_slot_indices_example = length-assign_slot_indices had pools

b-had : get had "b" ≡ some 0
unfolding get
b-had = refl

b-alone : (j : String) → get had j ≡ some 0 → str_eq j "b" ≡ true
unfolding get
b-alone j h = ground (arith, eq_iff j "b", eq_iff "b" j)

assign_slot_indices_keeps_example : 1 ≤ count (is_at "b" 0) (assign_slot_indices had pools).0
assign_slot_indices_keeps_example =
    assign_slot_indices_keeps had pools "b" 0 b-had b-alone (omega arith) refl

-- A subscription "main", on auto, with two nodes and a pin; the outbounds stand for themselves.
abbrev main_sub : Subscription
main_sub = record { id = 1; strategy = " Manual " }

abbrev main_nodes : List SubNode
main_nodes =
    record { id = 1; fingerprint = "f1"; outbound = "VLESS"; active = true }
    ∷ record { id = 2; fingerprint = "f2"; outbound = "freedom"; active = true }
    ∷ record { id = 3; fingerprint = "f1"; outbound = "vless"; active = true }
    ∷ []

abbrev one_store : SubStore
one_store = record {
  get_subscription_by_name = λ n. if str_eq n "main" then some main_sub else none;
  pinned_fingerprints = λ i. some ("gone" ∷ "f1" ∷ []);
  active_nodes = λ i. some main_nodes;
}

abbrev main_refs : List DialerRef
main_refs = record { kind = "xraysub"; name = "main" } ∷ []

strategy_run : pool_strategy one_store false main_refs ≡ ("manual", false)
unfolding pool_strategy see_refs note_ref strategy_of effective_strategy parse_strategy lower_is
    lower_code trim_space trim_left trim_right is_space
strategy_run = refl

pool_strategy_lem_example : pool_strategy one_store true main_refs ≡ (
    if ltb 0 (count (runs one_store strategy_manual) main_refs)
    then (strategy_manual, false)
    else if ltb 0 (count (runs one_store strategy_agile) main_refs)
    then (strategy_agile, false)
    else if not (ltb 0 (count (runs one_store strategy_auto) main_refs))
        && ltb 0 (count is_sub_ref main_refs)
    then (strategy_stable, false)
    else if true
    then (strategy_agile, true)
    else (strategy_stable, true))
pool_strategy_lem_example = pool_strategy_lem one_store true main_refs

members_run :
    resolve_dialer_members some one_store [] main_refs
    ≡ record { key = "f1"; outbound = "VLESS" } ∷ []
unfolding resolve_dialer_members add_refs add_subscription add_nodes add_member
    check_member_outbound is_word_of lower_is lower_code contains
members_run = refl

resolve_dialer_members-IsPool_example :
    IsPool some one_store (resolve_dialer_members some one_store [] main_refs)
resolve_dialer_members-IsPool_example = resolve_dialer_members-IsPool some one_store [] main_refs

abbrev two_members : List SlotMember
two_members =
    record { key = "f0"; outbound = "vless" } ∷ record { key = "f1"; outbound = "vless" } ∷ []

pins_run : pool_pins one_store main_refs two_members ≡ "f1" ∷ []
unfolding pool_pins pool_pins_from add_pins pins_of effective_strategy parse_strategy lower_is
    lower_code trim_space trim_left trim_right is_space contains
pins_run = refl

abbrev inputs : PoolInputs
inputs = record {
  protocol_of = some;
  store = one_store;
  auto_agile = λ k. false;
  by_name = [];
  rejected = [];
  parked = [];
  now = 0;
}

abbrev entry_of : String → String → XrayEntry
entry_of name dialer = record {
  id = 1;
  name = name;
  outbound = "vless";
  enabled = true;
  dialer = dialer;
}

abbrev entries : List XrayEntry
entries =
    entry_of "m2" "xraysub:main"
    ∷ entry_of "bad" "?"
    ∷ entry_of "plain" ""
    ∷ entry_of "m1" "xraysub:main,xraysub:main"
    ∷ []

few_pools :
    length
      (resolve_masters
        (record inputs { by_name = entries_by_name entries []; parked = parked_keys 0 [] })
        (live_masters entries)
        (record { slots = []; nodes = [] })).slots
    ≤ slot_count
unfolding resolve_masters resolve_master refs_and_key parse_dialer parse_refs parse_ref split_commas
    onto_first cut_colon is_ref_kind trim_space trim_left trim_right is_space live_masters is_master
    sort insert str_le has_slot add_alias dialer_group_key distinct_refs join_commas ref_text
    contains invalid_key new_slot
few_pools = omega arith

seats-resolve_dialer_slots_example :
    seats "bad" (resolve_dialer_slots inputs [] entries []).0
    ≡ count (λ e. is_live_master e && is_named "bad" e) entries
seats-resolve_dialer_slots_example = seats-resolve_dialer_slots inputs [] entries [] "bad" few_pools
