-- ===== src/Xray/Config.antt =====
-- Generate of core/xray/config.go, with slotBalancer, outboundTagFor and SlotIndexByName
-- (core/xray/dialer.go): the outbounds, the routing rules and the balancers of the config. JSON is
-- Go's library's: an object of the config is a record of what decides where traffic goes. The
-- settings of the inbounds, the mux, and the sections that are always the same are left out. The names
-- of the tables and the indices of the slots are unique, so an unstable sort by them is any sort.
pub mod Balancers
pub mod Masters
pub mod Members
pub mod Tunnels
pub mod Slots
pub mod Closed
pub mod Accepts
use em_xray.Daemon.Dialers.{check_master_outbound}
use em_xray.Daemon.Pools.Members.{check_member_outbound}
use em_xray.Xray.Names.Target.{parse_target, target_direct, kind_iface, kind_xray, kind_master}
use em_xray.Xray.Tag.{
  decimal, sanitize_key, inbound_tag, dialer_tag, slot_member_tag, slot_bal_tag, outbound_tag,
  slot_out_prefix,
}
use Prim.Native.String.{◌++◌ as join_text}
use em_xray.Xray.Slot.{Slot, SlotMember, MasterPick, slot_masters, pick_of, active_count}
use em_xray.Xray.Dialer.{XrayEntry, is_master}
use em_xray.Xray.Ports.{Inbound, is_unix_inbound}
use em_xray.Prelude.{
  ℕ, zero, suc, List, [], ◌∷◌, String, some, none, true, false, Bool, Option, Dict, put,
  if◌then◌else◌, contains, filter, ◌++◌, sort, str_eq, not, ◌&&◌, map, str_le, ◌||◌, leb, length,
  is_some, ◌==◌, get, take, drop,
}

-- What an outbound does with a connection.
pub data Body : Type 0 where
  -- blackhole, freedom, and freedom bound to an interface
  drops goes_direct : Body
  goes_by : String → Body
  -- the outbound of an entry, with its sockopt.dialerProxy
  dials : String → Option String → Body
  -- the hop of a master into the slot inbound of an index
  enters : String → ℕ → Body
  -- a member of a slot, with the dialerProxy that its JSON has
  relays : String → Option String → Body

pub record Outbound : Type 0 where
  pub tag : String
  pub body : Body

pub data Target : Type 0 where
  to_outbound to_balancer : String → Target

-- A routing rule: the inbound, the user if the rule names one, and where it sends.
pub record Rule : Type 0 where
  pub inbound : String
  pub user : Option String
  pub target : Target

-- A balancer, with an exact selector or the prefix that leastLoad ranks by itself.
pub record Balancer : Type 0 where
  pub tag : String
  pub least_load : Bool
  pub selector : List String
  pub fallback : String

-- A config, with the tags of its listeners.
pub record Config : Type 0 where
  pub listeners : List String
  pub outbounds : List Outbound
  pub rules : List Rule
  pub balancers : List Balancer

abbrev pub block_tag : String
block_tag = "block"

-- ApiTag
abbrev pub api_tag : String
api_tag = "api"

-- SlotInTag
unfoldable pub slot_in_tag : ℕ → String
slot_in_tag idx = join_text "slot" (join_text (decimal idx) "-in")

-- IfaceTag
unfoldable pub iface_tag : String → String
iface_tag name = join_text "iface-" (sanitize_key name)

-- DialerEmail
unfoldable pub dialer_email : String → String
dialer_email master = join_text "dialer-" (sanitize_key master)

-- outboundTagFor; `none` is the error
unfoldable pub outbound_tag_for : String → Option String
outbound_tag_for target = elim (parse_target target) [
  | none ↦ none
  | some (kind, name) ↦
      if str_eq kind target_direct
      then some "direct"
      else if str_eq kind kind_xray || str_eq kind kind_master
      then some (outbound_tag name)
      else if str_eq kind kind_iface
      then some (iface_tag name)
      else none
]

-- SlotIndexByName
unfoldable pub add_masters : ℕ → List String → Dict ℕ → Dict ℕ
add_masters idx [] d = d
add_masters idx (name ∷ names) d = add_masters idx names (put d name idx)

unfoldable pub slot_index_by_name : List Slot → Dict ℕ → Dict ℕ
slot_index_by_name [] d = d
slot_index_by_name (sl ∷ slots) d =
    slot_index_by_name slots (add_masters sl.index (slot_masters sl) d)

unfoldable pub tags_of : List Outbound → List String
tags_of [] = []
tags_of (o ∷ os) = o.tag ∷ tags_of os

-- picked of slotBalancer
unfoldable pub picked_tags : ℕ → List String → List String → List String
picked_tags idx loaded [] = []
picked_tags idx loaded (k ∷ ks) =
    let rest = picked_tags idx loaded ks in
    if contains loaded k then slot_member_tag idx k ∷ rest else rest

-- fallback = picked[0], or picked[active] where there is one
abbrev pub head_or : String → List String → String
head_or other [] = other
head_or other (t ∷ ts) = t

-- slotBalancer, with the member keys of `loaded`
unfoldable pub slot_balancer : ℕ → String → MasterPick → List String → String → Balancer
slot_balancer idx master pick loaded first =
    let fallback = if str_eq first "" then block_tag else first in
    let picked = picked_tags idx loaded pick.picked in
    let active = active_count pick.active picked in
    if length picked == 0
    then record {
      tag = slot_bal_tag idx master;
      least_load = true;
      selector = slot_out_prefix idx ∷ [];
      fallback = fallback;
    }
    else record {
      tag = slot_bal_tag idx master;
      least_load = false;
      selector = take active picked;
      fallback = head_or (head_or fallback picked) (drop active picked);
    }

abbrev pub onto_some : {A : Type 0} → A → Option (List A) → Option (List A)
onto_some x none = none
onto_some x (some xs) = some (x ∷ xs)

-- The interface that an inbound leaves by.
unfoldable pub iface_of : Inbound → Option String
iface_of inb = elim (parse_target inb.target) [
  | none ↦ none
  | some (kind, name) ↦ if inb.enabled && str_eq kind kind_iface then some name else none
]

-- The loop that adds one outbound for an interface.
unfoldable pub iface_outbounds : List Inbound → List String → List Outbound
iface_outbounds [] have = []
iface_outbounds (inb ∷ inbs) have = elim (iface_of inb) [
  | none ↦ iface_outbounds inbs have
  | some name ↦ elim (contains have (iface_tag name)) [
    | true ↦ iface_outbounds inbs have
    | false ↦
        record { tag = iface_tag name; body = goes_by name }
        ∷ iface_outbounds inbs (iface_tag name ∷ have)
  ]
]

abbrev pub rule_for : Inbound → String → Rule
rule_for inb tag = record { inbound = inbound_tag inb.name; user = none; target = to_outbound tag }

-- The hops of the masters of a slot.
unfoldable pub hop_outbounds : ℕ → List String → List Outbound
hop_outbounds idx [] = []
hop_outbounds idx (master ∷ masters) =
    record { tag = dialer_tag master; body = enters master idx } ∷ hop_outbounds idx masters

-- The sockopt.dialerProxy that the JSON of an outbound has; entryOutbound and MemberOutboundJSON keep
-- it.
abbrev pub own_proxy : Option (Option String) → Option String
own_proxy none = none
own_proxy (some proxy) = proxy

unfoldable pub member_outbounds :
    (String → Option (Option String)) → ℕ → List SlotMember → List Outbound
member_outbounds object_of idx [] = []
member_outbounds object_of idx (m ∷ ms) =
    record {
      tag = slot_member_tag idx m.key;
      body = relays m.outbound (own_proxy (object_of m.outbound));
    }
    ∷ member_outbounds object_of idx ms

-- first
abbrev pub first_tag : ℕ → List SlotMember → String
first_tag idx [] = ""
first_tag idx (m ∷ ms) = slot_member_tag idx m.key

abbrev pub member_key_of : SlotMember → String
member_key_of m = m.key

-- The balancers and the rules of the masters of a slot.
unfoldable pub master_balancers : Slot → List SlotMember → List String → List Balancer
master_balancers s ms [] = []
master_balancers s ms (master ∷ masters) =
    slot_balancer s.index master (pick_of s master) (map member_key_of ms) (first_tag s.index ms)
    ∷ master_balancers s ms masters

unfoldable pub master_rules : ℕ → List String → List Rule
master_rules idx [] = []
master_rules idx (master ∷ masters) =
    record {
      inbound = slot_in_tag idx;
      user = some (dialer_email master);
      target = to_balancer (slot_bal_tag idx master);
    }
    ∷ master_rules idx masters

-- The tags of the inbounds that listen.
unfoldable pub listener_tags : List Inbound → List String
listener_tags [] = []
listener_tags (inb ∷ inbs) =
    let rest = listener_tags inbs in
    if not inb.enabled || (inb.port == 0 && not (is_unix_inbound inb))
    then rest
    else inbound_tag inb.name ∷ rest

unfoldable pub slot_in_tags : List Slot → List String
slot_in_tags [] = []
slot_in_tags (s ∷ slots) = slot_in_tag s.index ∷ slot_in_tags slots

abbrev pub fixed_outbounds : List Outbound
fixed_outbounds =
    record { tag = block_tag; body = drops } ∷ record { tag = "direct"; body = goes_direct } ∷ []

abbrev pub api_rule : Rule
api_rule = record { inbound = api_tag; user = none; target = to_outbound api_tag }

-- `protocol_of` is the protocol that an outbound's JSON names, none for a bad text; `object_of` is
-- what an outbound's JSON has at streamSettings.sockopt.dialerProxy, none for a text that is not an
-- object; `builds` says whether buildInbound gives no error.
module _ (protocol_of : String → Option String) (object_of : String → Option (Option String))
    (builds : Inbound → Bool) where
  -- The outbound of an entry: its dialerProxy, or the blackhole in its place.
  unfoldable pub entry_body : Dict ℕ → XrayEntry → Body
  entry_body slot_idx e =
      if is_master e && not (check_master_outbound (protocol_of e.outbound))
      then drops
      else if is_some (get slot_idx e.name)
      then dials e.outbound (some (dialer_tag e.name))
      else if is_master e
      then dials e.outbound (some block_tag)
      else dials e.outbound (own_proxy (object_of e.outbound))

  -- The loop over the entries; `none` is the error of a bad JSON.
  unfoldable pub entry_outbounds : Dict ℕ → List XrayEntry → Option (List Outbound)
  entry_outbounds slot_idx [] = some []
  entry_outbounds slot_idx (e ∷ es) =
      let rest = entry_outbounds slot_idx es in
      if not e.enabled
      then rest
      else if not (is_some (object_of e.outbound))
      then none
      else onto_some (record { tag = outbound_tag e.name; body = entry_body slot_idx e }) rest

  -- The loop over the inbounds; `none` is an error.
  unfoldable pub inbound_rules : List String → List Inbound → Option (List Rule)
  inbound_rules have [] = some []
  inbound_rules have (inb ∷ inbs) =
      let rest = inbound_rules have inbs in
      if not inb.enabled || (inb.port == 0 && not (is_unix_inbound inb))
      then rest
      else if not (builds inb)
      then none
      else elim (outbound_tag_for inb.target) [
        | none ↦ none
        | some tag ↦ if contains have tag then onto_some (rule_for inb tag) rest else none
      ]

  -- The members that tunnel.
  unfoldable pub tunnel_members : List SlotMember → List SlotMember
  tunnel_members ms = filter (λ m. check_member_outbound protocol_of m.outbound) ms

  -- The loop over the slots: outbounds, balancers and rules.
  unfoldable pub slot_parts : List Slot → List Outbound × List Balancer × List Rule
  slot_parts [] = ([], [], [])
  slot_parts (s ∷ slots) =
      let (outs, bals, rules) = slot_parts slots in
      let masters = slot_masters s in
      let ms = tunnel_members s.members in
      (
        hop_outbounds s.index masters ++ (member_outbounds object_of s.index ms ++ outs),
        master_balancers s ms masters ++ bals,
        master_rules s.index masters ++ rules,
      )

  -- The rest of Generate, with the outbounds of the entries.
  unfoldable pub assemble : List Outbound → List Inbound → List Slot → Option Config
  assemble entry_outs ins slots =
      let have = "direct" ∷ block_tag ∷ tags_of entry_outs in
      let ifaces = iface_outbounds ins have in
      let parts = slot_parts slots in
      elim (inbound_rules (have ++ tags_of ifaces) ins) [
        | none ↦ none
        | some rules ↦ some (record {
          listeners = listener_tags ins ++ (api_tag ∷ slot_in_tags slots);
          outbounds = fixed_outbounds ++ (entry_outs ++ (ifaces ++ parts.0));
          rules = api_rule ∷ (rules ++ parts.2);
          balancers = parts.1;
        })
      ]

  -- Generate; `none` is an error
  unfoldable pub generate : List XrayEntry → List Inbound → List Slot → Option Config
  generate entries inbounds slots =
      let ents = sort (λ (a : XrayEntry) (b : XrayEntry). str_le a.name b.name) entries in
      let ins = sort (λ (a : Inbound) (b : Inbound). str_le a.name b.name) inbounds in
      let sl = sort (λ (a : Slot) (b : Slot). leb a.index b.index) slots in
      elim (entry_outbounds (slot_index_by_name sl []) ents) [
        | none ↦ none
        | some outs ↦ assemble outs ins sl
      ]
