-- ===== src/Daemon/Pools/Members.antt =====
-- resolveDialerMembers and poolPins of daemon/xray.go, withoutRejected of daemon/validate.go, and
-- CheckMemberOutbound of core/xray/dialer.go.
pub mod Safe
pub mod Pins
use em_xray.Xray.Dialer.{XrayEntry, DialerRef, ref_xray, ref_xray_sub}
use em_xray.Xray.Subs.Active.{SubNode}
use em_xray.Daemon.Pools.Strategy.{SubStore, Subscription}
use em_xray.Xray.Slot.{SlotMember, strategy_manual}
use em_xray.Xray.Subs.Words.{lower_is, effective_strategy}
use em_xray.Prelude.{
  List, [], ◌∷◌, String, some, none, false, Bool, Option, Dict, ◌||◌, contains, if◌then◌else◌, get,
  filter, map, str_eq, ◌&&◌, not, ◌++◌,
}

-- The keys of tunnelProtocols
abbrev pub tunnel_protocols : List String
tunnel_protocols =
    "vless" ∷ "vmess" ∷ "trojan" ∷ "shadowsocks" ∷ "socks" ∷ "http" ∷ "hysteria" ∷ "wireguard" ∷ []

unfoldable pub is_word_of : List String → String → Bool
is_word_of [] s = false
is_word_of (w ∷ ws) s = lower_is s w || is_word_of ws s

-- The key of an entry as a member.
unfoldable pub xray_key : String → String
xray_key name =
    String.◌∷◌ "x" (String.◌∷◌ "r" (String.◌∷◌ "a" (String.◌∷◌ "y" (String.◌∷◌ "-" name))))

-- A list of members without repetition, as it is built, with the keys that it has.
abbrev pub has_member : List SlotMember → String → Bool
has_member members key = contains (map (λ (m : SlotMember). m.key) members) key

-- The closure `add` of resolveDialerMembers.
unfoldable pub add_member : String → String → List SlotMember → List SlotMember
add_member key outbound members =
    if str_eq key "" || (str_eq outbound "" || has_member members key)
    then members
    else members ++ (record { key = key; outbound = outbound } ∷ [])

-- JSON is Go's library's: `protocol_of o` is the protocol that an outbound names, none for a bad
-- text.
module _ (protocol_of : String → Option String) where
  -- CheckMemberOutbound, whether it gives no error
  unfoldable pub check_member_outbound : String → Bool
  check_member_outbound outbound = elim (protocol_of outbound) [
    | some protocol ↦ is_word_of tunnel_protocols protocol
    | none ↦ false
  ]

module _ (protocol_of : String → Option String) (store : SubStore) where
  unfoldable pub add_nodes : List SubNode → List SlotMember → List SlotMember
  add_nodes [] members = members
  add_nodes (n ∷ ns) members = add_nodes ns (
      if check_member_outbound protocol_of n.outbound
      then add_member n.fingerprint n.outbound members
      else members)

  unfoldable pub add_entry : Option XrayEntry → String → List SlotMember → List SlotMember
  add_entry none name members = members
  add_entry (some e) name members =
      if e.enabled && check_member_outbound protocol_of e.outbound
      then add_member (xray_key name) e.outbound members
      else members

  unfoldable pub add_subscription : Option Subscription → List SlotMember → List SlotMember
  add_subscription none members = members
  add_subscription (some sub) members = elim (store.active_nodes sub.id) [
    | some nodes ↦ add_nodes nodes members
    | none ↦ members
  ]

  unfoldable pub add_refs : Dict XrayEntry → List DialerRef → List SlotMember → List SlotMember
  add_refs by_name [] members = members
  add_refs by_name (r ∷ refs) members = add_refs by_name refs (
      if str_eq r.kind ref_xray
      then add_entry (get by_name r.name) r.name members
      else if str_eq r.kind ref_xray_sub
      then add_subscription (store.get_subscription_by_name r.name) members
      else members)

  -- resolveDialerMembers
  unfoldable pub resolve_dialer_members : Dict XrayEntry → List DialerRef → List SlotMember
  resolve_dialer_members by_name refs = add_refs by_name refs []

-- withoutRejected; `rejected` has the outbound that was refused, by key
unfoldable pub is_rejected : Dict String → SlotMember → Bool
is_rejected rejected m = elim (get rejected m.key) [
  | some outbound ↦ str_eq outbound m.outbound
  | none ↦ false
]

unfoldable pub without_rejected : List SlotMember → Dict String → List SlotMember
without_rejected members rejected = filter (λ m. not (is_rejected rejected m)) members

-- The inner loop of poolPins, over the pins of a subscription.
unfoldable pub add_pins : List SlotMember → List String → List String → List String
add_pins members [] out = out
add_pins members (fp ∷ fps) out =
    add_pins members fps
      (if has_member members fp && not (contains out fp) then out ++ (fp ∷ []) else out)

unfoldable pub pins_of : SubStore → DialerRef → List String
pins_of store r =
    if str_eq r.kind ref_xray_sub
    then elim (store.get_subscription_by_name r.name) [
      | none ↦ []
      | some sub ↦
          if str_eq (effective_strategy sub.strategy) strategy_manual
          then elim (store.pinned_fingerprints sub.id) [ some fps ↦ fps | none ↦ [] ]
          else []
    ]
    else []

unfoldable pub pool_pins_from :
    SubStore → List SlotMember → List DialerRef → List String → List String
pool_pins_from store members [] out = out
pool_pins_from store members (r ∷ refs) out =
    pool_pins_from store members refs (add_pins members (pins_of store r) out)

-- poolPins
unfoldable pub pool_pins : SubStore → List DialerRef → List SlotMember → List String
pool_pins store refs members = pool_pins_from store members refs []
