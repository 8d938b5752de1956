-- ===== src/Xray/Config/Accepts.antt =====
-- When Generate of core/xray/config.go gives a config and when an error.
use em_xray.Xray.Config.{
  iface_of, outbound_tag, iface_tag, block_tag, is_unix_inbound, outbound_tag_for,
}
use em_xray.Xray.Dialer.{XrayEntry}
use em_xray.Xray.Ports.{Inbound}
use em_xray.Prelude.{
  String, Option, Bool, List, false, not, ◌&&◌, contains, ◌||◌, is_some, some, str_eq, ◌∷◌, ◌==◌,
  none, count, [],
}

module _ (protocol_of : String → Option String) (object_of : String → Option (Option String))
    (builds : Inbound → Bool) where
  abbrev pub bad_entry : XrayEntry → Bool
  bad_entry e = e.enabled && not (is_some (object_of e.outbound))

  abbrev pub has_entry_tag : String → XrayEntry → Bool
  has_entry_tag t e = e.enabled && str_eq (outbound_tag e.name) t

  abbrev pub has_iface_tag : String → Inbound → Bool
  has_iface_tag t i = elim (iface_of i) [ none ↦ false | some name ↦ str_eq (iface_tag name) t ]

  -- An outbound has the tag: a fixed one, one of an enabled entry or one for an interface.
  abbrev pub knows : List XrayEntry → List Inbound → String → Bool
  knows es ins t =
      contains ("direct" ∷ block_tag ∷ []) t
      || not (count (has_entry_tag t) es == 0)
      || not (count (has_iface_tag t) ins == 0)

  abbrev pub finds : (String → Bool) → Option String → Bool
  finds known none = false
  finds known (some t) = known t

  -- An inbound that is to listen and cannot: buildInbound fails, or its target has no outbound.
  abbrev pub bad_inbound : (String → Bool) → Inbound → Bool
  bad_inbound known i =
      not (not i.enabled || (i.port == 0 && not (is_unix_inbound i)))
      && not (builds i && finds known (outbound_tag_for i.target))
