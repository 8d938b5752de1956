-- ===== src/Tests/Config.antt =====
-- A run of Generate: a master with a pool of one node, and an inbound that targets it.
use em_xray.Xray.Names.{all_chars}
use em_xray.Xray.Subs.Words.{lower_is, lower_code}
use em_xray.Daemon.Pools.Members.{check_member_outbound, is_word_of}
use em_xray.Xray.Names.Target.{parse_target, target_of, is_iface_name, is_iface_char, char_count}
use em_xray.Daemon.Dialers.{check_master_outbound, equal_fold, fold_code}
use em_xray.Xray.Tag.{
  dialer_tag, slot_member_tag, inbound_tag, slot_bal_tag, sanitize_key, is_tag_char, replace_runs,
  is_underscore, outbound_tag,
}
use em_xray.Xray.Tag.Trim.{trim_space, is_space, trim_left, trim_right}
use em_xray.Xray.Config.Tunnels.{Tunnels, generate-Tunnels}
use em_xray.Xray.Config.{
  Config, generate, drops, goes_direct, dials, entry_outbounds, slot_index_by_name, enters,
  assemble, entry_body, relays, add_masters, to_outbound, tags_of, iface_outbounds, slot_in_tag,
  slot_parts, dialer_email, inbound_rules, to_balancer, iface_of, tunnel_members, hop_outbounds,
  member_outbounds, master_balancers, master_rules, outbound_tag_for, slot_balancer, picked_tags,
  api_tag, listener_tags, slot_in_tags,
}
use em_xray.Xray.Slot.{Slot, slot_masters, pick_of, active_count}
use em_xray.Xray.Dialer.{XrayEntry, is_master, cut_colon}
use em_xray.Xray.Ports.{Inbound, is_unix_inbound, is_unix_listen}
use em_xray.Prelude.{
  String, Option, Bool, true, [], sort, some, ◌∷◌, str_le, false, insert, ◌≡◌, refl, none, get, put,
  contains, if◌then◌else◌, str_eq, List,
}
use mathlib.Core.List.Memᴰ

abbrev protocol : String → Option String
protocol s = some s

-- Every text is an object, and one has a dialerProxy.
abbrev any_text : String → Option (Option String)
any_text s = some (if str_eq s "socks" then some "elsewhere" else none)

abbrev any_inbound : Inbound → Bool
any_inbound i = true

abbrev master_entry : XrayEntry
master_entry = record {
  id = 1;
  name = "m";
  outbound = "vless";
  enabled = true;
  dialer = "xray-sub:s";
}

-- An entry whose JSON has a dialerProxy.
abbrev plain_entry : XrayEntry
plain_entry = record { id = 2; name = "p"; outbound = "socks"; enabled = true; dialer = "" }

abbrev two_entries : List XrayEntry
two_entries = plain_entry ∷ master_entry ∷ []

abbrev to_master : Inbound
to_master = record {
  id = 1;
  name = "i";
  listen = "127.0.0.1";
  port = 11800;
  enabled = true;
  target = "xray:m";
}

abbrev pool : Slot
pool = record {
  master = "m";
  aliases = [];
  key = "k";
  index = 0;
  members = record { key = "n"; outbound = "vmess" } ∷ [];
  picked = "n" ∷ [];
  active = 1;
  master_picks = [];
  strategy = "stable";
  auto = false;
  pinned = [];
}

abbrev expected : Config
expected = record {
  listeners = inbound_tag "i" ∷ api_tag ∷ slot_in_tag 0 ∷ [];
  outbounds =
      record { tag = "block"; body = drops }
      ∷ record { tag = "direct"; body = goes_direct }
      ∷ record { tag = "out-m"; body = dials "vless" (some (dialer_tag "m")) }
      ∷ record { tag = "out-p"; body = dials "socks" (some "elsewhere") }
      ∷ record { tag = dialer_tag "m"; body = enters "m" 0 }
      ∷ record { tag = slot_member_tag 0 "n"; body = relays "vmess" none }
      ∷ [];
  rules =
      record { inbound = "api"; user = none; target = to_outbound "api" }
      ∷ record { inbound = inbound_tag "i"; user = none; target = to_outbound "out-m" }
      ∷ record {
        inbound = slot_in_tag 0;
        user = some (dialer_email "m");
        target = to_balancer (slot_bal_tag 0 "m");
      }
      ∷ [];
  balancers =
      record {
        tag = slot_bal_tag 0 "m";
        least_load = false;
        selector = slot_member_tag 0 "n" ∷ [];
        fallback = slot_member_tag 0 "n";
      }
      ∷ [];
}

generate_run :
    generate protocol any_text any_inbound two_entries (to_master ∷ []) (pool ∷ []) ≡ some expected
unfolding generate listener_tags slot_in_tags sort str_le insert entry_outbounds slot_index_by_name
    assemble entry_body add_masters slot_masters tags_of iface_outbounds slot_parts inbound_rules
    is_master check_master_outbound get put iface_of contains tunnel_members hop_outbounds
    member_outbounds master_balancers master_rules is_unix_inbound outbound_tag_for trim_space
    equal_fold parse_target sanitize_key check_member_outbound slot_balancer pick_of is_unix_listen
    is_space trim_left trim_right fold_code cut_colon is_tag_char replace_runs is_underscore
    is_word_of picked_tags active_count lower_is lower_code outbound_tag target_of is_iface_name
    is_iface_char all_chars char_count
generate_run = refl

master_entry-IsMaster : is_master master_entry ≡ true
unfolding is_master trim_space is_space trim_left trim_right
master_entry-IsMaster = refl

generate-Tunnels_example : Tunnels protocol any_text any_inbound master_entry expected.outbounds
generate-Tunnels_example =
    generate-Tunnels protocol any_text any_inbound two_entries (to_master ∷ []) (pool ∷ []) expected
      master_entry generate_run (Memᴰ.tail (Memᴰ.head refl)) refl master_entry-IsMaster
