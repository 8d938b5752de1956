-- ===== src/Daemon/Traffic.antt =====
-- The traffic sampler of daemon/traffic.go: poll, lookup and splitKey. A counter is a StatCounter of
-- core/xray/traffic.go; the bytes are never negative. The write to the store is the list of what
-- AddTraffic is called with; the caps and the pruning that follow it are not part of this.
pub mod Cursor
pub mod Keys
use Prim.Native.Char.{Char, code}
use Prim.Native.String.{◌++◌}
use em_xray.Prelude.{
  ℕ, zero, suc, List, [], ◌∷◌, String, some, none, true, false, Bool, Option, Dict, if◌then◌else◌,
  get, put, str_eq, ltb, ◌+◌, ◌==◌, ◌-◌, ◌&&◌,
}

-- StatCounter
pub record StatCounter : Type 0 where
  pub kind : String
  pub tag : String
  pub down : Bool
  pub bytes : ℕ

-- tagIndex: display names by tag
pub record TagIndex : Type 0 where
  pub inbounds : Dict String
  pub outbounds : Dict String
  pub users : Dict String

-- KindInbound, KindUser
abbrev pub kind_inbound : String
kind_inbound = "inbound"

abbrev pub kind_user : String
kind_user = "user"

-- tagIndex.lookup
unfoldable pub lookup : TagIndex → String → String → Option String
lookup idx kind tag =
    if str_eq kind kind_inbound
    then get idx.inbounds tag
    else if str_eq kind kind_user
    then get idx.users tag
    else get idx.outbounds tag

-- dirKey
unfoldable pub dir_key : Bool → String
dir_key down = if down then "d" else "u"

-- The key of a tag and the key of a counter's cursor.
unfoldable pub tag_key : StatCounter → String
tag_key c = c.kind ++ ("|" ++ c.tag)

unfoldable pub cursor_key : StatCounter → String
cursor_key c = c.kind ++ ("|" ++ (c.tag ++ ("|" ++ dir_key c.down)))

-- t.last[cur]
unfoldable pub last_of : Dict ℕ → String → ℕ
last_of last cur = elim (get last cur) [ some n ↦ n | none ↦ 0 ]

-- The delta of a counter; one that went backwards was reset.
unfoldable pub delta_of : Dict ℕ → StatCounter → ℕ
delta_of last c =
    let was = last_of last (cursor_key c) in if ltb c.bytes was then c.bytes else c.bytes - was

-- agg
pub record Agg : Type 0 where
  pub up : ℕ
  pub down : ℕ
  pub name : String

-- a := byTag[key], a new one where there is none
unfoldable pub agg_of : Dict Agg → String → String → Agg
agg_of by_tag key name = elim (get by_tag key) [
  | some a ↦ a
  | none ↦ record { up = 0; down = 0; name = name }
]

unfoldable pub add_delta : Bool → ℕ → Agg → Agg
add_delta down delta a =
    if down then record a { down = a.down + delta } else record a { up = a.up + delta }

-- The cursors and the sums of a poll.
pub record Sample : Type 0 where
  pub last : Dict ℕ
  pub by_tag : Dict Agg

-- One counter of the loop; the cursor moves also where the tag is not kept.
unfoldable pub add_counter : TagIndex → StatCounter → Sample → Sample
add_counter idx c st =
    let delta = delta_of st.last c in
    let last = put st.last (cursor_key c) c.bytes in
    elim (lookup idx c.kind c.tag) [
      | none ↦ record st { last = last }
      | some name ↦ record {
        last = last;
        by_tag =
            put st.by_tag (tag_key c) (add_delta c.down delta (agg_of st.by_tag (tag_key c) name));
      }
    ]

unfoldable pub add_counters : TagIndex → List StatCounter → Sample → Sample
add_counters idx [] st = st
add_counters idx (c ∷ cs) st = add_counters idx cs (add_counter idx c st)

-- splitKey
unfoldable pub split_key : String → String × String
split_key String.[] = (String.[], String.[])
split_key (String.◌∷◌ c s) =
    let (kind, tag) = split_key s in
    if code c == b'|' then (String.[], s) else (String.◌∷◌ c kind, tag)

-- What AddTraffic is called with: kind, tag, name, up and down
pub record Stored : Type 0 where
  pub kind : String
  pub tag : String
  pub name : String
  pub up : ℕ
  pub down : ℕ

unfoldable pub stored_traffic : Dict Agg → List Stored
stored_traffic [] = []
stored_traffic ((key, a) ∷ by_tag) =
    let (kind, tag) = split_key key in
    let rest = stored_traffic by_tag in
    if a.up == 0 && a.down == 0
    then rest
    else record { kind = kind; tag = tag; name = a.name; up = a.up; down = a.down } ∷ rest

-- poll, as far as the stored traffic: the new cursors, and what is stored
unfoldable pub poll : TagIndex → List StatCounter → Dict ℕ → Dict ℕ × List Stored
poll idx counters last =
    let st = add_counters idx counters (record { last = last; by_tag = [] }) in
    (st.last, stored_traffic st.by_tag)
