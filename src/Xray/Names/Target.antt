-- ===== src/Xray/Names/Target.antt =====
-- ParseTarget and CanonicalTarget of core/xray/models.go.
use em_xray.Xray.Dialer.{cut_colon}
use em_xray.Xray.Tag.Trim.{trim_space}
use em_xray.Xray.Names.{all_chars, add_text}
use em_xray.Xray.Tag.{is_tag_char}
use Prim.Native.Char.{Char, code}
use em_xray.Prelude.{
  ℕ, suc, String, some, none, Bool, Option, if◌then◌else◌, ◌||◌, ◌&&◌, str_eq, ◌==◌, ltb,
}

-- TargetDirect, KindMaster, KindXray, KindIface
abbrev pub target_direct : String
target_direct = "direct"

abbrev pub kind_master : String
kind_master = "master"

abbrev pub kind_xray : String
kind_xray = "xray"

abbrev pub kind_iface : String
kind_iface = "iface"

-- A character of the class [A-Za-z0-9_.:@-], and ifaceNameRe.
unfoldable pub is_iface_char : Char → Bool
is_iface_char c = is_tag_char c || (code c == b'.' || (code c == b':' || code c == b'@'))

unfoldable pub char_count : String → ℕ
char_count String.[] = 0
char_count (String.◌∷◌ c s) = suc (char_count s)

unfoldable pub is_iface_name : String → Bool
is_iface_name n = all_chars is_iface_char n && (ltb 0 (char_count n) && ltb (char_count n) 16)

-- The `switch` on the kind of a target.
unfoldable pub target_of : Option (String × String) → Option (String × String)
target_of none = none
target_of (some (k, n)) =
    if str_eq n ""
    then none
    else if str_eq k kind_master || str_eq k kind_xray
    then some (k, n)
    else if str_eq k kind_iface && is_iface_name n
    then some (k, n)
    else none

-- ParseTarget; `none` is the error
unfoldable pub parse_target : String → Option (String × String)
parse_target t =
    let t = trim_space t in
    if str_eq t "" || str_eq t target_direct
    then some (target_direct, "")
    else target_of (cut_colon t)

-- kind + ":" + name
unfoldable pub target_text : String → String → String
target_text kind name = add_text kind (String.◌∷◌ ":" name)

-- CanonicalTarget; `none` is the error
unfoldable pub canonical_target : String → Option String
canonical_target t = elim (parse_target t) [
  | none ↦ none
  | some (kind, name) ↦
      some (if str_eq kind target_direct then target_direct else target_text kind name)
]
