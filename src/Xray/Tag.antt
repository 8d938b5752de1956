-- ===== src/Xray/Tag.antt =====
-- The routing tags of core/xray/ports.go (sanitizeKey), core/xray/traffic.go (InboundTag,
-- OutboundTag) and core/xray/dialer.go (the slot tags).
pub mod Trim
pub mod Clash
unfoldable pub use Trim.{is_space, trim_left, trim_right, trim_space}
use Prim.Native.Char.{Char, code}
use Prim.Native.String.{◌++◌}
use em_xray.Prelude.{
  ℕ, zero, suc, ◌+◌, ◌/◌, ◌%◌, String, Bool, true, false, ◌&&◌, ◌||◌, ltb, leb, ◌==◌, if◌then◌else◌,
}

-- A character of the class [A-Za-z0-9_-].
unfoldable pub is_tag_char : Char → Bool
is_tag_char c =
    let n = code c in
    (leb b'a' n && leb n b'z')
    || (leb b'A' n && leb n b'Z')
    || (leb b'0' n && leb n b'9')
    || n == b'_'
    || n == b'-'

-- nonTagRe.ReplaceAllString(s, "_"); the flag says that the run before has its "_" already.
unfoldable pub replace_runs : Bool → String → String
replace_runs in_run String.[] = String.[]
replace_runs in_run (String.◌∷◌ c s) = elim (is_tag_char c) [
  | true ↦ String.◌∷◌ c (replace_runs false s)
  | false ↦ elim in_run [
    | true ↦ replace_runs true s
    | false ↦ String.◌∷◌ "_" (replace_runs true s)
  ]
]

unfoldable pub is_underscore : Char → Bool
is_underscore c = code c == b'_'

-- sanitizeKey
unfoldable pub sanitize_key : String → String
unfolding is_tag_char replace_runs is_underscore trim_left trim_right trim_space is_space
sanitize_key s =
    trim_right is_underscore (trim_left is_underscore (replace_runs false (trim_space s)))

-- InboundTag, OutboundTag, DialerTag
pub inbound_tag : String → String
inbound_tag name = "in-" ++ sanitize_key name

unfoldable pub outbound_tag : String → String
outbound_tag name = "out-" ++ sanitize_key name

pub dialer_tag : String → String
dialer_tag master = "dialer-" ++ sanitize_key master

digit : ℕ → Char
digit zero = "0"
digit (suc zero) = "1"
digit (suc (suc zero)) = "2"
digit (suc (suc (suc zero))) = "3"
digit (suc (suc (suc (suc zero)))) = "4"
digit (suc (suc (suc (suc (suc zero))))) = "5"
digit (suc (suc (suc (suc (suc (suc zero)))))) = "6"
digit (suc (suc (suc (suc (suc (suc (suc zero))))))) = "7"
digit (suc (suc (suc (suc (suc (suc (suc (suc zero)))))))) = "8"
digit _ = "9"

decimal_from : ℕ → ℕ → String → String
decimal_from zero n rest = rest
decimal_from (suc fuel) n rest =
    let text = String.◌∷◌ (digit (n % 10)) rest in
    let longer = decimal_from fuel (n / 10) text in if n / 10 == 0 then text else longer

-- `%d`; a number has no more digits than its successor says.
pub decimal : ℕ → String
unfolding digit decimal_from
decimal n = decimal_from (suc n) n ""

-- SlotOutPrefix, SlotMemberTag, SlotBalTag
pub slot_out_prefix : ℕ → String
slot_out_prefix idx = "slot" ++ (decimal idx ++ "-out-")

unfoldable pub slot_member_tag : ℕ → String → String
unfolding slot_out_prefix decimal sanitize_key
slot_member_tag idx key = slot_out_prefix idx ++ sanitize_key key

pub slot_bal_tag : ℕ → String → String
slot_bal_tag idx master = "slot" ++ (decimal idx ++ ("-bal-" ++ sanitize_key master))
