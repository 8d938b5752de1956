-- ===== src/Xray/Names.antt =====
-- The names and the targets of core/xray/models.go: NormalizeName, ValidName, ParseTarget and
-- CanonicalTarget.
pub mod Normal
pub mod Target
use Prim.Native.Char.{Char, code}
use em_xray.Prelude.{
  ℕ, zero, suc, List, [], ◌∷◌, String, some, none, true, false, Bool, Option, not, if◌then◌else◌,
  ◌+◌, ◌||◌, ◌&&◌, ltb, ◌==◌, str_eq,
}
use em_xray.Xray.Tag.{is_space, trim_space, is_tag_char}

-- A character before the first of a list of texts.
unfoldable pub onto_word : Char → List String → List String
onto_word c [] = String.◌∷◌ c String.[] ∷ []
onto_word c (w ∷ ws) = String.◌∷◌ c w ∷ ws

unfoldable pub starts_word : String → Bool
starts_word String.[] = false
starts_word (String.◌∷◌ c s) = not (is_space c)

-- strings.Fields
unfoldable pub fields : String → List String
fields String.[] = []
fields (String.◌∷◌ c s) =
    let rest = fields s in
    if is_space c
    then rest
    else if starts_word s
    then onto_word c rest
    else String.◌∷◌ c String.[] ∷ rest

-- s + t
unfoldable pub add_text : String → String → String
add_text String.[] t = t
add_text (String.◌∷◌ c s) t = String.◌∷◌ c (add_text s t)

-- strings.Join(words, " ")
unfoldable pub join_spaces : List String → String
join_spaces [] = String.[]
join_spaces (w ∷ ws) = elim ws [ [] ↦ w | ◌∷◌ v vs ↦ add_text w (String.◌∷◌ " " (join_spaces ws)) ]

-- NormalizeName
unfoldable pub normalize_name : String → String
normalize_name s = join_spaces (fields (trim_space s))

-- len(s), of the UTF-8 form
unfoldable pub char_bytes : Char → ℕ
char_bytes c =
    if ltb (code c) 0x80
    then 1
    else if ltb (code c) 0x800
    then 2
    else if ltb (code c) 0x10000
    then 3
    else 4

unfoldable pub byte_length : String → ℕ
byte_length String.[] = 0
byte_length (String.◌∷◌ c s) = char_bytes c + byte_length s

-- A character of the class [A-Za-z0-9 ._-], and nameRe on a text that is not empty.
unfoldable pub is_name_char : Char → Bool
is_name_char c = is_tag_char c || (code c == b' ' || code c == b'.')

unfoldable pub all_chars : (Char → Bool) → String → Bool
all_chars p String.[] = true
all_chars p (String.◌∷◌ c s) = p c && all_chars p s

-- The errors of ValidName.
pub data NameResult : Type 0 where
  name_ok : String → NameResult
  name_empty name_too_long name_invalid : NameResult

-- ValidName
unfoldable pub valid_name : String → NameResult
valid_name s =
    let n = normalize_name s in
    if str_eq n ""
    then name_empty
    else if ltb 64 (byte_length n)
    then name_too_long
    else if all_chars is_name_char n
    then name_ok n
    else name_invalid
