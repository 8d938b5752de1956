-- ===== src/Xray/Tag/Trim.antt =====
-- strings.TrimSpace and strings.Trim of Go's standard library, on texts.
use Prim.Native.Char.{Char, code}
use em_xray.Prelude.{String, Bool, true, false, ◌&&◌, ◌||◌, leb, ◌==◌}

-- unicode.IsSpace
unfoldable pub is_space : Char → Bool
is_space c =
    let n = code c in
    (leb 9 n && leb n 13)
    || n == 32
    || n == 0x85
    || n == 0xa0
    || n == 0x1680
    || (leb 0x2000 n && leb n 0x200a)
    || n == 0x2028
    || n == 0x2029
    || n == 0x202f
    || n == 0x205f
    || n == 0x3000

unfoldable pub trim_left : (Char → Bool) → String → String
trim_left p String.[] = String.[]
trim_left p (String.◌∷◌ c s) = elim (p c) [ true ↦ trim_left p s | false ↦ String.◌∷◌ c s ]

unfoldable pub trim_right : (Char → Bool) → String → String
trim_right p String.[] = String.[]
trim_right p (String.◌∷◌ c s) = elim (trim_right p s) [
  | String.[] ↦ elim (p c) [ true ↦ String.[] | false ↦ String.◌∷◌ c String.[] ]
  | String.◌∷◌ d t ↦ String.◌∷◌ c (String.◌∷◌ d t)
]

unfoldable pub trim_space : String → String
unfolding is_space trim_left trim_right
trim_space s = trim_right is_space (trim_left is_space s)
