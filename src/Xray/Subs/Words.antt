-- ===== src/Xray/Subs/Words.antt =====
-- Words without regard to case, and ParseStrategy of core/xray/models.go.
use em_xray.Xray.Slot.{strategy_stable, strategy_agile, strategy_manual}
use Prim.Native.Char.{code}
use em_xray.Prelude.{
  ℕ, String, some, none, true, false, Bool, Option, if◌then◌else◌, ◌==◌, leb, ◌&&◌, ◌||◌, ◌+◌,
}
use em_xray.Xray.Tag.Trim.{trim_space}

-- unicode.ToLower on a code, as far as its result is ASCII: two letters from outside have an ASCII
-- lower case.
unfoldable pub lower_code : ℕ → ℕ
lower_code n =
    if leb 65 n && leb n 90 then n + 32 else if n == 304 then 105 else if n == 8490 then 107 else n

-- strings.ToLower(s) == word
unfoldable pub lower_is : String → String → Bool
lower_is String.[] String.[] = true
lower_is String.[] (String.◌∷◌ d w) = false
lower_is (String.◌∷◌ c s) String.[] = false
lower_is (String.◌∷◌ c s) (String.◌∷◌ d w) = lower_code (code c) == code d && lower_is s w

abbrev pub strategy_auto : String
strategy_auto = "auto"

-- ParseStrategy; `none` is the error
unfoldable pub parse_strategy : String → Option String
parse_strategy s =
    let v = trim_space s in
    if lower_is v "" || lower_is v strategy_auto
    then some strategy_auto
    else if lower_is v strategy_stable
    then some strategy_stable
    else if lower_is v strategy_agile
    then some strategy_agile
    else if lower_is v strategy_manual
    then some strategy_manual
    else none

-- Subscription.EffectiveStrategy, of the field
unfoldable pub effective_strategy : String → String
effective_strategy s = elim (parse_strategy s) [ some v ↦ v | none ↦ strategy_auto ]
