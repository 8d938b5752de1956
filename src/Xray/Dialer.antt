-- ===== src/Xray/Dialer.antt =====
-- The dialer field of an entry: ParseDialer and DialerGroupKey of core/xray/dialer.go, and XrayEntry
-- of core/xray/models.go.
pub mod Parse
pub mod Cycle
pub mod Canonical
pub mod Renamed
use Prim.Native.Char.{Char, code}
use Prim.Native.String.{◌++◌}
use em_xray.Prelude.{
  ℕ, zero, suc, List, [], ◌∷◌, String, some, none, true, false, Bool, Option, not, if◌then◌else◌,
  str_eq, sort, ◌==◌, ◌||◌, contains, str_le,
}
use em_xray.Xray.Tag.Trim.{trim_space}

-- XrayEntry, the fields that are read
pub record XrayEntry : Type 0 where
  pub id : ℕ
  pub name : String
  pub outbound : String
  pub enabled : Bool
  pub dialer : String

-- IsMaster
unfoldable pub is_master : XrayEntry → Bool
is_master e = not (str_eq (trim_space e.dialer) "")

-- DialerRef
pub record DialerRef : Type 0 where
  pub kind : String
  pub name : String

-- RefXray, RefXraySub, RefProxy
abbrev pub ref_xray : String
ref_xray = "xray"

abbrev pub ref_xray_sub : String
ref_xray_sub = "xraysub"

abbrev pub ref_proxy : String
ref_proxy = "proxy"

-- A character before the first of a list of texts.
unfoldable pub onto_first : Char → List String → List String
onto_first c [] = String.◌∷◌ c String.[] ∷ []
onto_first c (s ∷ ss) = String.◌∷◌ c s ∷ ss

-- strings.Split(s, ",")
unfoldable pub split_commas : String → List String
split_commas String.[] = String.[] ∷ []
split_commas (String.◌∷◌ c s) =
    let rest = split_commas s in if code c == b',' then String.[] ∷ rest else onto_first c rest

abbrev pub onto_kind : Char → Option (String × String) → Option (String × String)
onto_kind c none = none
onto_kind c (some (kind, name)) = some (String.◌∷◌ c kind, name)

-- strings.Cut(s, ":"); `none` where there is no colon
unfoldable pub cut_colon : String → Option (String × String)
cut_colon String.[] = none
cut_colon (String.◌∷◌ c s) =
    let rest = onto_kind c (cut_colon s) in if code c == b':' then some (String.[], s) else rest

unfoldable pub is_ref_kind : String → Bool
is_ref_kind kind = str_eq kind ref_xray || (str_eq kind ref_xray_sub || str_eq kind ref_proxy)

-- One part of the field that is not blank; `none` is the error.
unfoldable pub parse_ref : String → Option DialerRef
parse_ref part = elim (cut_colon part) [
  | none ↦ none
  | some (kind, name) ↦
      if str_eq (trim_space name) "" || not (is_ref_kind kind)
      then none
      else some (record { kind = kind; name = trim_space name })
]

abbrev pub cons_ref : Option DialerRef → Option (List DialerRef) → Option (List DialerRef)
cons_ref none rest = none
cons_ref (some r) none = none
cons_ref (some r) (some rs) = some (r ∷ rs)

unfoldable pub parse_refs : List String → Option (List DialerRef)
parse_refs [] = some []
parse_refs (part ∷ parts) =
    let rest = parse_refs parts in
    if str_eq (trim_space part) "" then rest else cons_ref (parse_ref (trim_space part)) rest

-- ParseDialer; a blank field has no refs
unfoldable pub parse_dialer : String → Option (List DialerRef)
parse_dialer s =
    let s = trim_space s in if str_eq s "" then some [] else parse_refs (split_commas s)

-- r.Kind + ":" + r.Name
unfoldable pub ref_text : DialerRef → String
ref_text r = r.kind ++ (":" ++ r.name)

unfoldable pub distinct_refs : List String → List DialerRef → List String
distinct_refs seen [] = []
distinct_refs seen (r ∷ refs) =
    let skip = distinct_refs seen refs in
    let more = distinct_refs (ref_text r ∷ seen) refs in
    if contains seen (ref_text r) then skip else ref_text r ∷ more

-- strings.Join(parts, ",")
unfoldable pub join_commas : List String → String
join_commas [] = String.[]
join_commas (s ∷ ss) = elim ss [ [] ↦ s | ◌∷◌ t ts ↦ s ++ ("," ++ join_commas ss) ]

-- DialerGroupKey
unfoldable pub dialer_group_key : List DialerRef → String
dialer_group_key refs = join_commas (sort str_le (distinct_refs [] refs))
