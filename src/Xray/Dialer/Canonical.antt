-- ===== src/Xray/Dialer/Canonical.antt =====
-- CanonicalDialer and RenameDialerRef of core/xray/dialer.go.
use em_xray.Xray.Names.{normalize_name}
use em_xray.Xray.Dialer.{DialerRef, parse_dialer, ref_text, join_commas}
use em_xray.Prelude.{
  List, [], ◌∷◌, String, some, none, true, false, Bool, Option, if◌then◌else◌, str_eq, contains,
  ◌&&◌, ◌||◌,
}

-- k of CanonicalDialer
unfoldable pub canonical_text : DialerRef → String
canonical_text r = ref_text (record r { name = normalize_name r.name })

-- The loop of CanonicalDialer, with the texts seen.
unfoldable pub canonical_refs : List String → List DialerRef → List String
canonical_refs seen [] = []
canonical_refs seen (r ∷ refs) =
    let skip = canonical_refs seen refs in
    let more = canonical_refs (canonical_text r ∷ seen) refs in
    if contains seen (canonical_text r) then skip else canonical_text r ∷ more

-- CanonicalDialer; `none` is the error
unfoldable pub canonical_dialer : String → Option String
canonical_dialer s = elim (parse_dialer s) [
  | none ↦ none
  | some refs ↦ some (join_commas (canonical_refs [] refs))
]

-- The ref that a rename asks for, and whether it is another.
unfoldable pub names_ref : String → String → DialerRef → Bool
names_ref kind old r = str_eq r.kind kind && str_eq (normalize_name r.name) (normalize_name old)

unfoldable pub renamed_ref : String → String → String → DialerRef → DialerRef
renamed_ref kind old name r = if names_ref kind old r then record r { name = name } else r

-- The loop of RenameDialerRef, with the texts seen: the texts, and whether one changed.
unfoldable pub rename_refs :
    String → String → String → List String → List DialerRef → List String × Bool
rename_refs kind old name seen [] = ([], false)
rename_refs kind old name seen (r ∷ refs) =
    let key = ref_text (renamed_ref kind old name r) in
    let (skip, _) = rename_refs kind old name seen refs in
    let (more, changed) = rename_refs kind old name (key ∷ seen) refs in
    if contains seen key then (skip, true) else (key ∷ more, names_ref kind old r || changed)

-- RenameDialerRef
unfoldable pub rename_dialer_ref : String → String → String → String → String × Bool
rename_dialer_ref dialer kind old name = elim (parse_dialer dialer) [
  | none ↦ (dialer, false)
  | some refs ↦
      (let (out, changed) = rename_refs kind old name [] refs in (join_commas out, changed))
]
