-- ===== src/Xray/Dialer/Renamed.antt =====
-- What RenameDialerRef of core/xray/dialer.go keeps of the refs.
use em_xray.Xray.Names.{normalize_name}
use em_xray.Xray.Dialer.Canonical.{rename_refs, renamed_ref, names_ref}
use em_xray.Xray.Dialer.{DialerRef, ref_text}
use em_xray.Prelude.{
  List, [], ◌∷◌, String, false, Bool, contains, ◌≡◌, ◌&&◌, map, arith, not, refl, if_elim, str_eq,
  eq_iff, ap, ◌∙◌, if◌then◌else◌, Bool-cases, count, inl, inr,
}

-- The texts of the refs, written out: kind and new name for a ref of the kind whose name is the old
-- one but for spaces, the ref as it is for any other.
unfoldable pub renamed_texts : String → String → String → List DialerRef → List String
renamed_texts kind old name [] = []
renamed_texts kind old name (r ∷ refs) =
    let rest = renamed_texts kind old name refs in
    if str_eq r.kind kind && str_eq (normalize_name r.name) (normalize_name old)
    then ref_text (record { kind = kind; name = name }) ∷ rest
    else ref_text r ∷ rest

module _ (kind old name : String) where
  -- The text of one ref.
  abbrev text_of : DialerRef → String
  text_of r =
      if str_eq r.kind kind && str_eq (normalize_name r.name) (normalize_name old)
      then ref_text (record { kind = kind; name = name })
      else ref_text r

  ref_text-renamed_ref : (r : DialerRef) → ref_text (renamed_ref kind old name r) ≡ text_of r
  unfolding renamed_ref names_ref ref_text
  ref_text-renamed_ref r = elim (Bool-cases (str_eq r.kind kind)) [
    | inl q ↦ (let same = (eq_iff r.kind kind).0 q in ground (arith, q, same))
    | inr q ↦ ground (arith, q)
  ]

  renamed_texts-cons :
      (r : DialerRef) (refs : List DialerRef)
      → renamed_texts kind old name (r ∷ refs) ≡ text_of r ∷ renamed_texts kind old name refs
  unfolding renamed_texts
  renamed_texts-cons r refs =
      if_elim (λ (ts : List String). ts ≡ text_of r ∷ renamed_texts kind old name refs)
        (str_eq r.kind kind && str_eq (normalize_name r.name) (normalize_name old)) (λ q. rw q refl)
        (λ q. rw q refl)

  nothing_there : (k : String) → contains (renamed_texts kind old name []) k ≡ false
  unfolding contains renamed_texts
  nothing_there k = refl

  count-rename_refs :
      (seen : List String) (refs : List DialerRef) (k : String)
      → count (λ t. str_eq t k) (rename_refs kind old name seen refs).0
        ≡ (if contains (renamed_texts kind old name refs) k && not (contains seen k) then 1 else 0)
  unfolding rename_refs contains
  count-rename_refs seen [] k = ground (arith, nothing_there k)
  count-rename_refs seen (r ∷ refs) k =
      let key = ref_text (renamed_ref kind old name r) in
      let texts = ap (λ ts. contains ts k) (renamed_texts-cons r refs) in
      let same = ref_text-renamed_ref r in
      if_elim
        (λ (out : List String × Bool). count (λ t. str_eq t k) out.0 ≡ (
          if contains (renamed_texts kind old name (r ∷ refs)) k && not (contains seen k)
          then 1
          else 0))
        (contains seen key)
        (λ q. ground (arith, count-rename_refs seen refs k, q, texts, same, eq_iff key k))
        (λ q. ground (arith, count-rename_refs (key ∷ seen) refs k, q, texts, same, eq_iff key k))

  unchanged-rename_refs :
      (seen : List String) (refs : List DialerRef)
      → (rename_refs kind old name seen refs).1 ≡ false
      → (rename_refs kind old name seen refs).0 ≡ map ref_text refs
  unfolding rename_refs renamed_ref
  unchanged-rename_refs seen [] h = refl
  unchanged-rename_refs seen (r ∷ refs) h =
      let key = ref_text (renamed_ref kind old name r) in
      if_elim (λ (out : List String × Bool). out.1 ≡ false → out.0 ≡ ref_text r ∷ map ref_text refs)
        (contains seen key) (λ q changed. absurd (ground (arith, changed)))
        (λ q changed.
          let kept : names_ref kind old r ≡ false = ground (arith, changed) in
          let same : key ≡ ref_text r = rw kept refl in
          let rest = unchanged-rename_refs (key ∷ seen) refs (ground (arith, changed)) in
          ap (λ t. t ∷ (rename_refs kind old name (key ∷ seen) refs).0) same
          ∙ ap (λ ts. ref_text r ∷ ts) rest)
        h

-- The texts after a rename are those of the refs before it, with the new name in each ref of the kind
-- whose name is the old one but for spaces, and no other changed; each text stands there once.
pub rename_refs-renamed_texts :
    (kind old name : String) (refs : List DialerRef) (k : String)
    → count (λ t. str_eq t k) (rename_refs kind old name [] refs).0
      ≡ (if contains (renamed_texts kind old name refs) k then 1 else 0)
unfolding contains
rename_refs-renamed_texts kind old name refs k =
    let all = count-rename_refs kind old name [] refs k in ground (arith, all)

-- A rename that reports no change leaves the texts of the refs as they are, in their order.
pub rename_refs_unchanged :
    (kind old name : String) (refs : List DialerRef)
    → (rename_refs kind old name [] refs).1 ≡ false
    → (rename_refs kind old name [] refs).0 ≡ map ref_text refs
rename_refs_unchanged kind old name refs h = unchanged-rename_refs kind old name [] refs h
