-- ===== src/Xray/Dialer/Parse.antt =====
-- What ParseDialer of core/xray/dialer.go lets through.
use em_xray.Xray.Dialer.{
  DialerRef, is_ref_kind, parse_ref, parse_refs, parse_dialer, cut_colon, cons_ref, trim_space,
  split_commas,
}
use em_xray.Prelude.{
  List, some, none, true, false, Option, All, ◌≡◌, str_eq, String, Option-cases, if_elim, ◌∷◌, inl,
  [], arith, refl, inr,
}

abbrev pub IsRef : DialerRef → Type 0
IsRef r = (is_ref_kind r.kind ≡ true) × (str_eq r.name "" ≡ false)

-- A result of ParseDialer: an error, or refs that all have a known kind and a name.
abbrev pub AreRefs : Option (List DialerRef) → Type 0
AreRefs none = Unit
AreRefs (some refs) = All IsRef refs

parse_ref-IsRef : (part : String) (r : DialerRef) → parse_ref part ≡ some r → IsRef r
unfolding parse_ref
parse_ref-IsRef part r e = elim (Option-cases (cut_colon part)) [
  | inl q ↦ absurd (ground arith)
  | inr ((kind, name), q) ↦ (ground arith, ground arith)
]

parse_refs-AreRefs : (parts : List String) → AreRefs (parse_refs parts)
unfolding parse_refs
parse_refs-AreRefs [] = tt
parse_refs-AreRefs (part ∷ parts) =
    let rest = parse_refs-AreRefs parts in
    if_elim AreRefs (str_eq (trim_space part) "") (λ blank. rest)
      (λ n.
        cons_ref-AreRefs (parse_ref (trim_space part)) (parse_refs parts)
          (parse_ref-IsRef (trim_space part)) rest)
  where
    cons_ref-AreRefs :
        (o : Option DialerRef) (rest : Option (List DialerRef))
        → ((r : DialerRef) → o ≡ some r → IsRef r)
        → AreRefs rest
        → AreRefs (cons_ref o rest)
    cons_ref-AreRefs none rest h hr = tt
    cons_ref-AreRefs (some r) none h hr = tt
    cons_ref-AreRefs (some r) (some rs) h hr = (h r refl, hr)

-- ParseDialer gives an error or refs that each have one of the three kinds and a name.
pub parse_dialer-AreRefs : (s : String) → AreRefs (parse_dialer s)
unfolding parse_dialer
parse_dialer-AreRefs s =
    if_elim AreRefs (str_eq (trim_space s) "") (λ blank. tt)
      (λ n. parse_refs-AreRefs (split_commas (trim_space s)))
