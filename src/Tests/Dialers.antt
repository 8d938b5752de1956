-- ===== src/Tests/Dialers.antt =====
-- Runs of the dialers: a database of two entries, the cycle check on it and a bulk change.
use em_xray.Xray.Tag.{is_tag_char}
use em_xray.Xray.Subs.Words.{lower_is, lower_code}
use em_xray.Xray.Dialer.Cycle.Ends.{detect_dialer_cycle_ends}
use em_xray.Xray.Dialer.Cycle.Found.{Explains, detect_dialer_cycle-Explains}
use em_xray.Daemon.Pools.Members.{check_member_outbound, is_word_of}
use em_xray.Xray.Names.Target.{parse_target, target_of, is_iface_name, is_iface_char, char_count}
use em_xray.Xray.Names.{
  normalize_name, join_spaces, fields, add_text, starts_word, onto_word, all_chars,
}
use em_xray.Daemon.History.Stats.{is_flip}
use em_xray.Xray.Tag.Trim.{trim_space, is_space, trim_left, trim_right}
use em_xray.Xray.Dialer.Cycle.{
  detect_dialer_cycle, walk_dialers, lookup_dialer, walk_refs, has_cycle, bad_dialer, no_cycle,
  out_of_fuel,
}
use em_xray.Xray.Dialer.Canonical.{canonical_dialer, canonical_refs, canonical_text}
use em_xray.Daemon.Dialers.Acyclic.{entry_bulk_dialer-IsAcyclic}
use em_xray.Daemon.Live.{live_plan, diff_tagged, merge_dialers, diff_keys, moved_masters, differs}
use em_xray.Xray.Dialer.Cycle.Route.{hops, xray_names}
use em_xray.Daemon.Dialers.Routes.{IsAcyclic}
use em_xray.Daemon.Dialers.{
  entry_bulk_dialer, dialer_of, propose_all, propose, allows_changes, allows_change, listed,
  validate_dialer_with, check_master_outbound, allows_refs, any_targets, equal_fold, allows_ref,
  targets_master, fold_code,
}
use em_xray.Xray.Dialer.{
  XrayEntry, parse_dialer, join_commas, parse_refs, split_commas, parse_ref, onto_first, ref_text,
  cut_colon, is_ref_kind,
}
use em_xray.Xray.Store.{
  Database, KeepsEntries, set_entry_dialers, get_entry_by_name, names_exist, sub_names_exist,
}
use mathlib.Core.Path.{subst}
use em_xray.Prelude.{
  ℕ, suc, List, [], ◌∷◌, String, some, none, true, false, Option, if◌then◌else◌, arith, ◌==◌,
  eq_iff, str_eq, ◌≡◌, Bool-cases, inl, inr, refl, contains, sort, str_le, put, insert, get, length,
  ◌≢◌,
}

-- The dialers of the entries a and b, with the ids 1 and 2.
abbrev TwoEntries : Type 0
TwoEntries = String × String

abbrev entry_a : TwoEntries → XrayEntry
entry_a s = record { id = 1; name = "a"; outbound = "vless"; enabled = true; dialer = s.0 }

abbrev entry_b : TwoEntries → XrayEntry
entry_b s = record { id = 2; name = "b"; outbound = "vless"; enabled = true; dialer = s.1 }

abbrev two_entries : Database TwoEntries
two_entries = record {
  first_entry =
      λ id s. if id == 1 then some (entry_a s) else if id == 2 then some (entry_b s) else none;
  first_entry_named = λ n s.
      if str_eq n "a" then some (entry_a s) else if str_eq n "b" then some (entry_b s) else none;
  has_subscription_named = λ n s. str_eq n "main";
  find_inbounds = λ s. some [];
  update_dialer = λ id d s. some (if id == 1 then (d, s.1) else if id == 2 then (s.0, d) else s);
}

named :
    (s : TwoEntries) (id : ℕ) (e : XrayEntry)
    → two_entries.first_entry id s ≡ some e
    → two_entries.first_entry_named e.name s ≡ some e
named s id e h = elim (Bool-cases (id == 1)) [
  | inl q ↦
      (let same : entry_a s ≡ e = ground (arith, h, q) in
        subst (λ x. two_entries.first_entry_named x.name s ≡ some x) same refl)
  | inr q ↦ elim (Bool-cases (id == 2)) [
    | inl p ↦
        (let same : entry_b s ≡ e = ground (arith, h, q, p) in
          subst (λ x. two_entries.first_entry_named x.name s ≡ some x) same refl)
    | inr p ↦ absurd (ground (arith, h, q, p))
  ]
]

two_entries-KeepsEntries : KeepsEntries two_entries
two_entries-KeepsEntries = record {
  by_id = λ s id e h. (ground (arith, h), named s id e h);
  by_name = λ s n e h. (ground (arith, h, eq_iff n "a", eq_iff n "b"), ground (arith, h));
  updated = λ s t id d h n. ground (arith, h);
}

-- Neither entry has a dialer.
abbrev plain : TwoEntries
plain = ("", "")

-- a is to dial through the subscription and b through a.
abbrev items : List (ℕ × String)
items = (1, "xraysub: main,xraysub:main") ∷ (2, "xray:a") ∷ []

abbrev after_items : TwoEntries
after_items = ("xraysub:main", "xray:a")

abbrev no_dialers : String → Option String
no_dialers = dialer_of two_entries some [] plain

no_hops : (e f : String) → contains (hops no_dialers e) f ≡ false
unfolding hops dialer_of get get_entry_by_name parse_dialer trim_space contains xray_names
no_hops e f = elim (Bool-cases (str_eq (normalize_name e) "a")) [
  | inl q ↦ rw q refl
  | inr q ↦ elim (Bool-cases (str_eq (normalize_name e) "b")) [
    | inl p ↦ rw (q, p) refl
    | inr p ↦ rw (q, p) refl
  ]
]

plain-IsAcyclic : IsAcyclic no_dialers
plain-IsAcyclic e normal m (f, to_f, rest) = absurd (ground (arith, to_f, no_hops e f))

bulk_runs : entry_bulk_dialer two_entries some 9 items plain ≡ some after_items
unfolding entry_bulk_dialer propose_all allows_changes set_entry_dialers propose live_plan
    allows_change listed canonical_dialer diff_tagged sort str_le merge_dialers validate_dialer_with
    check_master_outbound parse_dialer join_commas canonical_refs put contains diff_keys insert
    moved_masters allows_refs detect_dialer_cycle dialer_of any_targets equal_fold trim_space
    parse_refs split_commas canonical_text is_flip differs get allows_ref normalize_name
    walk_dialers lookup_dialer get_entry_by_name targets_master fold_code is_space trim_left
    trim_right parse_ref onto_first ref_text names_exist sub_names_exist join_spaces fields
    parse_target cut_colon is_ref_kind check_member_outbound add_text starts_word onto_word
    walk_refs target_of is_word_of is_iface_name lower_is all_chars is_iface_char char_count
    lower_code is_tag_char
bulk_runs = refl

-- Each through the other is refused.
bulk_refuses :
    entry_bulk_dialer two_entries some 9 ((1, "xray:b") ∷ (2, "xray:a") ∷ []) plain ≡ none
unfolding entry_bulk_dialer propose_all allows_changes set_entry_dialers propose live_plan
    allows_change listed canonical_dialer diff_tagged sort str_le merge_dialers validate_dialer_with
    check_master_outbound parse_dialer join_commas canonical_refs put contains diff_keys insert
    moved_masters allows_refs detect_dialer_cycle dialer_of any_targets equal_fold trim_space
    parse_refs split_commas canonical_text is_flip differs get allows_ref normalize_name
    walk_dialers lookup_dialer get_entry_by_name targets_master fold_code is_space trim_left
    trim_right parse_ref onto_first ref_text names_exist sub_names_exist join_spaces fields
    parse_target cut_colon is_ref_kind check_member_outbound add_text starts_word onto_word
    walk_refs target_of is_word_of is_iface_name lower_is all_chars is_iface_char char_count
    lower_code is_tag_char
bulk_refuses = refl

entry_bulk_dialer-IsAcyclic_example : IsAcyclic (dialer_of two_entries some [] after_items)
entry_bulk_dialer-IsAcyclic_example =
    entry_bulk_dialer-IsAcyclic two_entries some two_entries-KeepsEntries 9 items plain after_items
      plain-IsAcyclic bulk_runs

-- The stored dialers: b dials through a, and c has a field that does not parse.
abbrev stored_dialer : String → Option String
stored_dialer n = if str_eq n "b" then some "xray:a" else if str_eq n "c" then some "?" else none

abbrev stored_names : List String
stored_names = "b" ∷ "c" ∷ []

finds_cycle : detect_dialer_cycle 4 "a" "xray:b" stored_dialer ≡ has_cycle "a"
unfolding detect_dialer_cycle dialer_of normalize_name walk_dialers lookup_dialer get
    get_entry_by_name join_spaces fields trim_space contains add_text is_space starts_word onto_word
    trim_left trim_right parse_dialer walk_refs parse_refs split_commas live_plan parse_ref
    onto_first diff_tagged sort str_le merge_dialers cut_colon is_ref_kind diff_keys insert
    moved_masters put differs
finds_cycle = refl

finds_bad : detect_dialer_cycle 4 "a" "xray:c" stored_dialer ≡ bad_dialer
unfolding detect_dialer_cycle dialer_of normalize_name walk_dialers lookup_dialer get
    get_entry_by_name join_spaces fields trim_space contains add_text is_space starts_word onto_word
    trim_left trim_right parse_dialer walk_refs parse_refs split_commas live_plan parse_ref
    onto_first diff_tagged sort str_le merge_dialers cut_colon is_ref_kind diff_keys insert
    moved_masters put differs
finds_bad = refl

finds_none : detect_dialer_cycle 4 "a" "xray:d, proxy:b" stored_dialer ≡ no_cycle
unfolding detect_dialer_cycle dialer_of normalize_name walk_dialers lookup_dialer get
    get_entry_by_name join_spaces fields trim_space contains add_text is_space starts_word onto_word
    trim_left trim_right parse_dialer walk_refs parse_refs split_commas live_plan parse_ref
    onto_first diff_tagged sort str_le merge_dialers cut_colon is_ref_kind diff_keys insert
    moved_masters put differs
finds_none = refl

detect_dialer_cycle-Explains_example :
    Explains
      (lookup_dialer (normalize_name "a") "xray:b" stored_dialer)
      (normalize_name "a")
      (detect_dialer_cycle 4 "a" "xray:b" stored_dialer)
detect_dialer_cycle-Explains_example = detect_dialer_cycle-Explains 4 "a" "xray:b" stored_dialer

stored_names_cover : (e : String) → contains stored_names e ≡ false → stored_dialer e ≡ none
unfolding contains
stored_names_cover e h = ground (arith, h, eq_iff "b" e, eq_iff "c" e, eq_iff e "b", eq_iff e "c")

detect_dialer_cycle_ends_example :
    detect_dialer_cycle (suc (suc (length stored_names))) "a" "xray:b" stored_dialer ≢ out_of_fuel
detect_dialer_cycle_ends_example =
    detect_dialer_cycle_ends stored_names "a" "xray:b" stored_dialer stored_names_cover
