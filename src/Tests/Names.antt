-- ===== src/Tests/Names.antt =====
-- Runs of the names, the targets and the rename of a ref.
use em_xray.Xray.Names.Normal.{IsAccepted, valid_name-IsAccepted}
use em_xray.Daemon.Live.{live_plan, diff_tagged, merge_dialers, diff_keys, moved_masters, differs}
use em_xray.Xray.Tag.{is_tag_char}
use em_xray.Xray.Dialer.Renamed.{renamed_texts, rename_refs-renamed_texts}
use em_xray.Xray.Tag.Trim.{trim_space, is_space, trim_left, trim_right}
use em_xray.Xray.Dialer.Canonical.{rename_dialer_ref, rename_refs, renamed_ref, names_ref}
use em_xray.Xray.Names.Target.{
  parse_target, canonical_target, target_text, target_of, is_iface_name, is_iface_char, char_count,
}
use em_xray.Xray.Names.{
  valid_name, name_ok, name_empty, name_invalid, normalize_name, byte_length, all_chars,
  is_name_char, join_spaces, add_text, fields, char_bytes, starts_word, onto_word,
}
use em_xray.Xray.Dialer.{
  DialerRef, parse_dialer, join_commas, cut_colon, parse_refs, split_commas, ref_text, parse_ref,
  onto_first, is_ref_kind,
}
use em_xray.Prelude.{
  List, [], ◌∷◌, some, none, true, contains, ◌≡◌, sort, str_le, insert, put, get, refl, count,
  str_eq, if◌then◌else◌,
}

accepts : valid_name "  my  node-1 " ≡ name_ok "my node-1"
unfolding valid_name normalize_name byte_length all_chars is_name_char join_spaces fields trim_space
    char_bytes is_tag_char add_text is_space starts_word onto_word trim_left trim_right live_plan
    diff_tagged sort str_le merge_dialers contains diff_keys insert moved_masters put differs get
accepts = refl

refuses : valid_name "a,b" ≡ name_invalid
unfolding valid_name normalize_name byte_length all_chars is_name_char join_spaces fields trim_space
    char_bytes is_tag_char add_text is_space starts_word onto_word trim_left trim_right live_plan
    diff_tagged sort str_le merge_dialers contains diff_keys insert moved_masters put differs get
refuses = refl

refuses_blank : valid_name "   " ≡ name_empty
unfolding valid_name normalize_name byte_length all_chars is_name_char join_spaces fields trim_space
    char_bytes is_tag_char add_text is_space starts_word onto_word trim_left trim_right live_plan
    diff_tagged sort str_le merge_dialers contains diff_keys insert moved_masters put differs get
refuses_blank = refl

valid_name-IsAccepted_example : IsAccepted (valid_name "  my  node-1 ")
valid_name-IsAccepted_example = valid_name-IsAccepted "  my  node-1 "

reads_target : parse_target " master:m1" ≡ some ("master", "m1")
unfolding parse_target trim_space target_of cut_colon is_space trim_left trim_right is_iface_name
    all_chars is_iface_char char_count live_plan is_tag_char diff_tagged sort str_le merge_dialers
    contains diff_keys insert moved_masters put differs get
reads_target = refl

refuses_target : parse_target "iface:a b" ≡ none
unfolding parse_target trim_space target_of cut_colon is_space trim_left trim_right is_iface_name
    all_chars is_iface_char char_count live_plan is_tag_char diff_tagged sort str_le merge_dialers
    contains diff_keys insert moved_masters put differs get
refuses_target = refl

writes_target : canonical_target "  " ≡ some "direct"
unfolding canonical_target parse_target target_text trim_space target_of cut_colon add_text is_space
    trim_left trim_right is_iface_name all_chars is_iface_char char_count live_plan is_tag_char
    diff_tagged sort str_le merge_dialers contains diff_keys insert moved_masters put differs get
writes_target = refl

abbrev two_refs : List DialerRef
two_refs = record { kind = "xray"; name = "a" } ∷ record { kind = "xray"; name = "b" } ∷ []

renames : rename_dialer_ref "xray: a,proxy:a,xray:b" "xray" "a" "b" ≡ ("xray:b,proxy:a", true)
unfolding rename_dialer_ref parse_dialer rename_refs join_commas trim_space parse_refs split_commas
    ref_text renamed_ref contains names_ref is_space trim_left trim_right parse_ref onto_first
    normalize_name cut_colon is_ref_kind join_spaces fields live_plan add_text starts_word onto_word
    diff_tagged sort str_le merge_dialers diff_keys insert moved_masters put differs get
renames = refl

rename_refs-renamed_texts_example :
    count (λ t. str_eq t "xray:b") (rename_refs "xray" "a" "b" [] two_refs).0
    ≡ (if contains (renamed_texts "xray" "a" "b" two_refs) "xray:b" then 1 else 0)
rename_refs-renamed_texts_example = rename_refs-renamed_texts "xray" "a" "b" two_refs "xray:b"
