-- ===== src/Xray/Tag/Clash.antt =====
-- Two names of entries that differ can have one tag: sanitizeKey of core/xray/ports.go.
use em_xray.Prelude.{◌≡◌, refl}
use em_xray.Xray.Tag.{sanitize_key}

clean_test : sanitize_key "  a b..c_ " ≡ "a_b_c"
unfolding sanitize_key
clean_test = refl

clash_test : sanitize_key "a b" ≡ sanitize_key "a.b"
unfolding sanitize_key
clash_test = refl
