-- ===== src/Daemon/Traffic/Keys.antt =====
-- The keys of the sums in daemon/traffic.go.
use em_xray.Daemon.Traffic.{split_key, tag_key, StatCounter}
use Prim.Native.Char.{code}
use Prim.Native.String.{◌++◌}
use text.Mathlib.TextLemmas.{nil-append, cons-append}
use em_xray.Prelude.{String, true, Bool, not, ◌==◌, ◌≡◌, ◌&&◌, ap, ◌∙◌, if_elim, arith}

-- A text without a bar.
unfoldable pub is_bar_free : String → Bool
is_bar_free String.[] = true
is_bar_free (String.◌∷◌ c s) = not (code c == b'|') && is_bar_free s

split_key-bar :
    (kind tag : String) → is_bar_free kind ≡ true → split_key (kind ++ ("|" ++ tag)) ≡ (kind, tag)
unfolding is_bar_free split_key
split_key-bar String.[] tag h = ap {B = String × String} split_key (
    nil-append ("|" ++ tag)
    ∙ cons-append "|" String.[] tag
    ∙ ap (λ t. String.◌∷◌ "|" t) (nil-append tag))
split_key-bar (String.◌∷◌ c kind) tag h =
    ap {B = String × String} split_key (cons-append c kind ("|" ++ tag))
    ∙ if_elim (λ (out : String × String). out ≡ (String.◌∷◌ c kind, tag)) (code c == b'|')
        (λ bar. absurd (ground (arith, h, bar)))
        (λ n.
          ap {B = String × String} (λ p. (String.◌∷◌ c p.0, p.1))
            (split_key-bar kind tag (ground (arith, h))))

-- What is stored is under the counter's own kind and tag: splitKey takes the key of a sum apart again,
-- whatever the tag is. A kind has no bar.
pub split_key-tag_key :
    (c : StatCounter) → is_bar_free c.kind ≡ true → split_key (tag_key c) ≡ (c.kind, c.tag)
unfolding tag_key
split_key-tag_key c h = split_key-bar c.kind c.tag h
