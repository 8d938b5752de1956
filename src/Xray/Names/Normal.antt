-- ===== src/Xray/Names/Normal.antt =====
-- Normal names of core/xray/models.go: NormalizeName is idempotent, and so is ValidName.
use em_xray.Xray.Tag.Trim.{trim_left}
use em_xray.Xray.Names.{
  starts_word, onto_word, fields, add_text, join_spaces, normalize_name, NameResult, valid_name,
  name_ok, byte_length, all_chars, is_name_char, name_empty, name_too_long, name_invalid,
}
use Prim.Native.Char.{Char}
use em_xray.Xray.Tag.Trim.{is_space, trim_space, trim_left, trim_right}
use em_xray.Prelude.{
  List, [], ◌∷◌, String, true, false, Bool, not, ◌≡◌, All, ◌&&◌, arith, if_elim, ◌∙◌, refl, ap,
  Bool-cases, inl, inr, sym, str_eq, ltb, ◌≤◌,
}

unfoldable pub no_space : String → Bool
no_space String.[] = true
no_space (String.◌∷◌ c s) = not (is_space c) && no_space s

-- A word: at least one character, and no space.
abbrev pub IsWord : String → Type 0
IsWord w = (starts_word w ≡ true) × (no_space w ≡ true)

one_char : (c : Char) → is_space c ≡ false → IsWord (String.◌∷◌ c String.[])
unfolding starts_word no_space
one_char c h = (ground (arith, h), ground (arith, h))

onto_word-AreWords :
    (c : Char) (ws : List String) → is_space c ≡ false → All IsWord ws → All IsWord (onto_word c ws)
unfolding onto_word starts_word no_space
onto_word-AreWords c [] h hs = (one_char c h, tt)
onto_word-AreWords c (w ∷ ws) h hs =
    let q = hs.0.1 in ((ground (arith, h), ground (arith, h, q)), hs.1)

onto_word-first :
    (c : Char) (w : String) (ws : List String) → onto_word c (w ∷ ws) ≡ String.◌∷◌ c w ∷ ws
unfolding onto_word
onto_word-first c w ws = refl

starts_word-char :
    (c : Char) (s : String) → is_space c ≡ false → starts_word (String.◌∷◌ c s) ≡ true
unfolding starts_word
starts_word-char c s h = rw h refl

no_space_parts :
    (c : Char) (s : String)
    → no_space (String.◌∷◌ c s) ≡ true
    → (is_space c ≡ false) × (no_space s ≡ true)
unfolding no_space
no_space_parts c s h = (ground (arith, h), ground (arith, h))

word_parts :
    (c : Char) (s : String) → IsWord (String.◌∷◌ c s) → (is_space c ≡ false) × (no_space s ≡ true)
word_parts c s h = no_space_parts c s h.1

no_blank_word : IsWord String.[] → ⊥
unfolding starts_word
no_blank_word h = let e = h.0 in ground (arith, e)

fields-AreWords : (s : String) → All IsWord (fields s)
unfolding fields
fields-AreWords String.[] = tt
fields-AreWords (String.◌∷◌ c s) =
    let rest = fields-AreWords s in
    if_elim (λ (ws : List String). All IsWord ws) (is_space c) (λ _. rest)
      (λ word.
        if_elim (λ (ws : List String). All IsWord ws) (starts_word s)
          (λ more. onto_word-AreWords c (fields s) word rest) (λ _. (one_char c word, rest)))

is_space-blank : is_space " " ≡ true
unfolding is_space
is_space-blank = refl

-- A space between two words, and a character before a word.
fields-blank : (t : String) → fields (String.◌∷◌ " " t) ≡ fields t
unfolding fields
fields-blank t = rw is_space-blank refl

fields-last :
    (c : Char) (t : String)
    → is_space c ≡ false
    → starts_word t ≡ false
    → fields (String.◌∷◌ c t) ≡ String.◌∷◌ c String.[] ∷ fields t
unfolding fields
fields-last c t h q = rw (h, q) refl

fields-more :
    (c : Char) (t : String)
    → is_space c ≡ false
    → starts_word t ≡ true
    → fields (String.◌∷◌ c t) ≡ onto_word c (fields t)
unfolding fields
fields-more c t h q = rw (h, q) refl

-- A word, then a space, then a text: the word comes first.
fields-add_text :
    (c : Char) (s t : String)
    → is_space c ≡ false
    → no_space s ≡ true
    → fields (String.◌∷◌ c (add_text s (String.◌∷◌ " " t))) ≡ String.◌∷◌ c s ∷ fields t
unfolding add_text starts_word
fields-add_text c String.[] t h hs =
    fields-last c (String.◌∷◌ " " t) h (rw is_space-blank refl)
    ∙ ap (λ rest. String.◌∷◌ c String.[] ∷ rest) (fields-blank t)
fields-add_text c (String.◌∷◌ d s) t h hs =
    let (nd, ns) = no_space_parts d s hs in
    fields-more c (String.◌∷◌ d (add_text s (String.◌∷◌ " " t))) h
      (starts_word-char d (add_text s (String.◌∷◌ " " t)) nd)
    ∙ ap (onto_word c) (fields-add_text d s t nd ns)
    ∙ onto_word-first c (String.◌∷◌ d s) (fields t)

fields-one :
    (c : Char) (s : String)
    → is_space c ≡ false
    → no_space s ≡ true
    → fields (String.◌∷◌ c s) ≡ String.◌∷◌ c s ∷ []
unfolding starts_word fields
fields-one c String.[] h hs = fields-last c String.[] h refl
fields-one c (String.◌∷◌ d s) h hs =
    let (nd, ns) = no_space_parts d s hs in
    fields-more c (String.◌∷◌ d s) h (starts_word-char d s nd)
    ∙ ap (onto_word c) (fields-one d s nd ns)
    ∙ onto_word-first c (String.◌∷◌ d s) []

-- Splitting the words joined by spaces gives the words.
fields-join_spaces : (ws : List String) → All IsWord ws → fields (join_spaces ws) ≡ ws
unfolding join_spaces fields add_text
fields-join_spaces [] h = refl
fields-join_spaces (String.[] ∷ ws) h = absurd (no_blank_word h.0)
fields-join_spaces ((String.◌∷◌ c s) ∷ []) h =
    let (nc, ns) = word_parts c s h.0 in fields-one c s nc ns
fields-join_spaces ((String.◌∷◌ c s) ∷ v ∷ vs) h =
    let (nc, ns) = word_parts c s h.0 in
    fields-add_text c s (join_spaces (v ∷ vs)) nc ns
    ∙ ap (λ rest. String.◌∷◌ c s ∷ rest) (fields-join_spaces (v ∷ vs) h.1)

-- Two texts with the same words, that both begin with one or both do not.
abbrev SameWords : String → String → Type 0
SameWords s t = (fields s ≡ fields t) × (starts_word s ≡ starts_word t)

SameWords-char :
    (c : Char) (s t : String) → SameWords s t → SameWords (String.◌∷◌ c s) (String.◌∷◌ c t)
unfolding fields starts_word
SameWords-char c s t h = let (e, q) = h in (rw (e, q) refl, refl)

SameWords-space : (c : Char) (s : String) → is_space c ≡ true → fields s ≡ fields (String.◌∷◌ c s)
unfolding fields
SameWords-space c s h = rw h refl

fields-trim_left : (s : String) → fields (trim_left is_space s) ≡ fields s
unfolding trim_left
fields-trim_left String.[] = refl
fields-trim_left (String.◌∷◌ c s) = elim (Bool-cases (is_space c)) [
  | inl e ↦ rw (e, trim_left) (fields-trim_left s) ∙ SameWords-space c s e
  | inr e ↦ rw (e, trim_left) refl
]

abbrev trim_end : Char → Bool → String
trim_end c space = elim space [ true ↦ String.[] | false ↦ String.◌∷◌ c String.[] ]

abbrev trim_step : Char → String → String
trim_step c t = elim t [
  | String.[] ↦ trim_end c (is_space c)
  | String.◌∷◌ d t ↦ String.◌∷◌ c (String.◌∷◌ d t)
]

trim_right-step :
    (c : Char) (s : String)
    → trim_right is_space (String.◌∷◌ c s) ≡ trim_step c (trim_right is_space s)
unfolding trim_right
trim_right-step c s = refl

trim_end-SameWords :
    (c : Char) (space : Bool)
    → is_space c ≡ space
    → SameWords (trim_end c space) (String.◌∷◌ c String.[])
unfolding fields starts_word
trim_end-SameWords c true e = (rw e refl, rw e refl)
trim_end-SameWords c false e = (refl, refl)

trim_step-SameWords : (c : Char) (t : String) → SameWords (trim_step c t) (String.◌∷◌ c t)
unfolding fields starts_word
trim_step-SameWords c String.[] = trim_end-SameWords c (is_space c) refl
trim_step-SameWords c (String.◌∷◌ d t) = (refl, refl)

SameWords-trans : (s t u : String) → SameWords s t → SameWords t u → SameWords s u
SameWords-trans s t u h k = (h.0 ∙ k.0, h.1 ∙ k.1)

trim_right-SameWords : (s : String) → SameWords (trim_right is_space s) s
unfolding trim_right
trim_right-SameWords String.[] = (refl, refl)
trim_right-SameWords (String.◌∷◌ c s) =
    SameWords-trans _ _ _ (trim_step-SameWords c (trim_right is_space s))
      (SameWords-char c (trim_right is_space s) s (trim_right-SameWords s))

-- Trimming a text does not change its words.
pub fields-trim_space : (s : String) → fields (trim_space s) ≡ fields s
unfolding trim_space
fields-trim_space s = (trim_right-SameWords (trim_left is_space s)).0 ∙ fields-trim_left s

pub normalize_name-fields : (s : String) → normalize_name s ≡ join_spaces (fields s)
unfolding normalize_name
normalize_name-fields s = ap join_spaces (fields-trim_space s)

pub fields-normalize_name : (s : String) → fields (normalize_name s) ≡ fields s
unfolding normalize_name
fields-normalize_name s =
    fields-join_spaces (fields (trim_space s)) (fields-AreWords (trim_space s))
    ∙ fields-trim_space s

-- A normal name is its own normal form.
pub normalize_name_twice : (s : String) → normalize_name (normalize_name s) ≡ normalize_name s
normalize_name_twice s =
    normalize_name-fields (normalize_name s)
    ∙ ap join_spaces (fields-normalize_name s)
    ∙ sym (normalize_name-fields s)

abbrev pub IsAccepted : NameResult → Type 0
IsAccepted (name_ok n) =
    (valid_name n ≡ name_ok n) × (byte_length n ≤ 64) × (all_chars is_name_char n ≡ true)
IsAccepted name_empty = Unit
IsAccepted name_too_long = Unit
IsAccepted name_invalid = Unit

-- A name that ValidName accepts has at most 64 bytes, all of the class, and ValidName accepts it again
-- unchanged.
pub valid_name-IsAccepted : (s : String) → IsAccepted (valid_name s)
unfolding valid_name
valid_name-IsAccepted s =
    let n = normalize_name s in
    if_elim IsAccepted (str_eq n "") (λ _. tt)
      (λ a.
        if_elim IsAccepted (ltb 64 (byte_length n)) (λ _. tt)
          (λ b.
            if_elim IsAccepted (all_chars is_name_char n)
              (λ c. (rw (normalize_name_twice s, a, b, c) refl, ground (arith, b), c)) (λ _. tt)))
