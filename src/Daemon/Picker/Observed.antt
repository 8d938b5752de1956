-- ===== src/Daemon/Picker/Observed.antt =====
-- What observe of daemon/nodepick.go makes of each score.
use em_xray.Daemon.Picker.{
  Floats, NodeScore, once, observe_tag, rest_scores, sampled, observed, observe_tags,
  observe_scores, store_score, loaded_tags, uplink_down,
}
use em_xray.Xray.Slot.{Slot}
use em_xray.Daemon.Parker.{NodeStatus}
use em_xray.Prelude.{
  List, [], ◌∷◌, String, some, none, true, false, Bool, Option, Dict, get, contains, keep_if, ◌≡◌,
  if_elim, if◌then◌else◌, str_eq, ◌∙◌, Bool-cases, arith, ◌||◌, inl, eq_iff, inr, get-put, refl, ap,
  sym,
}

get-keep_if_key :
    {V : Type 0} (p : String → Bool) (d : Dict V) (k : String)
    → get (keep_if (λ j v. p j) d) k ≡ (if p k then get d k else none)
unfolding get keep_if
get-keep_if_key p [] k = ground arith
get-keep_if_key p ((j, v) ∷ d) k = ground (arith, eq_iff j k, get-keep_if_key p d k)

contains-once : (ts : List String) (k : String) → contains (once ts) k ≡ contains ts k
unfolding once contains
contains-once [] k = refl
contains-once (t ∷ ts) k =
    if_elim (λ (xs : List String). contains xs k ≡ (str_eq t k || contains ts k)) (contains ts t)
      (λ q. ground (arith, q, eq_iff t k, contains-once ts k))
      (λ _. ground (arith, contains-once ts k))

-- No text of a list stands twice.
IsOnce : List String → Type 0
IsOnce [] = Unit
IsOnce (t ∷ ts) = (contains ts t ≡ false) × IsOnce ts

once-IsOnce : (ts : List String) → IsOnce (once ts)
unfolding once IsOnce
once-IsOnce [] = tt
once-IsOnce (t ∷ ts) =
    let rest = once-IsOnce ts in
    if_elim IsOnce (contains ts t) (λ _. rest) (λ q. (contains-once ts t ∙ q, rest))

module _ {F : Type 0} (fl : Floats F) where
  -- A score with the flag wentDown reset.
  abbrev pub at_rest : Option (NodeScore F) → Option (NodeScore F)
  at_rest none = none
  at_rest (some sc) = some (record sc { went_down = false })

  get-rest_scores :
      (scores : Dict (NodeScore F)) (k : String)
      → get (rest_scores fl scores) k ≡ at_rest (get scores k)
  unfolding get rest_scores
  get-rest_scores [] k = refl
  get-rest_scores ((j, sc) ∷ scores) k = elim (Bool-cases (str_eq j k)) [
    | inl q ↦ rw q refl
    | inr q ↦ rw q (get-rest_scores scores k)
  ]

  at_rest_if :
      (b : Bool) (o : Option (NodeScore F))
      → at_rest (if b then o else none) ≡ (if b then at_rest o else none)
  at_rest_if true o = refl
  at_rest_if false o = refl

  observed-none :
      (st : Option NodeStatus) (o : Option (NodeScore F)) → observed fl st o ≡ none → o ≡ none
  unfolding observed
  observed-none none none h = refl
  observed-none none (some sc) h = absurd (ground (arith, h))
  observed-none (some st) o h = absurd (ground (arith, h))

  get-observe_tag :
      (by_tag : Dict NodeStatus) (tag : String) (scores : Dict (NodeScore F)) (k : String)
      → get (observe_tag fl by_tag tag scores) k ≡ (
          if str_eq tag k
          then observed fl (sampled (get by_tag tag)) (get scores tag)
          else get scores k)
  unfolding observe_tag
  get-observe_tag by_tag tag scores k =
      by_result (observed fl (sampled (get by_tag tag)) (get scores tag))
        (observed-none (sampled (get by_tag tag)) (get scores tag))
    where
      by_result :
          (o : Option (NodeScore F))
          → (o ≡ none → get scores tag ≡ none)
          → get (store_score fl scores tag o) k ≡ (if str_eq tag k then o else get scores k)
      by_result none h =
          if_elim (λ (x : Option (NodeScore F)). get scores k ≡ x) (str_eq tag k)
            (λ q. ap (get scores) (sym ((eq_iff tag k).0 q)) ∙ h refl) (λ _. refl)
      by_result (some sc) h = get-put scores tag k sc

  get-observe_tags :
      (by_tag : Dict NodeStatus) (ts : List String) (scores : Dict (NodeScore F)) (k : String)
      → IsOnce ts
      → get (observe_tags fl by_tag ts scores) k ≡ (
          if contains ts k
          then observed fl (sampled (get by_tag k)) (get scores k)
          else get scores k)
  unfolding observe_tags contains IsOnce
  get-observe_tags by_tag [] scores k h = refl
  get-observe_tags by_tag (t ∷ ts) scores k h =
      let rest = get-observe_tags by_tag ts (observe_tag fl by_tag t scores) k h.1 in
      let here = get-observe_tag by_tag t scores k in
      elim (Bool-cases (str_eq t k)) [
        | inl q ↦
            (let same = (eq_iff t k).0 q in
              let gone : contains ts k ≡ false = ap (contains ts) (sym same) ∙ h.0 in
              rw q (
                rest
                ∙ rw gone (
                    here
                    ∙ rw q (ap (λ x. observed fl (sampled (get by_tag x)) (get scores x)) same))))
        | inr q ↦
            (let kept : get (observe_tag fl by_tag t scores) k ≡ get scores k = here ∙ rw q refl in
              rw q (
                rest
                ∙ ap (λ x. if contains ts k then observed fl (sampled (get by_tag k)) x else x)
                    kept))
      ]

  by_loaded :
      (by_tag : Dict NodeStatus) (b : Bool) (k : String) (now before : Option (NodeScore F))
      → now ≡ (if b then at_rest before else none)
      → (if b then observed fl (sampled (get by_tag k)) now else now)
        ≡ (if b then observed fl (sampled (get by_tag k)) (at_rest before) else none)
  by_loaded by_tag true k now before h = ap (observed fl (sampled (get by_tag k))) h
  by_loaded by_tag false k now before h = h

  -- A poll, score by score. A tag that is not loaded has no score after it. One that is loaded has
  -- the score from before with the flag wentDown reset, and where the poll counts, this poll folded
  -- in once. The poll counts unless it had pings and nothing was alive.
  pub get-observe_scores :
      (slots : List Slot) (by_tag : Dict NodeStatus) (scores : Dict (NodeScore F)) (k : String)
      → get (observe_scores fl slots by_tag scores).0 k ≡ (
          if contains (loaded_tags slots) k
          then (if uplink_down by_tag slots
              then at_rest (get scores k)
              else observed fl (sampled (get by_tag k)) (at_rest (get scores k)))
          else none)
  unfolding observe_scores
  get-observe_scores slots by_tag scores k =
      let loaded = loaded_tags slots in
      let kept = rest_scores fl (keep_if (λ tag sc. contains loaded tag) scores) in
      let before : get kept k ≡ (if contains loaded k then at_rest (get scores k) else none) =
        get-rest_scores (keep_if (λ tag sc. contains loaded tag) scores) k
        ∙ ap at_rest (get-keep_if_key (contains loaded) scores k)
        ∙ at_rest_if (contains loaded k) (get scores k) in
      elim (Bool-cases (uplink_down by_tag slots)) [
        | inl q ↦ rw q before
        | inr q ↦ rw q (
            get-observe_tags by_tag (once loaded) kept k (once-IsOnce loaded)
            ∙ ap (λ b. if b then observed fl (sampled (get by_tag k)) (get kept k) else get kept k)
                (contains-once loaded k)
            ∙ by_loaded by_tag (contains loaded k) k (get kept k) (get scores k) before)
      ]
