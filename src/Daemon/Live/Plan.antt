-- ===== src/Daemon/Live/Plan.antt =====
-- What a plan of daemon/xray_live.go does with one tag.
use em_xray.Daemon.Live.Diff.{
  contains-count, is_key, changed, one_if, count-moved_masters, contains-moved_masters,
  contains-diff_tagged, contains-diff_keys, count-diff_keys,
}
use em_xray.Daemon.Live.{LiveConfig, live_plan, reversed, diff_tagged, moved_of, diff_keys}
use em_xray.Prelude.{
  List, String, is_some, IsKeyed, contains, count, Bool, get, ◌≡◌, true, ◌≤◌, ◌∷◌, ◌||◌, ◌+◌, arith,
  false, contains-sort, count-sort, count-append, none, str_le, [], sort, refl, ◌++◌, ◌∙◌,
  contains-append, ap, Option, sym, ℕ, ltb, some, eq_iff,
}

-- Every outbound that dials through another is an outbound: taggedObjects fills both maps.
abbrev pub DialersKnown : LiveConfig → Type 0
DialersKnown c =
    (k : String) → is_some (get c.dialer_of k) ≡ true → is_some (get c.outbounds k) ≡ true

-- No tag has two entries.
abbrev pub IsTagged : LiveConfig → Type 0
IsTagged c = IsKeyed c.outbounds × IsKeyed c.dialer_of

pub contains-rm_out :
    (old want : LiveConfig) (k : String)
    → IsTagged old
    → contains (live_plan old want).rm_out k
      ≡ (changed (get old.outbounds k) (get want.outbounds k) || contains (moved_of old want) k)
unfolding live_plan diff_tagged
contains-rm_out old want k h =
    contains-sort str_le (sort str_le (diff_keys want.outbounds old.outbounds) ++ moved_of old want)
      k
    ∙ contains-append (sort str_le (diff_keys want.outbounds old.outbounds)) (moved_of old want) k
    ∙ ap (λ b. b || contains (moved_of old want) k)
        (contains-sort str_le (diff_keys want.outbounds old.outbounds) k
          ∙ contains-diff_keys want.outbounds old.outbounds k h.0)

pub count-add_out :
    (old want : LiveConfig) (k : String)
    → IsTagged want
    → count (is_key k) (live_plan old want).add_out
      ≡ one_if (changed (get want.outbounds k) (get old.outbounds k))
        + count (is_key k) (moved_of old want)
unfolding live_plan diff_tagged
count-add_out old want k h =
    count-sort str_le (is_key k)
      (sort str_le (diff_keys old.outbounds want.outbounds) ++ moved_of old want)
    ∙ count-append (is_key k) (sort str_le (diff_keys old.outbounds want.outbounds))
        (moved_of old want)
    ∙ ap (λ n. n + count (is_key k) (moved_of old want))
        (count-sort str_le (is_key k) (diff_keys old.outbounds want.outbounds)
          ∙ count-diff_keys old.outbounds want.outbounds k h.0)

pub contains-add_out :
    (old want : LiveConfig) (k : String)
    → IsTagged want
    → contains (live_plan old want).add_out k
      ≡ (changed (get want.outbounds k) (get old.outbounds k) || contains (moved_of old want) k)
contains-add_out old want k h =
    let n = count-add_out old want k h in
    contains-count (live_plan old want).add_out k
    ∙ ap (ltb 0) n
    ∙ (let c = contains-count (moved_of old want) k in ground arith)

pub count-reversed : (p : String → Bool) (xs : List String) → count p (reversed xs) ≡ count p xs
unfolding reversed
count-reversed p [] = refl
count-reversed p (x ∷ xs) =
    ground (arith, count-append p (reversed xs) (x ∷ []), count-reversed p xs)

-- What the plan does with one tag, from the tag's objects in the two configs: how often the tag is
-- added, and whether it is added and removed.
abbrev pub PlanAt : Option String → Option String → ℕ → Bool → Bool → Type 0
PlanAt before after times added removed =
    times ≤ 1
    × (added ≡ true → is_some after ≡ true)
    × (added ≡ true → removed ≡ false → before ≡ none)
    × (added ≡ false → removed ≡ true → after ≡ none)
    × (added ≡ false → removed ≡ false → before ≡ after)

PlanAt-facts :
    (before after : Option String) (times moves : ℕ) (added removed moved : Bool)
    → times ≡ one_if (changed after before) + moves
    → added ≡ ltb 0 times
    → moved ≡ ltb 0 moves
    → removed ≡ (changed before after || moved)
    → moves ≤ 1
    → (moved ≡ true
        → (changed before after ≡ false) × (is_some before ≡ true) × (is_some after ≡ true))
    → PlanAt before after times added removed
PlanAt-facts none none times moves added removed moved ht ha hm hr hone h =
    (ground arith, ground arith, ground arith, ground arith, ground arith)
PlanAt-facts none (some w) times moves added removed moved ht ha hm hr hone h =
    (ground arith, ground arith, ground arith, ground arith, ground arith)
PlanAt-facts (some o) none times moves added removed moved ht ha hm hr hone h =
    (ground arith, ground arith, ground arith, ground arith, ground arith)
PlanAt-facts (some o) (some w) times moves added removed moved ht ha hm hr hone h =
    let e1 = eq_iff o w in
    let e2 = eq_iff w o in (ground arith, ground arith, ground arith, ground arith, ground arith)

pub plan_at :
    (old want : LiveConfig) (k : String)
    → IsTagged old
    → IsTagged want
    → DialersKnown want
    → PlanAt
        (get old.outbounds k)
        (get want.outbounds k)
        (count (is_key k) (live_plan old want).add_out)
        (contains (live_plan old want).add_out k)
        (contains (live_plan old want).rm_out k)
plan_at old want k ho hw known =
    let gone = (diff_tagged old.outbounds want.outbounds).0 in
    let few = count-moved_masters gone old.outbounds want.dialer_of k hw.1 in
    PlanAt-facts (get old.outbounds k) (get want.outbounds k) _ _ _ _ _
      (count-add_out old want k hw) (contains-count (live_plan old want).add_out k)
      (contains-count (moved_of old want) k) (contains-rm_out old want k ho) (ground arith)
      (λ yes.
        (let m = contains-moved_masters gone old.outbounds want.dialer_of k yes in
          (
            sym (contains-diff_tagged old.outbounds want.outbounds k ho.0 hw.0).0 ∙ m.0,
            m.1,
            known k m.2,
          )))
