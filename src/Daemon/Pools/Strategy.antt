-- ===== src/Daemon/Pools/Strategy.antt =====
-- poolStrategy and poolPins of daemon/xray.go. The subscriptions are behind an interface, since a
-- database keeps them.
use em_xray.Xray.Dialer.{DialerRef, ref_xray_sub}
use em_xray.Daemon.Live.Diff.{one_if}
use em_xray.Xray.Slot.{strategy_manual, strategy_agile, strategy_stable}
use em_xray.Xray.Subs.Words.{effective_strategy, strategy_auto}
use em_xray.Xray.Subs.Active.{SubNode}
use em_xray.Prelude.{
  ℕ, suc, List, [], ◌∷◌, String, some, none, true, false, Bool, Option, if◌then◌else◌, str_eq, ◌≡◌,
  ltb, count, not, ◌||◌, ◌&&◌, ◌+◌, ap, arith, eq_iff, Bool-cases, ◌∙◌, inl, inr, refl,
  Option-cases, sym, if_elim,
}

-- Subscription, the fields that are read
pub record Subscription : Type 0 where
  pub id : ℕ
  pub strategy : String

-- The queries of the store; `none` is an error.
pub record SubStore : Type 0 where
  pub get_subscription_by_name : String → Option Subscription
  pub pinned_fingerprints : ℕ → Option (List String)
  pub active_nodes : ℕ → Option (List SubNode)

-- sub.EffectiveStrategy() of the subscription that a ref names, if it is a subscription's ref and
-- the store has it
unfoldable pub strategy_of : SubStore → DialerRef → Option String
strategy_of store r =
    if str_eq r.kind ref_xray_sub
    then elim (store.get_subscription_by_name r.name) [
      | some sub ↦ some (effective_strategy sub.strategy)
      | none ↦ none
    ]
    else none

-- What the loop of poolStrategy has seen: `manual` ends it.
pub record Seen : Type 0 where
  pub manual : Bool
  pub agile : Bool
  pub auto : Bool
  pub subs : ℕ

abbrev pub none_seen : Seen
none_seen = record { manual = false; agile = false; auto = false; subs = 0 }

abbrev note_strategy : String → Seen → Seen
note_strategy s seen =
    if str_eq s strategy_manual
    then record seen { manual = true }
    else if str_eq s strategy_agile
    then record seen { agile = true }
    else if str_eq s strategy_auto
    then record seen { auto = true }
    else seen

unfoldable pub note_ref : SubStore → DialerRef → Seen → Seen
note_ref store r seen =
    if str_eq r.kind ref_xray_sub
    then elim (strategy_of store r) [
      | some s ↦ note_strategy s (record seen { subs = suc seen.subs })
      | none ↦ record seen { subs = suc seen.subs }
    ]
    else seen

unfoldable pub see_refs : SubStore → List DialerRef → Seen → Seen
see_refs store [] seen = seen
see_refs store (r ∷ refs) seen =
    let now = note_ref store r seen in
    let rest = see_refs store refs now in if now.manual then now else rest

-- poolStrategy, with the classifier's verdict on the pool
unfoldable pub pool_strategy : SubStore → Bool → List DialerRef → String × Bool
pool_strategy store auto_agile refs =
    let seen = see_refs store refs none_seen in
    if seen.manual
    then (strategy_manual, false)
    else if seen.agile
    then (strategy_agile, false)
    else if not seen.auto && ltb 0 seen.subs
    then (strategy_stable, false)
    else if auto_agile
    then (strategy_agile, true)
    else (strategy_stable, true)

-- The refs of subscriptions, and those whose subscription has a given strategy.
abbrev pub is_sub_ref : DialerRef → Bool
is_sub_ref r = str_eq r.kind ref_xray_sub

unfoldable pub runs : SubStore → String → DialerRef → Bool
runs store s r = elim (strategy_of store r) [ some t ↦ str_eq t s | none ↦ false ]

-- What noting a strategy does to each field.
abbrev Notes : Seen → Bool → Bool → Bool → ℕ → Seen → Type 0
Notes seen manual agile auto subs now =
    (now.manual ≡ (seen.manual || manual))
    × (now.agile ≡ (seen.agile || agile))
    × (now.auto ≡ (seen.auto || auto))
    × (now.subs ≡ seen.subs + subs)

note_strategy-Notes :
    (s : String) (seen : Seen)
    → Notes seen
        (str_eq s strategy_manual)
        (str_eq s strategy_agile)
        (str_eq s strategy_auto)
        0
        (note_strategy s seen)
note_strategy-Notes s seen =
    let one : (a b : String) → str_eq a b ≡ false → str_eq s a ≡ true → str_eq s b ≡ false =
      λ a b apart e. ap (λ t. str_eq t b) ((eq_iff s a).0 e) ∙ apart in
    let manual_agile = one strategy_manual strategy_agile refl in
    let manual_auto = one strategy_manual strategy_auto refl in
    let agile_auto = one strategy_agile strategy_auto refl in
    (ground arith, ground arith, ground arith, ground arith)

strategy_of-other :
    (store : SubStore) (r : DialerRef) → is_sub_ref r ≡ false → strategy_of store r ≡ none
unfolding strategy_of
strategy_of-other store r e = rw (e, strategy_of) refl

runs-some :
    (store : SubStore) (r : DialerRef) (s t : String)
    → strategy_of store r ≡ some t
    → runs store s r ≡ str_eq t s
unfolding runs
runs-some store r s t e = rw (e, runs) refl

runs-none :
    (store : SubStore) (r : DialerRef) (s : String)
    → strategy_of store r ≡ none
    → runs store s r ≡ false
unfolding runs
runs-none store r s e = rw (e, runs) refl

count-cons :
    (p : DialerRef → Bool) (r : DialerRef) (refs : List DialerRef)
    → count p (r ∷ refs) ≡ one_if (p r) + count p refs
count-cons p r refs = ground arith

note_ref-Notes :
    (store : SubStore) (r : DialerRef) (seen : Seen)
    → Notes seen
        (runs store strategy_manual r)
        (runs store strategy_agile r)
        (runs store strategy_auto r)
        (one_if (is_sub_ref r))
        (note_ref store r seen)
unfolding note_ref
note_ref-Notes store r seen =
    let quiet : strategy_of store r ≡ none → (s : String) → runs store s r ≡ false =
      λ o s. runs-none store r s o in
    elim (Bool-cases (is_sub_ref r)) [
      | inr e ↦
          (let q = quiet (strategy_of-other store r e) in
            let a = q strategy_manual in
            let b = q strategy_agile in
            let c = q strategy_auto in
            rw (e, note_ref) (ground arith, ground arith, ground arith, omega arith))
      | inl e ↦ elim (Option-cases (strategy_of store r)) [
        | inl o ↦
            (let a = quiet o strategy_manual in
              let b = quiet o strategy_agile in
              let c = quiet o strategy_auto in
              rw (e, o, note_ref) (ground arith, ground arith, ground arith, omega arith))
        | inr (t, o) ↦
            (let notes = note_strategy-Notes t (record seen { subs = suc seen.subs }) in
              rw (e, o, note_ref)
                (
                  notes.0
                      ∙ ap (λ b. seen.manual || b) (sym (runs-some store r strategy_manual t o)),
                  notes.1 ∙ ap (λ b. seen.agile || b) (sym (runs-some store r strategy_agile t o)),
                  notes.2 ∙ ap (λ b. seen.auto || b) (sym (runs-some store r strategy_auto t o)),
                  omega (arith, notes.3),
                ))
      ]
    ]

-- What the loop has seen of the refs, if no manual subscription ends it.
abbrev Sees : SubStore → List DialerRef → Seen → Seen → Type 0
Sees store refs seen out =
    (out.manual ≡ ltb 0 (count (runs store strategy_manual) refs))
    × (out.manual ≡ false
        → (out.agile ≡ (seen.agile || ltb 0 (count (runs store strategy_agile) refs)))
          × (out.auto ≡ (seen.auto || ltb 0 (count (runs store strategy_auto) refs)))
          × (out.subs ≡ seen.subs + count is_sub_ref refs))

see_refs_lem :
    (store : SubStore) (refs : List DialerRef) (seen : Seen)
    → seen.manual ≡ false
    → Sees store refs seen (see_refs store refs seen)
unfolding see_refs
see_refs_lem store [] seen h = (h, λ m. (ground arith, ground arith, omega arith))
see_refs_lem store (r ∷ refs) seen h =
    let note = note_ref-Notes store r seen in
    let manual = count-cons (runs store strategy_manual) r refs in
    let agile = count-cons (runs store strategy_agile) r refs in
    let auto = count-cons (runs store strategy_auto) r refs in
    let subs = count-cons is_sub_ref r refs in
    if_elim (Sees store (r ∷ refs) seen) (note_ref store r seen).manual
      (λ e. (ground (arith, note.0, h, e, manual), λ m. absurd (ground (arith, e, m))))
      (λ e.
        (let rest = see_refs_lem store refs (note_ref store r seen) e in
          let go = rest.1 in
          (
            ground (arith, rest.0, note.0, h, manual, e),
            λ m.
                (let later = go m in
                  (
                    ground (arith, later.0, note.1, agile),
                    ground (arith, later.1, note.2, auto),
                    ground (arith, later.2, note.3, subs),
                  )),
          )))

-- Which strategy wins: manual if a subscription of the pool is manual, else agile if one is agile,
-- else stable if the pool has a subscription and none is on auto, and else what the classifier says,
-- whose choice alone is marked as such. What the store does not have counts as no strategy.
pub pool_strategy_lem :
    (store : SubStore) (auto_agile : Bool) (refs : List DialerRef)
    → pool_strategy store auto_agile refs ≡ (
        if ltb 0 (count (runs store strategy_manual) refs)
        then (strategy_manual, false)
        else if ltb 0 (count (runs store strategy_agile) refs)
        then (strategy_agile, false)
        else if not (ltb 0 (count (runs store strategy_auto) refs)) && ltb 0 (count is_sub_ref refs)
        then (strategy_stable, false)
        else if auto_agile
        then (strategy_agile, true)
        else (strategy_stable, true))
unfolding pool_strategy
pool_strategy_lem store auto_agile refs =
    let seen = see_refs_lem store refs none_seen refl in
    elim (Bool-cases (see_refs store refs none_seen).manual) [
      | inl e ↦ rw (e, sym seen.0 ∙ e) refl
      | inr e ↦
          (let rest = seen.1 e in
            let agile = rest.0 in
            let auto = rest.1 in
            let subs : (see_refs store refs none_seen).subs ≡ count is_sub_ref refs =
              omega (arith, rest.2) in
            rw (e, sym seen.0 ∙ e, agile, auto, subs) refl)
    ]
