-- ===== src/Daemon/Dialers/Proposals.antt =====
-- What the first loop of EntryBulkDialer of daemon/server_methods.go has noted of each name.
use em_xray.Daemon.Dialers.Rows.{apply_writes, apply_writes-append}
use em_xray.Xray.Store.{Database, KeepsEntries, set_dialer}
use em_xray.Daemon.Dialers.{
  BulkPlan, Change, writes_of, XrayEntry, listed, no_bulk_plan, propose_all, propose,
  canonical_dialer, add_proposal,
}
use mathlib.Core.Path.{subst}
use em_xray.Prelude.{
  ℕ, List, [], ◌∷◌, String, some, none, true, false, Option, if◌then◌else◌, str_eq, Dict, get, ◌≡◌,
  ◌++◌, ◌⊎◌, arith, ap, inl, put, ◌==◌, refl, Bool-cases, ◌∙◌, get-put, sym, inr, eq_iff, if_elim,
  Option-cases,
}

-- The change of the entry with a name.
unfoldable pub find_change : String → List Change → Option Change
find_change n [] = none
find_change n (c ∷ cs) =
    let rest = find_change n cs in if str_eq c.entry.name n then some c else rest

find_change-append :
    (n : String) (cs : List Change) (c : Change)
    → str_eq c.entry.name n ≡ false
    → find_change n (cs ++ (c ∷ [])) ≡ find_change n cs
unfolding find_change
find_change-append n [] c h = rw h refl
find_change-append n (b ∷ cs) c h = ground (arith, find_change-append n cs c h)

find_change-last :
    (n : String) (cs : List Change) (c : Change)
    → str_eq c.entry.name n ≡ true
    → find_change n cs ≡ none
    → find_change n (cs ++ (c ∷ [])) ≡ some c
unfolding find_change
find_change-last n [] c h k = rw h refl
find_change-last n (b ∷ cs) c h k = ground (arith, find_change-last n cs c h, k)

writes_of-append :
    (cs : List Change) (c : Change)
    → writes_of (cs ++ (c ∷ [])) ≡ writes_of cs ++ ((c.entry.id, c.dialer) ∷ [])
writes_of-append [] c = refl
writes_of-append (b ∷ cs) c = ap (λ ws. (b.entry.id, b.dialer) ∷ ws) (writes_of-append cs c)

set_dialer_other :
    (id : ℕ) (d : String) (e : XrayEntry) → (e.id == id) ≡ false → set_dialer id d e ≡ e
set_dialer_other id d e h = rw h refl

set_dialer_own : (d : String) (e : XrayEntry) → set_dialer e.id d e ≡ record e { dialer = d }
set_dialer_own d e = let own : (e.id == e.id) ≡ true = ground arith in rw own refl

module _ {S : Type 0} (db : Database S) (s : S) where
  -- No item is about the entry of the name.
  abbrev Untouched : String → List Change → Dict String → List ℕ → Type 0
  Untouched n changes proposed seen =
      (get proposed n ≡ none)
      × (find_change n changes ≡ none)
      × ((e : XrayEntry)
          → db.first_entry_named n s ≡ some e
          → apply_writes (writes_of changes) e ≡ e)

  -- An item proposes what is stored.
  abbrev Kept : String → List Change → Dict String → List ℕ → Type 0
  Kept n changes proposed seen =
      (e : XrayEntry) × (db.first_entry_named n s ≡ some e)
      × (listed seen e.id ≡ true)
      × (get proposed n ≡ some e.dialer)
      × (find_change n changes ≡ none)
      × (apply_writes (writes_of changes) e ≡ e)

  -- An item proposes another dialer.
  abbrev Changed : String → List Change → Dict String → List ℕ → Type 0
  Changed n changes proposed seen =
      (e : XrayEntry) × (d : String) × (db.first_entry_named n s ≡ some e)
      × (listed seen e.id ≡ true)
      × (get proposed n ≡ some d)
      × (find_change n changes ≡ some (record { entry = e; dialer = d }))
      × (apply_writes (writes_of changes) e ≡ record e { dialer = d })

  abbrev NotedIn : String → List Change → Dict String → List ℕ → Type 0
  NotedIn n changes proposed seen =
      Untouched n changes proposed seen
      ⊎ Kept n changes proposed seen
      ⊎ Changed n changes proposed seen

  abbrev pub Noted : String → BulkPlan → Type 0
  Noted n plan = NotedIn n plan.changes plan.proposed plan.seen

  Noted-no_bulk_plan : (n : String) → Noted n no_bulk_plan
  unfolding get find_change apply_writes
  Noted-no_bulk_plan n = inl (refl, refl, λ e h. refl)

  module _ (keeps : KeepsEntries db) (n : String) (id : ℕ) (e0 : XrayEntry) (d : String)
      (changes : List Change) (proposed : Dict String) (seen : List ℕ)
      (found : db.first_entry id s ≡ some e0) (new : listed seen id ≡ false) where
    abbrev change : Change
    change = record { entry = e0; dialer = d }

    -- An item's own name was not touched before.
    was-Untouched :
        db.first_entry_named n s ≡ some e0
        → e0.id ≡ id
        → NotedIn n changes proposed seen
        → Untouched n changes proposed seen
    was-Untouched row own (inl u) = u
    was-Untouched row own (inr (inl (e, row', in_seen, g, f, a))) =
        let same : some e ≡ some e0 = sym row' ∙ row in
        absurd (ground (arith, same, own, in_seen, new))
    was-Untouched row own (inr (inr (e, c, row', in_seen, g, f, a))) =
        let same : some e ≡ some e0 = sym row' ∙ row in
        absurd (ground (arith, same, own, in_seen, new))

    Noted-own_name :
        str_eq e0.name n ≡ true
        → NotedIn n changes proposed seen
        → NotedIn n
            (if str_eq d e0.dialer then changes else changes ++ (change ∷ []))
            (put proposed e0.name d)
            (id ∷ seen)
    unfolding listed apply_writes
    Noted-own_name named noted =
        let (own, row0) = keeps.by_id s id e0 found in
        let row : db.first_entry_named n s ≡ some e0 =
          subst (λ i. db.first_entry_named i s ≡ some e0) ((eq_iff e0.name n).0 named) row0 in
        let (g, f, a) = was-Untouched row own noted in
        let now : get (put proposed e0.name d) n ≡ some d =
          rw (get-put proposed e0.name n d, named) refl in
        let in_seen : listed (id ∷ seen) e0.id ≡ true = ground (arith, own) in
        if_elim (λ (cs : List Change). NotedIn n cs (put proposed e0.name d) (id ∷ seen))
          (str_eq d e0.dialer)
          (λ q. inr (inl (e0, row, in_seen, now ∙ ap some ((eq_iff d e0.dialer).0 q), f, a e0 row)))
          (λ q. inr (
            inr (
              e0,
              d,
              row,
              in_seen,
              now,
              find_change-last n changes change named f,
              ap (λ ws. apply_writes ws e0) (writes_of-append changes change)
                  ∙ apply_writes-append (writes_of changes) ((e0.id, d) ∷ []) e0
                  ∙ ap (set_dialer e0.id d) (a e0 row)
                  ∙ set_dialer_own d e0,
            )))

    other_id :
        (e : XrayEntry)
        → str_eq e0.name n ≡ false
        → db.first_entry_named n s ≡ some e
        → (e.id == id) ≡ false
    other_id e other row = elim (Bool-cases (e.id == id)) [
      | inl q ↦
          (let (named, again) = keeps.by_name s n e row in
            let here : e.id ≡ id = ground (arith, q) in
            let twice : some e ≡ some e0 = sym again ∙ ap (λ i. db.first_entry i s) here ∙ found in
            absurd (ground (arith, twice, named, other, eq_iff e0.name n)))
      | inr q ↦ q
    ]

    apply_other :
        (e x : XrayEntry)
        → str_eq e0.name n ≡ false
        → db.first_entry_named n s ≡ some e
        → x.id ≡ e.id
        → apply_writes (writes_of changes) e ≡ x
        → apply_writes (writes_of (changes ++ (change ∷ []))) e ≡ x
    unfolding apply_writes
    apply_other e x other row same_id h =
        let oid = other_id e other row in
        rw (writes_of-append changes change) (
          apply_writes-append (writes_of changes) ((e0.id, d) ∷ []) e
          ∙ ap (set_dialer e0.id d) h
          ∙ set_dialer_other e0.id d x (rw (same_id, (keeps.by_id s id e0 found).0) oid))

    Noted-other_name :
        str_eq e0.name n ≡ false
        → (more : List Change) → (find_change n more ≡ find_change n changes)
        → ((e x : XrayEntry)
            → db.first_entry_named n s ≡ some e
            → x.id ≡ e.id
            → apply_writes (writes_of changes) e ≡ x
            → apply_writes (writes_of more) e ≡ x)
        → NotedIn n changes proposed seen
        → NotedIn n more (put proposed e0.name d) (id ∷ seen)
    unfolding listed
    Noted-other_name other more finds applies noted =
        let kept : get (put proposed e0.name d) n ≡ get proposed n =
          rw (get-put proposed e0.name n d, other) refl in
        elim noted [
          | inl (g, f, a) ↦ inl (kept ∙ g, finds ∙ f, λ e row. applies e e row refl (a e row))
          | inr (inl (e, row, in_seen, g, f, a)) ↦
              inr
                (inl (e, row, ground (arith, in_seen), kept ∙ g, finds ∙ f, applies e e row refl a))
          | inr (inr (e, c, row, in_seen, g, f, a)) ↦ inr (
              inr (
                e,
                c,
                row,
                ground (arith, in_seen),
                kept ∙ g,
                finds ∙ f,
                applies e (record e { dialer = c }) row refl a,
              ))
        ]

    Noted-add_proposal :
        NotedIn n changes proposed seen
        → NotedIn n
            (if str_eq d e0.dialer then changes else changes ++ (change ∷ []))
            (put proposed e0.name d)
            (id ∷ seen)
    Noted-add_proposal noted = elim (Bool-cases (str_eq e0.name n)) [
      | inl named ↦ Noted-own_name named noted
      | inr other ↦
          if_elim (λ (cs : List Change). NotedIn n cs (put proposed e0.name d) (id ∷ seen))
            (str_eq d e0.dialer)
            (λ q. Noted-other_name other changes refl (λ e x row same h. h) noted)
            (λ q.
              Noted-other_name other (changes ++ (change ∷ []))
                (find_change-append n changes change other)
                (λ e x row same h. apply_other e x other row same h) noted)
    ]

  Noted-propose_all :
      KeepsEntries db
      → (n : String) (items : List (ℕ × String)) (plan plan' : BulkPlan)
      → propose_all db s items plan ≡ some plan'
      → Noted n plan
      → Noted n plan'
  unfolding propose_all propose
  Noted-propose_all keeps n [] plan plan' h noted = subst (Noted n) (ground (arith, h)) noted
  Noted-propose_all keeps n ((id, dialer) ∷ items) plan plan' h noted =
      elim (Bool-cases (listed plan.seen id)) [
        | inl q ↦ absurd (ground (arith, h, q))
        | inr new ↦ elim (Option-cases (db.first_entry id s)) [
          | inl q ↦ absurd (ground (arith, h, new, q))
          | inr (e0, found) ↦ elim (Option-cases (canonical_dialer dialer)) [
            | inl q ↦ absurd (ground (arith, h, new, found, q))
            | inr (d, canonical) ↦
                Noted-propose_all keeps n items (add_proposal id e0 d plan) plan'
                  (rw (new, found, canonical, propose, propose_all) at h)
                  (Noted-add_proposal keeps n id e0 d plan.changes plan.proposed plan.seen found new
                    noted)
          ]
        ]
      ]

  -- What is noted of a name once the loop is through.
  pub Noted-plan :
      KeepsEntries db
      → (n : String) (items : List (ℕ × String)) (plan : BulkPlan)
      → propose_all db s items no_bulk_plan ≡ some plan
      → Noted n plan
  Noted-plan keeps n items plan h =
      Noted-propose_all keeps n items no_bulk_plan plan h (Noted-no_bulk_plan n)
