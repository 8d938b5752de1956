-- ===== src/Daemon/Dialers/Acyclic.antt =====
-- EntryBulkDialer of daemon/server_methods.go keeps the dialers free of cycles.
use em_xray.Daemon.Dialers.Rows.{apply_writes_of, rows-set_entry_dialers}
use em_xray.Xray.Dialer.Cycle.Sound.{detect_dialer_cycle_sound}
use em_xray.Daemon.Dialers.Proposals.{Noted, find_change, Noted-plan}
use em_xray.Xray.Dialer.Cycle.{lookup_dialer, has_cycle, bad_dialer, out_of_fuel}
use em_xray.Xray.Dialer.Cycle.Route.{RunsIntoCycle}
use mathlib.Core.Path.{subst, fun_ext}
use em_xray.Daemon.Dialers.{
  BulkPlan, Change, normalize_name, CycleCheck, allows_changes, allows_change, entry_bulk_dialer,
  passes, validate_dialer_with, dialer_of, no_cycle, detect_dialer_cycle, propose_all, parse_dialer,
  no_bulk_plan, dialer_field, set_entry_dialers, writes_of,
}
use em_xray.Xray.Store.{get_entry_by_name, Database, KeepsEntries}
use em_xray.Daemon.Dialers.Routes.{IsAcyclic, IsAcyclic-split, IsAcyclic-agree}
use em_xray.Prelude.{
  ℕ, List, [], ◌∷◌, String, some, none, true, false, Bool, Option, ◌≡◌, sym, ap, inl, Bool-cases,
  inr, refl, arith, is_some, Dict, get, ◌∙◌, Option-cases, str_eq, eq_iff,
}

passes-no_cycle : (c : CycleCheck) → passes c ≡ true → c ≡ no_cycle
passes-no_cycle no_cycle h = refl
passes-no_cycle bad_dialer h = absurd (ground arith)
passes-no_cycle out_of_fuel h = absurd (ground arith)
passes-no_cycle (has_cycle x) h = absurd (ground arith)

dialer_of-proposed :
    {S : Type 0} (db : Database S) (protocol_of : String → Option String) (proposed : Dict String)
    (s : S) (n : String) (d : String)
    → get proposed (normalize_name n) ≡ some d
    → dialer_of db protocol_of proposed s n ≡ some d
unfolding dialer_of
dialer_of-proposed db protocol_of proposed s n d h = rw (h, dialer_of) refl

dialer_of-stored :
    {S : Type 0} (db : Database S) (protocol_of : String → Option String) (proposed : Dict String)
    (s : S) (n : String)
    → get proposed (normalize_name n) ≡ none
    → dialer_of db protocol_of proposed s n
      ≡ dialer_field (db.first_entry_named (normalize_name n) s)
unfolding dialer_of get_entry_by_name
dialer_of-stored db protocol_of proposed s n h = rw (h, dialer_of) refl

module _ {S : Type 0} (db : Database S) (protocol_of : String → Option String) (fuel : ℕ)
    (keeps : KeepsEntries db) (s : S) where
  allows_changes-find_change :
      (proposed : Dict String) (n : String) (cs : List Change) (c : Change)
      → allows_changes db protocol_of fuel proposed s cs ≡ true
      → find_change n cs ≡ some c
      → allows_change db protocol_of fuel proposed s c ≡ true
  unfolding allows_changes find_change
  allows_changes-find_change proposed n [] c h f = absurd (ground arith)
  allows_changes-find_change proposed n (b ∷ cs) c h f = elim (Bool-cases (str_eq b.entry.name n)) [
    | inl q ↦
        (let same : b ≡ c = ground (arith, f, q) in
          subst (λ x. allows_change db protocol_of fuel proposed s x ≡ true) same
            (ground (arith, h)))
    | inr q ↦ allows_changes-find_change proposed n cs c (ground (arith, h)) (ground (arith, f, q))
  ]

  allows_change-no_cycle :
      (proposed : Dict String) (c : Change)
      → allows_change db protocol_of fuel proposed s c ≡ true
      → detect_dialer_cycle fuel c.entry.name c.dialer (dialer_of db protocol_of proposed s)
        ≡ no_cycle
  unfolding allows_change validate_dialer_with
  allows_change-no_cycle proposed c h = elim (Option-cases (parse_dialer c.dialer)) [
    | inl q ↦ absurd (ground (arith, h, q))
    | inr (refs, q) ↦
        passes-no_cycle
          (detect_dialer_cycle fuel c.entry.name c.dialer (dialer_of db protocol_of proposed s))
          (ground (arith, h, q))
  ]

  lookup-proposed :
      (proposed : Dict String) (n d : String)
      → get proposed n ≡ some d
      → lookup_dialer n d (dialer_of db protocol_of proposed s)
        ≡ dialer_of db protocol_of proposed s
  unfolding lookup_dialer dialer_of
  lookup-proposed proposed n d h = fun_ext λ x. elim (Bool-cases (str_eq (normalize_name x) n)) [
    | inl q ↦ rw q (
        sym (
          dialer_of-proposed db protocol_of proposed s x d
            (ap (get proposed) ((eq_iff (normalize_name x) n).0 q) ∙ h)))
    | inr q ↦ rw q refl
  ]

  module _ (plan : BulkPlan) (noted : (n : String) → Noted db s n plan) where
    abbrev marked : String → Bool
    marked n = is_some (find_change n plan.changes)

    agrees-unmarked :
        (n : String)
        → normalize_name n ≡ n
        → marked n ≡ false
        → dialer_of db protocol_of plan.proposed s n ≡ dialer_of db protocol_of [] s n
    unfolding get
    agrees-unmarked n normal off = elim (noted n) [
      | inl (g, f, a) ↦
          dialer_of-stored db protocol_of plan.proposed s n (ap (get plan.proposed) normal ∙ g)
          ∙ sym (dialer_of-stored db protocol_of [] s n refl)
      | inr (inl (e, row, in_seen, g, f, a)) ↦
          dialer_of-proposed db protocol_of plan.proposed s n e.dialer
            (ap (get plan.proposed) normal ∙ g)
          ∙ sym (
              dialer_of-stored db protocol_of [] s n refl
              ∙ ap (λ m. dialer_field (db.first_entry_named m s)) normal
              ∙ ap dialer_field row)
      | inr (inr (e, d, row, in_seen, g, f, a)) ↦ absurd (ground (arith, off, f))
    ]

    by_plan :
        (n : String)
        → normalize_name n ≡ n
        → dialer_of db protocol_of plan.proposed s n
          ≡ dialer_field (apply_writes_of (writes_of plan.changes) (db.first_entry_named n s))
    by_plan n normal = elim (noted n) [
      | inl (g, f, a) ↦
          dialer_of-stored db protocol_of plan.proposed s n (ap (get plan.proposed) normal ∙ g)
          ∙ ap (λ m. dialer_field (db.first_entry_named m s)) normal
          ∙ (elim (Option-cases (db.first_entry_named n s)) [
            | inl row ↦ rw row refl
            | inr (e, row) ↦ rw (row, a e row) refl
          ])
      | inr (inl (e, row, in_seen, g, f, a)) ↦
          dialer_of-proposed db protocol_of plan.proposed s n e.dialer
            (ap (get plan.proposed) normal ∙ g)
          ∙ rw (row, a) refl
      | inr (inr (e, d, row, in_seen, g, f, a)) ↦
          dialer_of-proposed db protocol_of plan.proposed s n d (ap (get plan.proposed) normal ∙ g)
          ∙ rw (row, a) refl
    ]

    agrees_after :
        (t : S)
        → set_entry_dialers db (writes_of plan.changes) s ≡ some t
        → (n : String) → normalize_name n ≡ n
        → dialer_of db protocol_of [] t n ≡ dialer_of db protocol_of plan.proposed s n
    unfolding get
    agrees_after t written n normal =
        let ws = writes_of plan.changes in
        let now : dialer_of db protocol_of [] t n
            ≡ dialer_field (apply_writes_of ws (db.first_entry_named n s)) =
          dialer_of-stored db protocol_of [] t n refl
          ∙ ap (λ m. dialer_field (db.first_entry_named m t)) normal
          ∙ ap dialer_field (rows-set_entry_dialers db keeps ws s t written n) in
        now ∙ sym (by_plan n normal)

    marked_clean :
        allows_changes db protocol_of fuel plan.proposed s plan.changes ≡ true
        → (n : String) → normalize_name n ≡ n
        → marked n ≡ true
        → ¬ RunsIntoCycle (dialer_of db protocol_of plan.proposed s) n
    marked_clean allowed n normal on = elim (noted n) [
      | inl (g, f, a) ↦ absurd (ground (arith, on, f))
      | inr (inl (e, row, in_seen, g, f, a)) ↦ absurd (ground (arith, on, f))
      | inr (inr (e, d, row, in_seen, g, f, a)) ↦
          (let c : Change = record { entry = e; dialer = d } in
            let look = dialer_of db protocol_of plan.proposed s in
            let checked =
              allows_change-no_cycle plan.proposed c
                (allows_changes-find_change plan.proposed n plan.changes c allowed f) in
            let named : normalize_name e.name ≡ n =
              ap normalize_name (keeps.by_name s n e row).0 ∙ normal in
            let clean = detect_dialer_cycle_sound fuel e.name d look checked in
            subst (λ l. ¬ RunsIntoCycle l n) (lookup-proposed plan.proposed n d g)
              (subst (λ x. ¬ RunsIntoCycle (lookup_dialer x d look) x) named clean))
    ]

-- Setting the dialers of several entries at once keeps the stored dialers free of cycles: where no
-- entry dials through itself before a call that is written, none does after it. The database keeps one
-- row for an id and for a name, and updates the rows that an update names.
pub entry_bulk_dialer-IsAcyclic :
    {S : Type 0} (db : Database S) (protocol_of : String → Option String)
    → KeepsEntries db
    → (fuel : ℕ) (items : List (ℕ × String)) (s t : S) → IsAcyclic (dialer_of db protocol_of [] s)
    → entry_bulk_dialer db protocol_of fuel items s ≡ some t
    → IsAcyclic (dialer_of db protocol_of [] t)
unfolding entry_bulk_dialer
entry_bulk_dialer-IsAcyclic db protocol_of keeps fuel items s t before h =
    elim (Option-cases (propose_all db s items no_bulk_plan)) [
      | inl q ↦ absurd (ground (arith, h, q))
      | inr (plan, q) ↦
          elim (Bool-cases (allows_changes db protocol_of fuel plan.proposed s plan.changes)) [
            | inl ok ↦
                (let noted : (n : String) → Noted db s n plan =
                    λ n. Noted-plan db s keeps n items plan q in
                  let written = rw (q, ok, entry_bulk_dialer) at h in
                  let after = agrees_after db protocol_of fuel keeps s plan noted t written in
                  let middle =
                    IsAcyclic-split (dialer_of db protocol_of plan.proposed s)
                      (dialer_of db protocol_of [] s) (λ n. is_some (find_change n plan.changes))
                      (agrees-unmarked db protocol_of fuel keeps s plan noted)
                      (λ c nc on. marked_clean db protocol_of fuel keeps s plan noted ok c nc on)
                      before in
                  IsAcyclic-agree (dialer_of db protocol_of [] t)
                    (dialer_of db protocol_of plan.proposed s) after middle)
            | inr ok ↦ absurd (ground (arith, h, q, ok))
          ]
    ]
