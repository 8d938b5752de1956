-- ===== src/Daemon/Live/NoLeak/Facts.antt =====
-- What the live plans of daemon/xray_live.go say of the masters and the dialers of two configs that
-- follow each other.
use em_xray.Daemon.Live.Masters.{live_plan-moves_masters}
use em_xray.Daemon.Live.Diff.{is_key, changed}
use em_xray.Daemon.Live.NoLeak.Merge.{
  names, names-merge_dialers, names-dial, moved_masters-names, get-text_at,
}
use em_xray.Daemon.Live.Plan.{
  IsTagged, PlanAt, DialersKnown, plan_at, contains-rm_out, contains-add_out,
}
use em_xray.Daemon.Live.{LiveConfig, LivePlan, is_dependent, live_plan, text_at, diff_tagged}
use em_xray.Prelude.{
  String, some, true, false, Bool, get, not, ◌≡◌, count, str_eq, ◌||◌, contains, is_some, ◌∙◌,
  arith, Option-cases, inl, inr, Bool-cases, ap, eq_iff,
}

-- A config that generation can give. `dial o` is the tag that the outbound o dials through, "" for
-- none: the config has the same in its map of dialers, what is dialed through is an outbound of the
-- config, and no tag has two entries.
pub record IsClosed (dial : String → String) (c : LiveConfig) : Type 0 where
  pub tagged : IsTagged c
  pub dials : (k o : String) → get c.outbounds k ≡ some o → text_at c.dialer_of k ≡ dial o
  pub dialers : DialersKnown c
  pub closed :
      (k o : String)
      → get c.outbounds k ≡ some o
      → str_eq (dial o) "" ≡ false
      → is_some (get c.outbounds (dial o)) ≡ true

-- Two configs that follow each other: what is dialed through in either dials through nothing in either,
-- and a dialer that stays keeps its masters.
pub record AreLinked (dial : String → String) (old want : LiveConfig) : Type 0 where
  pub flat_old :
      (k o : String)
      → get old.outbounds k ≡ some o
      → str_eq (dial o) "" ≡ false
      → (names old.dialer_of (dial o) || names want.dialer_of (dial o)) ≡ false
  pub flat_want :
      (k o : String)
      → get want.outbounds k ≡ some o
      → str_eq (dial o) "" ≡ false
      → (names old.dialer_of (dial o) || names want.dialer_of (dial o)) ≡ false
  pub owned :
      (k o : String)
      → get old.outbounds k ≡ some o
      → str_eq (dial o) "" ≡ false
      → is_some (get want.outbounds (dial o)) ≡ true
      → is_some (get want.outbounds k) ≡ true

module _ (dial : String → String) (old want : LiveConfig) (ho : IsClosed dial old)
    (hw : IsClosed dial want) (linked : AreLinked dial old want) where
  abbrev pub plan : LivePlan
  plan = live_plan old want

  abbrev pub dep : String → Bool
  dep = is_dependent plan

  abbrev pub plain : String → Bool
  plain t = not (is_dependent plan t)

  abbrev pub rm : String → Bool
  rm = contains plan.rm_out

  abbrev pub add : String → Bool
  add = contains plan.add_out

  pub dep-names : (k : String) → dep k ≡ (names old.dialer_of k || names want.dialer_of k)
  unfolding is_dependent live_plan names
  dep-names k = names-merge_dialers old.dialer_of want.dialer_of k hw.tagged.1

  pub at :
      (k : String)
      → PlanAt
          (get old.outbounds k)
          (get want.outbounds k)
          (count (is_key k) plan.add_out)
          (add k)
          (rm k)
  at k = plan_at old want k ho.tagged hw.tagged hw.dialers

  -- What dials through another is a dependent, and what is dialed through is not.
  pub old_dep :
      (k o : String) → get old.outbounds k ≡ some o → str_eq (dial o) "" ≡ false → dep k ≡ true
  old_dep k o e named =
      let n = names-dial old.dialer_of k (dial o) (ho.dials k o e) named in
      dep-names k ∙ ground (arith, n)

  pub want_dep :
      (k o : String) → get want.outbounds k ≡ some o → str_eq (dial o) "" ≡ false → dep k ≡ true
  want_dep k o e named =
      let n = names-dial want.dialer_of k (dial o) (hw.dials k o e) named in
      dep-names k ∙ ground (arith, n)

  pub old_dialed :
      (k o : String)
      → get old.outbounds k ≡ some o
      → str_eq (dial o) "" ≡ false
      → dep (dial o) ≡ false
  old_dialed k o e named = dep-names (dial o) ∙ linked.flat_old k o e named

  pub want_dialed :
      (k o : String)
      → get want.outbounds k ≡ some o
      → str_eq (dial o) "" ≡ false
      → dep (dial o) ≡ false
  want_dialed k o e named = dep-names (dial o) ∙ linked.flat_want k o e named

  -- A master of a dialer that is replaced is taken out and put in with it.
  pub rides :
      (k o : String)
      → get old.outbounds k ≡ some o
      → str_eq (dial o) "" ≡ false
      → rm (dial o) ≡ true
      → add (dial o) ≡ true
      → (rm k ≡ true) × (add k ≡ true)
  rides k o e named removed added =
      let d = dial o in
      let master = linked.owned k o e named ((at d).1 added) in
      elim (Option-cases (get want.outbounds k)) [
        | inl none_left ↦ absurd (ground (arith, none_left, master))
        | inr (w, here) ↦ elim (Bool-cases (str_eq w o)) [
          | inl same ↦
              (let dialer : text_at want.dialer_of k ≡ d =
                  hw.dials k w here ∙ ap dial ((eq_iff w o).0 same) in
                let flat = linked.flat_old k o e named in
                let moved =
                  moved_masters-names (diff_tagged old.outbounds want.outbounds).0 old.outbounds
                    want.dialer_of d hw.tagged.1 in
                let why = contains-rm_out old want d ho.tagged in
                let replaced : changed (get old.outbounds d) (get want.outbounds d) ≡ true =
                  ground (arith, flat, moved, why, removed) in
                live_plan-moves_masters old want k d o w ho.tagged hw.tagged
                  (get-text_at want.dialer_of k d dialer named) named replaced e here)
          | inr other ↦
              (let r = contains-rm_out old want k ho.tagged in
                let a = contains-add_out old want k hw.tagged in
                let apart : str_eq o w ≡ false = ground (arith, other, eq_iff o w, eq_iff w o) in
                (ground (arith, r, e, here, other), ground (arith, a, e, here, apart)))
        ]
      ]
