-- ===== src/Daemon/Dialers/Rows.antt =====
-- What SetEntryDialers of core/xray/store.go does to the rows of the entries.
use em_xray.Xray.Dialer.{XrayEntry}
use em_xray.Xray.Store.{Database, KeepsEntries, set_entry_dialers, set_dialer, set_dialer_of}
use em_xray.Prelude.{
  ℕ, List, [], ◌∷◌, String, some, none, Option, ◌++◌, ◌≡◌, arith, refl, ap, sym, ◌∙◌, Option-cases,
  inl, inr,
}

-- The updates one after the other, on one row.
unfoldable pub apply_writes : List (ℕ × String) → XrayEntry → XrayEntry
apply_writes [] e = e
apply_writes ((id, d) ∷ ws) e = apply_writes ws (set_dialer id d e)

abbrev pub apply_writes_of : List (ℕ × String) → Option XrayEntry → Option XrayEntry
apply_writes_of ws none = none
apply_writes_of ws (some e) = some (apply_writes ws e)

set_dialer-apply_writes :
    (id : ℕ) (d : String) (ws : List (ℕ × String)) (o : Option XrayEntry)
    → apply_writes_of ws (set_dialer_of id d o) ≡ apply_writes_of ((id, d) ∷ ws) o
unfolding apply_writes
set_dialer-apply_writes id d ws none = refl
set_dialer-apply_writes id d ws (some e) = refl

pub apply_writes-append :
    (ws vs : List (ℕ × String)) (e : XrayEntry)
    → apply_writes (ws ++ vs) e ≡ apply_writes vs (apply_writes ws e)
unfolding apply_writes
apply_writes-append [] vs e = refl
apply_writes-append ((id, d) ∷ ws) vs e = apply_writes-append ws vs (set_dialer id d e)

apply_writes_none : (o : Option XrayEntry) → apply_writes_of [] o ≡ o
unfolding apply_writes
apply_writes_none none = refl
apply_writes_none (some e) = refl

-- A write that goes through updates each row, whatever name it is read by.
pub rows-set_entry_dialers :
    {S : Type 0} (db : Database S)
    → KeepsEntries db
    → (ws : List (ℕ × String)) (s t : S) → set_entry_dialers db ws s ≡ some t
    → (n : String) → db.first_entry_named n t ≡ apply_writes_of ws (db.first_entry_named n s)
unfolding set_entry_dialers
rows-set_entry_dialers db keeps [] s t h n =
    let same : s ≡ t = ground (arith, h) in
    ap (db.first_entry_named n) (sym same) ∙ sym (apply_writes_none (db.first_entry_named n s))
rows-set_entry_dialers db keeps ((id, d) ∷ ws) s t h n =
    elim (Option-cases (db.update_dialer id d s)) [
      | inl e ↦ absurd (ground (arith, h, e))
      | inr (u, e) ↦
          rows-set_entry_dialers db keeps ws u t (rw (e, set_entry_dialers) at h) n
          ∙ ap (apply_writes_of ws) (keeps.updated s u id d e n)
          ∙ set_dialer-apply_writes id d ws (db.first_entry_named n s)
    ]
