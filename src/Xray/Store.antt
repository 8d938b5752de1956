-- ===== src/Xray/Store.antt =====
-- The entries of core/xray/store.go behind gorm. The database is not the repository's code: it is the
-- record Database, whose fields are the statements that the store sends; `none` is an error. What the
-- store relies on (one row for an id, one row for a name, an update of one column) is the record
-- KeepsEntries.
use em_xray.Xray.Names.{normalize_name}
use em_xray.Xray.Ports.{Inbound}
use em_xray.Xray.Dialer.{XrayEntry}
use em_xray.Prelude.{
  ℕ, List, [], ◌∷◌, String, some, none, Bool, Option, if◌then◌else◌, ◌==◌, ◌≡◌, is_some,
}

pub record Database (S : Type 0) : Type 0 where
  -- First(&e, id) and Where("name = ?", name).First(&e)
  pub first_entry : ℕ → S → Option XrayEntry
  pub first_entry_named : String → S → Option XrayEntry
  -- Where("name = ?", name).First(&sub)
  pub has_subscription_named : String → S → Bool
  -- Find(&ins)
  pub find_inbounds : S → Option (List Inbound)
  -- Model(&XrayEntry{}).Where("id = ?", id).Update("dialer", d)
  pub update_dialer : ℕ → String → S → Option S

-- What an update of the column `dialer` does to a row.
abbrev pub set_dialer : ℕ → String → XrayEntry → XrayEntry
set_dialer id d e = if e.id == id then record e { dialer = d } else e

abbrev pub set_dialer_of : ℕ → String → Option XrayEntry → Option XrayEntry
set_dialer_of id d none = none
set_dialer_of id d (some e) = some (set_dialer id d e)

pub record KeepsEntries {S : Type 0} (db : Database S) : Type 0 where
  pub by_id :
      (s : S) (id : ℕ) (e : XrayEntry)
      → db.first_entry id s ≡ some e
      → (e.id ≡ id) × (db.first_entry_named e.name s ≡ some e)
  pub by_name :
      (s : S) (n : String) (e : XrayEntry)
      → db.first_entry_named n s ≡ some e
      → (e.name ≡ n) × (db.first_entry e.id s ≡ some e)
  pub updated :
      (s t : S) (id : ℕ) (d : String)
      → db.update_dialer id d s ≡ some t
      → (n : String) → db.first_entry_named n t ≡ set_dialer_of id d (db.first_entry_named n s)

module _ {S : Type 0} (db : Database S) where
  -- Store.GetEntryByName
  unfoldable pub get_entry_by_name : String → S → Option XrayEntry
  get_entry_by_name name s = db.first_entry_named (normalize_name name) s

  -- Store.NamesExist: the names that are missing
  unfoldable pub names_exist : List String → S → List String
  names_exist [] s = []
  names_exist (n ∷ ns) s =
      let missing = names_exist ns s in
      if is_some (get_entry_by_name n s) then missing else n ∷ missing

  -- Store.SubNamesExist
  unfoldable pub sub_names_exist : List String → S → List String
  sub_names_exist [] s = []
  sub_names_exist (n ∷ ns) s =
      let missing = sub_names_exist ns s in
      if db.has_subscription_named (normalize_name n) s then missing else n ∷ missing

  -- Store.SetEntryDialers, with the map as a list in the order of its `range`; an error rolls all
  -- updates back
  unfoldable pub set_entry_dialers : List (ℕ × String) → S → Option S
  set_entry_dialers [] s = some s
  set_entry_dialers ((id, d) ∷ rest) s = elim (db.update_dialer id d s) [
    | none ↦ none
    | some t ↦ set_entry_dialers rest t
  ]
