-- ===== src/Daemon/Dialers.antt =====
-- How dialers are checked and set: validateDialerWith and EntryBulkDialer of daemon/server_methods.go,
-- with CheckMasterOutbound of core/xray/dialer.go. The reconcile that follows the write is left out.
use em_xray.Xray.Names.Target.{parse_target, kind_master}
use em_xray.Xray.Ports.{Inbound}
use em_xray.Xray.Dialer.Canonical.{canonical_dialer}
use em_xray.Xray.Dialer.Cycle.{
  CycleCheck, detect_dialer_cycle, has_cycle, no_cycle, bad_dialer, out_of_fuel,
}
use em_xray.Xray.Names.{normalize_name}
use em_xray.Daemon.Pools.Members.{check_member_outbound}
use em_xray.Xray.Store.{
  Database, get_entry_by_name, names_exist, set_entry_dialers, sub_names_exist,
}
use em_xray.Xray.Dialer.{XrayEntry, DialerRef, ref_xray, ref_xray_sub, parse_dialer, ref_proxy}
pub mod Rows
pub mod Proposals
pub mod Routes
pub mod Acyclic
use Prim.Native.Char.{code}
use em_xray.Prelude.{
  ℕ, List, [], ◌∷◌, String, some, none, true, false, Bool, Option, if◌then◌else◌, not, Dict, ◌==◌,
  leb, ◌||◌, ◌&&◌, str_eq, ◌+◌, ◌++◌, get, put,
}

-- One letter as strings.EqualFold compares it, as far as the result is ASCII: two letters from
-- outside fold to one of ASCII.
unfoldable pub fold_code : ℕ → ℕ
fold_code n =
    if leb 65 n && leb n 90 then n + 32 else if n == 383 then 115 else if n == 8490 then 107 else n

-- strings.EqualFold(s, word) for a word in lower case
unfoldable pub equal_fold : String → String → Bool
equal_fold String.[] String.[] = true
equal_fold String.[] (String.◌∷◌ d w) = false
equal_fold (String.◌∷◌ c s) String.[] = false
equal_fold (String.◌∷◌ c s) (String.◌∷◌ d w) = fold_code (code c) == code d && equal_fold s w

-- CheckMasterOutbound, whether it gives no error; `protocol` is what the JSON names
unfoldable pub check_master_outbound : Option String → Bool
check_master_outbound none = false
check_master_outbound (some protocol) = not (equal_fold protocol "hysteria")

-- A change that EntryBulkDialer is to write.
pub record Change : Type 0 where
  pub entry : XrayEntry
  pub dialer : String

-- What the first loop of EntryBulkDialer builds.
pub record BulkPlan : Type 0 where
  pub changes : List Change
  pub proposed : Dict String
  pub seen : List ℕ

unfoldable pub listed : List ℕ → ℕ → Bool
listed [] id = false
listed (i ∷ is) id = i == id || listed is id

abbrev none_missing : List String → Bool
none_missing [] = true
none_missing (x ∷ xs) = false

abbrev pub dialer_field : Option XrayEntry → Option String
dialer_field none = none
dialer_field (some e) = some e.dialer

-- Whether the cycle check gives no error.
abbrev pub passes : CycleCheck → Bool
passes no_cycle = true
passes bad_dialer = false
passes out_of_fuel = false
passes (has_cycle x) = false

abbrev pub no_bulk_plan : BulkPlan
no_bulk_plan = record { changes = []; proposed = []; seen = [] }

-- A proposal is always noted, and is a change where it differs from what is stored.
abbrev pub add_proposal : ℕ → XrayEntry → String → BulkPlan → BulkPlan
add_proposal id e d plan = record {
  changes =
      if str_eq d e.dialer
      then plan.changes
      else plan.changes ++ (record { entry = e; dialer = d } ∷ []);
  proposed = put plan.proposed e.name d;
  seen = id ∷ plan.seen;
}

-- The map `set`.
abbrev pub writes_of : List Change → List (ℕ × String)
writes_of [] = []
writes_of (c ∷ cs) = (c.entry.id, c.dialer) ∷ writes_of cs

module _ {S : Type 0} (db : Database S) where
  -- One round of the first loop of EntryBulkDialer; `none` is an error.
  unfoldable pub propose : S → ℕ × String → BulkPlan → Option BulkPlan
  propose s (id, dialer) plan = if listed plan.seen id then none else elim (db.first_entry id s) [
    | none ↦ none
    | some e ↦ elim (canonical_dialer dialer) [
      | none ↦ none
      | some d ↦ some (add_proposal id e d plan)
    ]
  ]

  unfoldable pub propose_all : S → List (ℕ × String) → BulkPlan → Option BulkPlan
  propose_all s [] plan = some plan
  propose_all s (item ∷ items) plan = elim (propose s item plan) [
    | none ↦ none
    | some plan' ↦ propose_all s items plan'
  ]

-- JSON is Go's library's, as for the pools' members.
module _ {S : Type 0} (db : Database S) (protocol_of : String → Option String) where
  -- The outbound of an entry as a pool member, where the entry can be read.
  abbrev allows_member : Option XrayEntry → Bool
  allows_member none = true
  allows_member (some e) = check_member_outbound protocol_of e.outbound

  -- Whether the ref of a dialer may stand: the body of the loop of validateDialerWith.
  unfoldable pub allows_ref : S → DialerRef → Bool
  allows_ref s r =
      if str_eq r.kind ref_xray
      then none_missing (names_exist db (r.name ∷ []) s)
        && allows_member (get_entry_by_name db r.name s)
      else if str_eq r.kind ref_xray_sub
      then none_missing (sub_names_exist db (r.name ∷ []) s)
      else not (str_eq r.kind ref_proxy)

  unfoldable pub allows_refs : S → List DialerRef → Bool
  allows_refs s [] = true
  allows_refs s (r ∷ refs) = let rest = allows_refs s refs in allows_ref s r && rest

  -- The dialer of an entry as the cycle check reads it: the proposed one, else the stored one.
  unfoldable pub dialer_of : Dict String → S → String → Option String
  dialer_of proposed s name = elim (get proposed (normalize_name name)) [
    | some d ↦ some d
    | none ↦ dialer_field (get_entry_by_name db name s)
  ]

  -- validateDialerWith, whether it gives no error; the fuel is that of the cycle check
  unfoldable pub validate_dialer_with : ℕ → Dict String → S → String → String → Bool
  validate_dialer_with fuel proposed s dialer self = elim (parse_dialer dialer) [
    | none ↦ false
    | some refs ↦
        allows_refs s refs && passes (detect_dialer_cycle fuel self dialer (dialer_of proposed s))
  ]

  -- validateDialer
  unfoldable pub validate_dialer : ℕ → S → String → String → Bool
  validate_dialer fuel s dialer self = validate_dialer_with fuel [] s dialer self

  -- Whether an inbound has the entry as its master.
  unfoldable pub targets_master : String → Inbound → Bool
  targets_master name inb = elim (parse_target inb.target) [
    | none ↦ false
    | some (kind, n) ↦ str_eq kind kind_master && str_eq (normalize_name n) name
  ]

  unfoldable pub any_targets : String → List Inbound → Bool
  any_targets name [] = false
  any_targets name (inb ∷ inbs) = targets_master name inb || any_targets name inbs

  abbrev free_of_targets : String → Option (List Inbound) → Bool
  free_of_targets name none = false
  free_of_targets name (some inbs) = not (any_targets name inbs)

  -- One round of the second loop, whether it gives no error.
  unfoldable pub allows_change : ℕ → Dict String → S → Change → Bool
  allows_change fuel proposed s c =
      validate_dialer_with fuel proposed s c.dialer c.entry.name
      && (if str_eq c.dialer ""
          then free_of_targets c.entry.name (db.find_inbounds s)
          else check_master_outbound (protocol_of c.entry.outbound))

  unfoldable pub allows_changes : ℕ → Dict String → S → List Change → Bool
  allows_changes fuel proposed s [] = true
  allows_changes fuel proposed s (c ∷ cs) =
      let rest = allows_changes fuel proposed s cs in allows_change fuel proposed s c && rest

  -- EntryBulkDialer, up to the reconcile: the state that it leaves; `none` where it returns an error
  -- before that, with the state as it was
  unfoldable pub entry_bulk_dialer : ℕ → List (ℕ × String) → S → Option S
  entry_bulk_dialer fuel items s = elim (propose_all db s items no_bulk_plan) [
    | none ↦ none
    | some plan ↦
        if allows_changes fuel plan.proposed s plan.changes
        then set_entry_dialers db (writes_of plan.changes) s
        else none
  ]
