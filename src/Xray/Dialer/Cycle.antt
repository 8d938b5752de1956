-- ===== src/Xray/Dialer/Cycle.antt =====
-- DetectDialerCycle of core/xray/dialer.go: the walk along the xray refs of the dialers. The source
-- recurses freely; here the recursion is on fuel, and Cycle/Ends shows how much is enough.
pub mod Route
pub mod Ends
pub mod Sound
pub mod Found
use em_xray.Xray.Names.{normalize_name}
use em_xray.Xray.Dialer.{DialerRef, parse_dialer, ref_xray}
use em_xray.Prelude.{
  ℕ, zero, suc, List, [], ◌∷◌, String, some, none, true, false, Bool, Option, if◌then◌else◌, str_eq,
  not, contains,
}

-- The error of DetectDialerCycle; `out_of_fuel` is the model's own.
pub data CycleCheck : Type 0 where
  no_cycle bad_dialer out_of_fuel : CycleCheck
  has_cycle : String → CycleCheck

-- The closure `lookup`: the entry's own dialer counts as stored.
unfoldable pub lookup_dialer : String → String → (String → Option String) → String → Option String
lookup_dialer name dialer dialer_of entry =
    if str_eq (normalize_name entry) name then some dialer else dialer_of entry

-- `if err != nil { return err }` before the rest.
abbrev pub error_or : CycleCheck → CycleCheck → CycleCheck
error_or no_cycle rest = rest
error_or bad_dialer rest = bad_dialer
error_or out_of_fuel rest = out_of_fuel
error_or (has_cycle x) rest = has_cycle x

-- The loop over the refs of an entry, with the walk from an entry as `walk`.
unfoldable pub walk_refs : (String → CycleCheck) → String → List DialerRef → CycleCheck
walk_refs walk name [] = no_cycle
walk_refs walk name (r ∷ refs) =
    let rest = walk_refs walk name refs in
    if not (str_eq r.kind ref_xray)
    then rest
    else if str_eq (normalize_name r.name) name
    then has_cycle name
    else error_or (walk r.name) rest

-- The refs of an entry that the walk follows: none where no dialer is stored.
abbrev pub walk_dialer : (String → CycleCheck) → String → Option String → CycleCheck
walk_dialer walk name none = no_cycle
walk_dialer walk name (some d) = elim (parse_dialer d) [
  | none ↦ bad_dialer
  | some refs ↦ walk_refs walk name refs
]

-- The closure `walk`, with the set `visiting` as a list.
unfoldable pub walk_dialers :
    ℕ → (String → Option String) → String → List String → String → CycleCheck
walk_dialers zero look name visiting entry = out_of_fuel
walk_dialers (suc fuel) look name visiting entry =
    let entry = normalize_name entry in
    let below = walk_dialer (walk_dialers fuel look name (entry ∷ visiting)) name (look entry) in
    if contains visiting entry then has_cycle entry else below

-- DetectDialerCycle
unfoldable pub detect_dialer_cycle : ℕ → String → String → (String → Option String) → CycleCheck
detect_dialer_cycle fuel name dialer dialer_of =
    let name = normalize_name name in
    walk_dialers fuel (lookup_dialer name dialer dialer_of) name [] name
