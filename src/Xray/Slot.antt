-- ===== src/Xray/Slot.antt =====
-- The resolved pools of core/xray/dialer.go: SlotMember, Slot, MasterPick and their methods.
pub mod Keys
use em_xray.Prelude.{
  ℕ, min, String, Bool, true, ◌||◌, List, [], ◌∷◌, Option, none, some, length, take, Dict, get, put,
  ltb, ◌==◌, str_eq, if◌then◌else◌,
}

pub record SlotMember : Type 0 where
  pub key : String
  pub outbound : String

pub record MasterPick : Type 0 where
  pub picked : List String
  pub active : ℕ

pub record Slot : Type 0 where
  pub master : String
  pub aliases : List String
  pub key : String
  pub index : ℕ
  pub members : List SlotMember
  pub picked : List String
  pub active : ℕ
  pub master_picks : Dict MasterPick
  pub strategy : String
  pub auto : Bool
  pub pinned : List String

abbrev pub strategy_stable : String
strategy_stable = "stable"

abbrev pub strategy_agile : String
strategy_agile = "agile"

abbrev pub strategy_manual : String
strategy_manual = "manual"

-- SlotBalancerExpected
abbrev pub slot_balancer_expected : ℕ
slot_balancer_expected = 2

-- activeCount
unfoldable pub active_count : ℕ → List String → ℕ
active_count active picked =
    min (if active == 0 then slot_balancer_expected else active) (length picked)

-- MasterPick.ActiveCount
unfoldable pub pick_active_count : MasterPick → ℕ
unfolding active_count
pick_active_count p = active_count p.active p.picked

-- Slot.ActiveCount
unfoldable pub slot_active_count : Slot → ℕ
unfolding active_count
slot_active_count s = active_count s.active s.picked

-- Slot.PickOf
unfoldable pub pick_of : Slot → String → MasterPick
pick_of s master = elim (get s.master_picks master) [
  | some p ↦ p
  | none ↦ record { picked = s.picked; active = s.active }
]

-- Slot.SlotMasters
unfoldable pub slot_masters : Slot → List String
slot_masters s = s.master ∷ s.aliases

-- for _, k := range ks { out[k] = true }
unfoldable pub add_keys : List String → Dict Bool → Dict Bool
add_keys [] out = out
add_keys (k ∷ ks) out = add_keys ks (put out k true)

active_keys_from : Slot → List String → Dict Bool → Dict Bool
unfolding pick_of pick_active_count add_keys
active_keys_from s [] out = out
active_keys_from s (m ∷ ms) out =
    let p = pick_of s m in
    active_keys_from s ms (add_keys (take (pick_active_count p) p.picked) out)

-- Slot.ActiveKeys
unfoldable pub active_keys : Slot → Dict Bool
unfolding active_keys_from slot_masters
active_keys s = active_keys_from s (slot_masters s) []

picked_keys_from : Slot → List String → Dict Bool → Dict Bool
unfolding pick_of add_keys
picked_keys_from s [] out = out
picked_keys_from s (m ∷ ms) out = picked_keys_from s ms (add_keys (pick_of s m).picked out)

-- Slot.PickedKeys
unfoldable pub picked_keys : Slot → Dict Bool
unfolding picked_keys_from slot_masters
picked_keys s = picked_keys_from s (slot_masters s) []

-- Slot.Ranked
unfoldable pub is_ranked : Slot → Bool
is_ranked s = ltb 0 (length s.picked) || ltb 0 (length s.master_picks)

-- Slot.Agile, Slot.Manual, Slot.NeverParks
unfoldable pub is_agile : Slot → Bool
is_agile s = str_eq s.strategy strategy_agile

unfoldable pub is_manual : Slot → Bool
is_manual s = str_eq s.strategy strategy_manual

unfoldable pub never_parks : Slot → Bool
unfolding is_agile is_manual
never_parks s = is_agile s || is_manual s
