-- ===== src/Xray/Slot/Keys.antt =====
-- Which members a slot's masters route through: the key sets of Slot in core/xray/dialer.go.
use em_xray.Prelude.{
  ℕ, zero, suc, String, Bool, true, List, [], ◌∷◌, ◌≡◌, refl, take, Dict, get, put, get-put,
  contains, arith, some, if◌then◌else◌,
}
use em_xray.Xray.Slot.{
  Slot, pick_active_count, pick_of, add_keys, active_keys_from, active_keys, picked_keys_from,
  picked_keys, slot_masters,
}

-- Which key a set holds after keys were added.
pub get-add_keys :
    (ks : List String) (out : Dict Bool) (j : String)
    → get (add_keys ks out) j ≡ (if contains ks j then some true else get out j)
unfolding add_keys contains
get-add_keys [] out j = refl
get-add_keys (k ∷ ks) out j =
    ground (arith, get-add_keys ks (put out k true) j, get-put out k j true)

contains-take :
    (n : ℕ) (ks : List String) (j : String) → contains (take n ks) j ≡ true → contains ks j ≡ true
unfolding contains
contains-take zero ks j h = ground arith
contains-take (suc n) [] j h = h
contains-take (suc n) (k ∷ ks) j h = ground (arith, contains-take n ks j)

active-picked_from :
    (s : Slot) (ms : List String) (a p : Dict Bool) (j : String)
    → (get a j ≡ some true → get p j ≡ some true)
    → get (active_keys_from s ms a) j ≡ some true
    → get (picked_keys_from s ms p) j ≡ some true
unfolding active_keys_from picked_keys_from
active-picked_from s [] a p j sub h = sub h
active-picked_from s (m ∷ ms) a p j sub h =
    let pick = pick_of s m in
    active-picked_from s ms (add_keys (take (pick_active_count pick) pick.picked) a)
      (add_keys pick.picked p) j
      (ground (
        arith,
        get-add_keys (take (pick_active_count pick) pick.picked) a j,
        get-add_keys pick.picked p j,
        contains-take (pick_active_count pick) pick.picked j,
      ))
      h

-- Every member that some master of a slot routes through is in some master's pick.
pub active_keys-picked_keys :
    (s : Slot) (j : String) → get (active_keys s) j ≡ some true → get (picked_keys s) j ≡ some true
unfolding active_keys picked_keys
active_keys-picked_keys s j h = active-picked_from s (slot_masters s) [] [] j (λ e. e) h
