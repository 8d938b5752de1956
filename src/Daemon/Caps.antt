-- ===== src/Daemon/Caps.antt =====
-- The byte caps of the users: enforceCaps of daemon/traffic.go and activeUsers of daemon/xray.go, with
-- the users of all inbounds in one list and the totals as a function of the email.
pub mod Settle
use em_xray.Prelude.{
  ℕ, zero, suc, List, [], ◌∷◌, String, some, none, true, false, Bool, Option, Dict, ◌&&◌, leb,
  filter, if◌then◌else◌, ltb, not, holds, put, delete,
}

-- InboundUser, the fields that are read; a ByteCap below 1 is 0
pub record InboundUser : Type 0 where
  pub name : String
  pub email : String
  pub byte_cap : ℕ
  pub enabled : Bool

-- The user is subject to a cap.
unfoldable pub is_capped : InboundUser → Bool
is_capped u = u.enabled && ltb 0 u.byte_cap

-- up+down >= u.ByteCap
unfoldable pub is_over : (String → ℕ) → InboundUser → Bool
is_over total u = leb u.byte_cap (total u.email)

-- activeUsers
unfoldable pub is_admitted : (String → ℕ) → InboundUser → Bool
is_admitted total u = u.enabled && not (ltb 0 u.byte_cap && is_over total u)

unfoldable pub active_users : (String → ℕ) → List InboundUser → List InboundUser
active_users total users = filter (is_admitted total) users

-- The loop of enforceCaps: the emails over their cap, and whether one came or went.
unfoldable pub enforce_user : (String → ℕ) → InboundUser → Dict Bool × Bool → Dict Bool × Bool
enforce_user total u (over_cap, trigger) =
    if not (is_capped u)
    then (over_cap, trigger)
    else if is_over total u && not (holds over_cap u.email)
    then (put over_cap u.email true, true)
    else if not (is_over total u) && holds over_cap u.email
    then (delete over_cap u.email, true)
    else (over_cap, trigger)

unfoldable pub enforce_users : (String → ℕ) → List InboundUser → Dict Bool × Bool → Dict Bool × Bool
enforce_users total [] st = st
enforce_users total (u ∷ users) st = enforce_users total users (enforce_user total u st)

-- enforceCaps: the emails over their cap, and whether it reconciles
unfoldable pub enforce_caps : (String → ℕ) → List InboundUser → Dict Bool → Dict Bool × Bool
enforce_caps total users over_cap = enforce_users total users (over_cap, false)
