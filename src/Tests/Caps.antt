-- ===== src/Tests/Caps.antt =====
-- Runs of the byte caps of daemon/traffic.go.
use em_xray.Daemon.Caps.Settle.{HaveEmails, IsSettled, enforce_users-IsSettled}
use em_xray.Daemon.Caps.{InboundUser, enforce_caps, enforce_users, enforce_user, is_capped, is_over}
use em_xray.Prelude.{ℕ, List, [], ◌∷◌, String, true, false, All, ◌≡◌, refl, holds, get, put, delete}

abbrev user_of : String → ℕ → InboundUser
user_of email cap = record { name = email; email = email; byte_cap = cap; enabled = true }

abbrev users : List InboundUser
users = user_of "a" 10 ∷ user_of "b" 0 ∷ user_of "c" 5 ∷ []

abbrev seven : String → ℕ
seven email = 7

caps_run : enforce_caps seven users (("a", true) ∷ []) ≡ (("c", true) ∷ [], true)
unfolding enforce_caps enforce_users enforce_user is_capped is_over holds get put delete
caps_run = refl

users-HaveEmails : HaveEmails users
users-HaveEmails = ((refl, (refl, tt)), ((refl, tt), (tt, tt)))

enforce_users-IsSettled_example :
    All (IsSettled seven (enforce_users seven users (("a", true) ∷ [], false)).0) users
enforce_users-IsSettled_example =
    enforce_users-IsSettled seven users (("a", true) ∷ [], false) users-HaveEmails
