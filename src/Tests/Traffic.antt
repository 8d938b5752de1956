-- ===== src/Tests/Traffic.antt =====
-- Runs of the traffic sampler of daemon/traffic.go.
use em_xray.Daemon.Traffic.Cursor.{AreDistinct, poll_twice}
use em_xray.Daemon.Traffic.Keys.{is_bar_free, split_key-tag_key}
use em_xray.Daemon.Traffic.{
  StatCounter, TagIndex, poll, cursor_key, split_key, add_counters, dir_key, tag_key, add_counter,
  delta_of, last_of, lookup, agg_of, add_delta, stored_traffic,
}
use em_xray.Prelude.{ℕ, List, [], ◌∷◌, String, true, false, Bool, Dict, ◌≡◌, refl, get, put}

abbrev counter : String → Bool → ℕ → StatCounter
counter tag down bytes = record { kind = "outbound"; tag = tag; down = down; bytes = bytes }

abbrev counters : List StatCounter
counters = counter "out-a" false 5 ∷ counter "out-a" true 9 ∷ counter "slot0" true 7 ∷ []

abbrev index : TagIndex
index = record { inbounds = []; outbounds = ("out-a", "a") ∷ []; users = [] }

-- The up counter went back, so xray was restarted; the slot's tag is not kept.
abbrev cursors : Dict ℕ
cursors = ("outbound|out-a|u", 8) ∷ ("outbound|out-a|d", 4) ∷ []

poll_run :
    (poll index counters cursors).1
    ≡ record { kind = "outbound"; tag = "out-a"; name = "a"; up = 5; down = 5 } ∷ []
unfolding poll add_counters add_counter delta_of last_of cursor_key tag_key dir_key lookup agg_of
    add_delta stored_traffic split_key get put
poll_run = refl

counters-AreDistinct : AreDistinct counters
unfolding cursor_key dir_key
counters-AreDistinct = ((refl, (refl, tt)), ((refl, tt), (tt, tt)))

poll_twice_example : (poll index counters (poll index counters cursors).0).1 ≡ []
poll_twice_example = poll_twice index counters cursors counters-AreDistinct

bar_free : is_bar_free "outbound" ≡ true
unfolding is_bar_free
bar_free = refl

split_key-tag_key_example : split_key (tag_key (counter "o|a" true 1)) ≡ ("outbound", "o|a")
split_key-tag_key_example = split_key-tag_key (counter "o|a" true 1) bar_free
