-- ===== src/Tests/Picker.antt =====
-- Runs of the picker, on numbers in thousandths in place of float64.
use em_xray.Daemon.Picker.Observed.{at_rest, get-observe_scores}
use em_xray.Xray.Tag.{
  slot_member_tag, sanitize_key, is_tag_char, replace_runs, is_underscore, trim_left, trim_right,
  trim_space, is_space,
}
use em_xray.Daemon.Picker.Slots.{empty_slot}
use em_xray.Daemon.Parker.{NodeStatus}
use em_xray.Daemon.Picker.Agile.Live.{
  some_sound, IsActivePick, live_at, fails_at, pick_agile-avoids_failed,
}
use em_xray.Daemon.Picker.Stable.Keys.{IsPick, pick_stable-IsPick}
use em_xray.Daemon.Picker.Stable.Failed.{
  some_usable, pick_stable-avoids_failed, fails_chain, is_dead_at,
}
use em_xray.Daemon.Picker.Agile.{
  pick_agile, split_members, pick_live, by_cost, split_member, live_keys, less_live, live_cost,
  less_rest,
}
use em_xray.Daemon.Picker.Stable.{
  pick_stable, top_of, tier_in, shrink_active, any_scored, spares_of, cand_keys, set_inc, cands_of,
  until_failed, cand_of,
}
use em_xray.Daemon.Picker.{
  Floats, NodeScore, observe_scores, tier_of, loaded_tags, score_cost, observed,
}
use em_xray.Daemon.Picker.Rank.{
  ChainVerdict, verdict_of, rank, set_costs, less_cand, set_cost, less_in_tier, less_by_key,
  less_by_score,
}
use em_xray.Daemon.Uplink.{uplink_down, sampled}
use em_xray.Xray.Slot.{SlotMember, Slot}
use em_xray.Prelude.{
  ℕ, List, [], ◌∷◌, String, none, true, false, Bool, Dict, ◌*◌, All, get, ◌/◌, ◌^◌, ◌==◌, ◌≡◌, ◌+◌,
  if◌then◌else◌, ◌-◌, sort, contains, ltb, str_le, insert, put, refl, ◌&&◌, not,
}

abbrev thousandths : Floats ℕ
thousandths = record {
  literal = λ m k. m * 1000 / 10 ^ k;
  of_nat = λ n. n * 1000;
  plus = λ a b. a + b;
  minus = λ a b. a - b;
  times = λ a b. a * b / 1000;
  over = λ a b. a * 1000 / b;
  below = ltb;
  same = λ a b. a == b;
}

abbrev member_of : String → SlotMember
member_of key = record { key = key; outbound = "{}" }

abbrev three : List SlotMember
three = member_of "a" ∷ member_of "b" ∷ member_of "c" ∷ []

abbrev score_of : ℕ → Bool → NodeScore ℕ
score_of ms alive = record {
  success = 1000;
  rtt_ms = ms * 1000;
  last_rtt = ms * 1000;
  has_rtt = true;
  alive = alive;
  clean = alive;
  sampled = true;
  went_down = false;
}

-- a answers fast, b slowly, and c is dead.
abbrev scores : Dict (NodeScore ℕ)
scores =
    ("slot1-out-a", score_of 90 true)
    ∷ ("slot1-out-b", score_of 900 true)
    ∷ ("slot1-out-c", score_of 50 false)
    ∷ []

-- a does not carry the master.
abbrev view : Dict (ChainVerdict ℕ)
view = ("a", record { class = 2; cost = 0 }) ∷ []

picks_best : pick_stable thousandths scores [] 1 three [] ≡ ("a" ∷ "b" ∷ "c" ∷ [], 2)
unfolding pick_stable top_of shrink_active any_scored sort str_le spares_of cand_keys rank set_inc
    cands_of tier_of get slot_member_tag insert until_failed set_costs contains cand_of sanitize_key
    less_cand set_cost verdict_of tier_in is_tag_char replace_runs is_underscore trim_left
    trim_right trim_space is_space less_in_tier less_by_key score_cost less_by_score put
picks_best = refl

avoids_a : pick_stable thousandths scores view 1 three [] ≡ ("b" ∷ [], 1)
unfolding pick_stable top_of shrink_active any_scored sort str_le spares_of cand_keys rank set_inc
    cands_of tier_of get slot_member_tag insert until_failed set_costs contains cand_of sanitize_key
    less_cand set_cost verdict_of tier_in is_tag_char replace_runs is_underscore trim_left
    trim_right trim_space is_space less_in_tier less_by_key score_cost less_by_score put
avoids_a = refl

-- The dead c fails the chain, and is active beside b.
abbrev view_of_c : Dict (ChainVerdict ℕ)
view_of_c = ("c", record { class = 2; cost = 0 }) ∷ []

keeps_dead_c :
    pick_stable thousandths scores view_of_c 1 (member_of "b" ∷ member_of "c" ∷ []) []
    ≡ ("b" ∷ "c" ∷ [], 2)
unfolding pick_stable top_of shrink_active any_scored sort str_le spares_of cand_keys rank set_inc
    cands_of tier_of get slot_member_tag insert until_failed set_costs contains cand_of sanitize_key
    less_cand set_cost verdict_of tier_in is_tag_char replace_runs is_underscore trim_left
    trim_right trim_space is_space less_in_tier less_by_key score_cost less_by_score put
keeps_dead_c = refl

agile_a : pick_agile thousandths scores [] 1 three [] 0 ≡ ("a" ∷ "b" ∷ "c" ∷ [], 2)
unfolding pick_agile split_members pick_live by_cost pick_stable split_member sort str_le live_keys
    top_of shrink_active any_scored spares_of cand_keys get slot_member_tag verdict_of contains
    insert less_live rank set_inc cands_of tier_of until_failed sanitize_key live_cost less_rest
    set_costs cand_of is_tag_char replace_runs is_underscore trim_left trim_right trim_space
    is_space less_cand set_cost tier_in less_in_tier less_by_key score_cost less_by_score put
agile_a = refl

b_usable : some_usable thousandths scores view 1 three ≡ true
unfolding some_usable tier_in tier_of get slot_member_tag verdict_of sanitize_key is_tag_char
    replace_runs is_underscore trim_left trim_right trim_space is_space sort str_le contains insert
    put
b_usable = refl

pick_stable-avoids_failed_example :
    All
      (λ k.
        (fails_chain thousandths scores view 1 k && not (is_dead_at thousandths scores view 1 k))
        ≡ false)
      (pick_stable thousandths scores view 1 three []).0
pick_stable-avoids_failed_example =
    pick_stable-avoids_failed thousandths scores view 1 three [] b_usable

pick_stable-IsPick_example : IsPick three 3 (pick_stable thousandths scores view 1 three [])
pick_stable-IsPick_example = pick_stable-IsPick thousandths scores view 1 [] three

b_live : some_sound thousandths scores view 1 three ≡ true
unfolding some_sound tier_in tier_of get slot_member_tag verdict_of sanitize_key is_tag_char
    replace_runs is_underscore trim_left trim_right trim_space is_space sort str_le contains insert
    put
b_live = refl

pick_agile-avoids_failed_example :
    IsActivePick thousandths
      (λ k.
        (live_at thousandths scores view 1 k ≡ true)
        × (fails_at thousandths scores view 1 k ≡ false))
      (pick_agile thousandths scores view 1 three [] 0)
pick_agile-avoids_failed_example =
    pick_agile-avoids_failed thousandths scores view 1 three [] 0 b_live

abbrev slot_one : Slot
slot_one = record empty_slot { master = "m"; key = "xraysub:main"; index = 1; members = three }

-- b was not alive, and answers.
abbrev by_tag : Dict NodeStatus
by_tag = ("slot1-out-b", record { alive = true; delay = 80; all = 2; fail = 1 }) ∷ []

get-observe_scores_example :
    get (observe_scores thousandths (slot_one ∷ []) by_tag scores).0 "slot1-out-b" ≡ (
      if contains (loaded_tags (slot_one ∷ [])) "slot1-out-b"
      then (if uplink_down by_tag (slot_one ∷ [])
          then at_rest thousandths (get scores "slot1-out-b")
          else observed thousandths
              (sampled (get by_tag "slot1-out-b"))
              (at_rest thousandths (get scores "slot1-out-b")))
      else none)
get-observe_scores_example =
    get-observe_scores thousandths (slot_one ∷ []) by_tag scores "slot1-out-b"
