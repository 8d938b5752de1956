-- ===== src/Daemon/Uplink.antt =====
-- Whether a poll saw anything alive: the test that record of daemon/nodehistory.go and observe of
-- daemon/nodepick.go share. A poll with pings and nothing alive is this box's uplink, not the nodes.
use em_xray.Xray.Tag.{slot_member_tag}
use em_xray.Xray.Slot.{Slot, SlotMember}
use em_xray.Daemon.Parker.{NodeStatus}
use em_xray.Prelude.{
  Bool, false, ◌&&◌, ◌||◌, not, List, [], ◌∷◌, Option, some, none, Dict, get, ltb, if◌then◌else◌,
  is_some,
}

-- st, ok := byTag[tag]; ok && st.HealthPing.All > 0
unfoldable pub sampled : Option NodeStatus → Option NodeStatus
sampled none = none
sampled (some st) = if ltb 0 st.all then some st else none

unfoldable pub sample_of : Dict NodeStatus → Slot → SlotMember → Option NodeStatus
sample_of by_tag sl m = sampled (get by_tag (slot_member_tag sl.index m.key))

abbrev pub sample_alive : Option NodeStatus → Bool
sample_alive none = false
sample_alive (some st) = st.alive

unfoldable pub any_member :
    (Option NodeStatus → Bool) → Dict NodeStatus → Slot → List SlotMember → Bool
any_member p by_tag sl [] = false
any_member p by_tag sl (m ∷ ms) = p (sample_of by_tag sl m) || any_member p by_tag sl ms

unfoldable pub any_slot : (Option NodeStatus → Bool) → Dict NodeStatus → List Slot → Bool
any_slot p by_tag [] = false
any_slot p by_tag (sl ∷ slots) = any_member p by_tag sl sl.members || any_slot p by_tag slots

unfoldable pub any_sampled : Dict NodeStatus → List Slot → Bool
any_sampled = any_slot is_some

unfoldable pub any_alive : Dict NodeStatus → List Slot → Bool
any_alive = any_slot sample_alive

unfoldable pub uplink_down : Dict NodeStatus → List Slot → Bool
uplink_down by_tag slots = any_sampled by_tag slots && not (any_alive by_tag slots)
