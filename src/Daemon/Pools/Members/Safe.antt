-- ===== src/Daemon/Pools/Members/Safe.antt =====
-- What resolveDialerMembers of daemon/xray.go puts in a pool.
use em_xray.Daemon.Pools.Members.{
  has_member, add_member, add_nodes, add_entry, add_subscription, add_refs, resolve_dialer_members,
  check_member_outbound, SubNode, Subscription, xray_key, XrayEntry, DialerRef, ref_xray,
  ref_xray_sub,
}
use em_xray.Daemon.Pools.Strategy.{SubStore}
use em_xray.Xray.Slot.{SlotMember}
use em_xray.Prelude.{
  List, [], ◌∷◌, String, some, none, true, false, Bool, Option, Dict, contains, str_eq, All, ◌≡◌,
  count, ltb, ◌≤◌, if_elim, Option-cases, arith, ◌||◌, ◌&&◌, inl, All-append, get, inr, refl,
  count-append, ap, eq_iff,
}

abbrev pub keyed : String → SlotMember → Bool
keyed k m = str_eq m.key k

contains-keys : (ms : List SlotMember) (k : String) → has_member ms k ≡ ltb 0 (count (keyed k) ms)
unfolding contains
contains-keys [] k = refl
contains-keys (m ∷ ms) k = ground (arith, contains-keys ms k)

module _ (protocol_of : String → Option String) (store : SubStore) where
  -- A member that can be in a pool: it has a key, and its outbound tunnels to a remote proxy.
  abbrev pub IsTunnel : SlotMember → Type 0
  IsTunnel m = (str_eq m.key "" ≡ false) × (check_member_outbound protocol_of m.outbound ≡ true)

  -- Every member can be in a pool, and no two have the same key.
  abbrev pub IsPool : List SlotMember → Type 0
  IsPool ms = All IsTunnel ms × ((k : String) → count (keyed k) ms ≤ 1)

  add_member-IsPool :
      (key outbound : String) (ms : List SlotMember)
      → check_member_outbound protocol_of outbound ≡ true
      → IsPool ms
      → IsPool (add_member key outbound ms)
  unfolding add_member
  add_member-IsPool key outbound ms ok h =
      if_elim IsPool (str_eq key "" || (str_eq outbound "" || has_member ms key)) (λ yes. h)
        (λ n.
          (let fresh = contains-keys ms key in
            (
              All-append IsTunnel ms (record { key = key; outbound = outbound } ∷ []) h.0
                  ((ground (arith, n), ok), tt),
              λ k.
                  (let once = h.1 k in
                    let split =
                      count-append (keyed k) ms (record { key = key; outbound = outbound } ∷ []) in
                    let at_k : key ≡ k → count (keyed key) ms ≡ count (keyed k) ms =
                      λ q. ap (λ j. count (keyed j) ms) q in
                    ground (arith, once, split, fresh, n, at_k, eq_iff key k)),
            )))

  add_nodes-IsPool :
      (ns : List SubNode) (ms : List SlotMember)
      → IsPool ms
      → IsPool (add_nodes protocol_of store ns ms)
  unfolding add_nodes
  add_nodes-IsPool [] ms h = h
  add_nodes-IsPool (n ∷ ns) ms h = add_nodes-IsPool ns _ (
      if_elim IsPool (check_member_outbound protocol_of n.outbound)
        (λ ok. add_member-IsPool n.fingerprint n.outbound ms ok h) (λ no. h))

  add_entry-IsPool :
      (e : Option XrayEntry) (name : String) (ms : List SlotMember)
      → IsPool ms
      → IsPool (add_entry protocol_of store e name ms)
  unfolding add_entry
  add_entry-IsPool none name ms h = h
  add_entry-IsPool (some e) name ms h =
      if_elim IsPool (e.enabled && check_member_outbound protocol_of e.outbound)
        (λ ok. add_member-IsPool (xray_key name) e.outbound ms (ground arith) h) (λ no. h)

  add_subscription-IsPool :
      (sub : Option Subscription) (ms : List SlotMember)
      → IsPool ms
      → IsPool (add_subscription protocol_of store sub ms)
  unfolding add_subscription
  add_subscription-IsPool none ms h = h
  add_subscription-IsPool (some sub) ms h = elim (Option-cases (store.active_nodes sub.id)) [
    | inl e ↦ rw (e, add_subscription) h
    | inr (ns, e) ↦ rw (e, add_subscription) (add_nodes-IsPool ns ms h)
  ]

  add_refs-IsPool :
      (by_name : Dict XrayEntry) (refs : List DialerRef) (ms : List SlotMember)
      → IsPool ms
      → IsPool (add_refs protocol_of store by_name refs ms)
  unfolding add_refs
  add_refs-IsPool by_name [] ms h = h
  add_refs-IsPool by_name (r ∷ refs) ms h = add_refs-IsPool by_name refs _ (
      if_elim IsPool (str_eq r.kind ref_xray)
        (λ yes. add_entry-IsPool (get by_name r.name) r.name ms h)
        (λ no.
          if_elim IsPool (str_eq r.kind ref_xray_sub)
            (λ yes. add_subscription-IsPool (store.get_subscription_by_name r.name) ms h)
            (λ no. h)))

  -- Whatever the refs and the store say, a pool has no member that would leave straight from this
  -- box, none without a key, and no two with the same key.
  pub resolve_dialer_members-IsPool :
      (by_name : Dict XrayEntry) (refs : List DialerRef)
      → IsPool (resolve_dialer_members protocol_of store by_name refs)
  unfolding resolve_dialer_members
  resolve_dialer_members-IsPool by_name refs =
      add_refs-IsPool by_name refs [] (tt, λ k. omega arith)
