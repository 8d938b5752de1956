-- ===== src/Daemon/Pools/Members/Pins.antt =====
-- The pins of a manual pool: poolPins of daemon/xray.go.
use em_xray.Daemon.Live.Diff.{is_key, contains-count}
use em_xray.Daemon.Pools.Members.{
  add_pins, pool_pins_from, pool_pins, SubStore, has_member, pins_of, DialerRef,
}
use em_xray.Xray.Slot.{SlotMember}
use em_xray.Prelude.{
  List, [], ◌∷◌, String, true, All, if_elim, ◌≡◌, ◌&&◌, arith, count, not, contains, ◌≤◌,
  All-append, count-append, ap, eq_iff,
}

-- Every pin is a member of the pool, and none comes twice.
abbrev pub ArePins : List SlotMember → List String → Type 0
ArePins members out =
    All (λ fp. has_member members fp ≡ true) out × ((k : String) → count (is_key k) out ≤ 1)

add_pins-ArePins :
    (members : List SlotMember) (fps out : List String)
    → ArePins members out
    → ArePins members (add_pins members fps out)
unfolding add_pins
add_pins-ArePins members [] out h = h
add_pins-ArePins members (fp ∷ fps) out h = add_pins-ArePins members fps _ (
    if_elim (ArePins members) (has_member members fp && not (contains out fp))
      (λ yes.
        (let fresh = contains-count out fp in
          (
            All-append (λ p. has_member members p ≡ true) out (fp ∷ []) h.0
                (ground (arith, yes), tt),
            λ k.
                (let once = h.1 k in
                  let split = count-append (is_key k) out (fp ∷ []) in
                  let at_k : fp ≡ k → count (is_key fp) out ≡ count (is_key k) out =
                    λ q. ap (λ j. count (is_key j) out) q in
                  ground (arith, once, split, fresh, yes, at_k, eq_iff fp k)),
          )))
      (λ no. h))

pool_pins_from-ArePins :
    (store : SubStore) (members : List SlotMember) (refs : List DialerRef) (out : List String)
    → ArePins members out
    → ArePins members (pool_pins_from store members refs out)
unfolding pool_pins_from
pool_pins_from-ArePins store members [] out h = h
pool_pins_from-ArePins store members (r ∷ refs) out h =
    pool_pins_from-ArePins store members refs _ (add_pins-ArePins members (pins_of store r) out h)

-- A manual pool is pinned to members that it has, each once: a pin on a node that is gone is left
-- out.
pub pool_pins-ArePins :
    (store : SubStore) (refs : List DialerRef) (members : List SlotMember)
    → ArePins members (pool_pins store refs members)
unfolding pool_pins
pool_pins-ArePins store refs members =
    pool_pins_from-ArePins store members refs [] (tt, λ k. omega arith)
