-- ===== src/Xray/Ports/Unique.antt =====
-- The ports that AssignInboundPorts of core/xray/ports.go gives.
use em_xray.Daemon.Live.Diff.{one_if}
use em_xray.Xray.Ports.Range.{next_free_port-Found}
use em_xray.Xray.Ports.{
  Inbound, ports_of, next_free_port, assign_from, assign_inbound_ports, is_taken, port_start,
  lacks_port, port_end, is_unix_inbound,
}
use em_xray.Prelude.{
  ℕ, suc, List, [], ◌∷◌, true, false, Bool, ◌==◌, ◌≡◌, ◌<◌, ltb, count, arith, ◌≤◌, ◌+◌, refl, not,
  inl, ◌&&◌, inr, ap, leb, sym, ◌∙◌, if_elim, ◌⊎◌,
}

abbrev pub listens_on : ℕ → Inbound → Bool
listens_on k inb = inb.port == k

taken-ports_of :
    (inbs : List Inbound) (k : ℕ)
    → 0 < k
    → is_taken (ports_of inbs) k ≡ ltb 0 (count (listens_on k) inbs)
unfolding ports_of is_taken
taken-ports_of [] k h = refl
taken-ports_of (inb ∷ inbs) k h = ground (arith, taken-ports_of inbs k h)

found_range :
    (used : List ℕ) (k : ℕ)
    → next_free_port used ≡ k
    → 0 < k
    → (is_taken used k ≡ false) × (port_start ≤ k) × (k ≤ port_end)
found_range used k e h = elim (next_free_port-Found used) [
  | inl (z, all) ↦ absurd (omega (arith, e, z))
  | inr (low, high, free, all) ↦
      (ap (is_taken used) (sym e) ∙ free, omega (arith, e, low), omega (arith, e, high))
]

lacks_port-zero : (inb : Inbound) → lacks_port inb ≡ true → inb.port ≡ 0
unfolding lacks_port
lacks_port-zero inb h = ground arith

lacks_port-set :
    (inb : Inbound) (p : ℕ) → p == 0 ≡ false → lacks_port (record inb { port = p }) ≡ false
unfolding lacks_port is_unix_inbound
lacks_port-set inb p n = ground arith

-- The loop gives a port that is in use to nobody, and any other to one inbound at most.
count-assign_from :
    (i : ℕ) (used : List ℕ) (inbs : List Inbound) (k : ℕ)
    → 0 < k
    → count (listens_on k) (assign_from i used inbs).0
      ≤ count (listens_on k) inbs
        + one_if (not (is_taken used k) && (leb port_start k && leb k port_end))
unfolding assign_from is_taken
count-assign_from i used [] k h = omega arith
count-assign_from i used (inb ∷ inbs) k h =
    let p = next_free_port used in
    let kept = count-assign_from (suc i) used inbs k h in
    let rest = count-assign_from (suc i) (p ∷ used) inbs k h in
    let found = found_range used k in
    let P : List Inbound × List ℕ → Type 0 = λ out.
      count (listens_on k) out.0
      ≤ count (listens_on k) (inb ∷ inbs)
        + one_if (not (is_taken used k) && (leb port_start k && leb k port_end)) in
    if_elim P (lacks_port inb)
      (λ yes.
        if_elim P (p == 0) (λ e. omega arith)
          (λ some_port. (let q = lacks_port-zero inb yes in ground (arith, rest, found, q))))
      (λ n. ground (arith, kept))

-- No port is given twice: a port that at most one inbound has before, at most one has after.
pub assign_inbound_ports_unique :
    (inbs : List Inbound) (k : ℕ)
    → 0 < k
    → count (listens_on k) inbs ≤ 1
    → count (listens_on k) (assign_inbound_ports inbs).0 ≤ 1
unfolding assign_inbound_ports
assign_inbound_ports_unique inbs k h once =
    let lem = count-assign_from 0 (ports_of inbs) inbs k h in
    let taken = taken-ports_of inbs k h in ground (arith, lem, taken)

all_taken :
    (used : List ℕ) (k : ℕ)
    → next_free_port used ≡ 0
    → port_start ≤ k
    → k ≤ port_end
    → is_taken used k ≡ true
all_taken used k e low high = elim (next_free_port-Found used) [
  | inl (z, all) ↦ all k low (omega arith)
  | inr (first, last, free, all) ↦ absurd (omega (arith, e, first))
]

-- An inbound is left without a port when every port of the range is in use.
assign_from-fills :
    (i : ℕ) (used : List ℕ) (inbs : List Inbound) (k : ℕ)
    → 1 ≤ count lacks_port (assign_from i used inbs).0
    → port_start ≤ k
    → k ≤ port_end
    → (is_taken used k ≡ true) ⊎ (1 ≤ count (listens_on k) (assign_from i used inbs).0)
unfolding assign_from is_taken
assign_from-fills i used [] k left low high = absurd (omega (arith, left))
assign_from-fills i used (inb ∷ inbs) k left low high =
    let p = next_free_port used in
    let kept = assign_from-fills (suc i) used inbs k in
    let rest = assign_from-fills (suc i) (p ∷ used) inbs k in
    let full = all_taken used k in
    let P : List Inbound × List ℕ → Type 0 = λ out.
      1 ≤ count lacks_port out.0 → (is_taken used k ≡ true) ⊎ (1 ≤ count (listens_on k) out.0) in
    if_elim P (lacks_port inb)
      (λ yes.
        if_elim P (p == 0) (λ e l. inl (full (ground arith) low high))
          (λ n l.
            (let set = lacks_port-set inb p n in
              let tail : 1 ≤ count lacks_port (assign_from (suc i) (p ∷ used) inbs).0 =
                ground (arith, set, l) in
              let one = rest tail low high in ground (arith, one))))
      (λ n l.
        (let tail : 1 ≤ count lacks_port (assign_from (suc i) used inbs).0 = ground (arith, n, l) in
          let one = kept tail low high in ground (arith, one)))
      left

count-assign_from-le :
    (i : ℕ) (used : List ℕ) (inbs : List Inbound) (k : ℕ)
    → 0 < k
    → count (listens_on k) inbs ≤ count (listens_on k) (assign_from i used inbs).0
unfolding assign_from
count-assign_from-le i used [] k h = omega arith
count-assign_from-le i used (inb ∷ inbs) k h =
    let p = next_free_port used in
    let kept = count-assign_from-le (suc i) used inbs k h in
    let rest = count-assign_from-le (suc i) (p ∷ used) inbs k h in
    let P : List Inbound × List ℕ → Type 0 =
      λ out. count (listens_on k) (inb ∷ inbs) ≤ count (listens_on k) out.0 in
    if_elim P (lacks_port inb)
      (λ yes.
        if_elim P (p == 0) (λ e. omega arith)
          (λ n. (let q = lacks_port-zero inb yes in ground (arith, rest, q))))
      (λ n. ground (arith, kept))

-- An inbound that wants a port is left without one only when each port of the range is some
-- inbound's.
pub assign_inbound_ports_fills :
    (inbs : List Inbound) (k : ℕ)
    → 1 ≤ count lacks_port (assign_inbound_ports inbs).0
    → port_start ≤ k
    → k ≤ port_end
    → 1 ≤ count (listens_on k) (assign_inbound_ports inbs).0
unfolding assign_inbound_ports
assign_inbound_ports_fills inbs k left low high =
    let lem = assign_from-fills 0 (ports_of inbs) inbs k left low high in
    let taken = taken-ports_of inbs k (omega (arith, low)) in
    let more = count-assign_from-le 0 (ports_of inbs) inbs k (omega (arith, low)) in
    ground (arith, lem, taken, more)
