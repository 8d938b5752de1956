-- ===== src/Tests/Xray.antt =====
-- Runs of core/xray: the active nodes, the ports and the dialer field.
use em_xray.Xray.Tag.Trim.{trim_space, trim_left, trim_right, is_space}
use em_xray.Xray.Ports.Unique.{listens_on, assign_inbound_ports_unique, assign_inbound_ports_fills}
use em_xray.Xray.Dialer.{
  parse_dialer, parse_refs, parse_ref, split_commas, onto_first, cut_colon, is_ref_kind,
}
use em_xray.Xray.Ports.{
  Inbound, assign_inbound_ports, assign_from, ports_of, lacks_port, is_unix_inbound, is_unix_listen,
  next_free_port, free_port_from, is_taken,
}
use em_xray.Xray.Subs.Active.{
  SubNode, SubNodeOverride, recompute_active, mark_active, is_off, by_rank, is_pinned,
  effective_cap, recompute_active-by_rank,
}
use em_xray.Prelude.{
  ℕ, zero, suc, List, [], ◌∷◌, String, some, true, false, pos, count, ◌≤◌, ◌≡◌, arith, map, refl,
}

abbrev node_at : ℕ → String → SubNode
node_at id fp = record { id = id; fingerprint = fp; outbound = "{}"; active = false }

-- b is disabled, c is pinned, and the cap is 1.
abbrev nodes : List SubNode
nodes = node_at 1 "a" ∷ node_at 2 "b" ∷ node_at 3 "c" ∷ node_at 4 "d" ∷ []

abbrev overrides : List SubNodeOverride
overrides =
    record { fingerprint = "b"; disabled = true; pinned = false }
    ∷ record { fingerprint = "c"; disabled = false; pinned = true }
    ∷ []

recompute_active_run :
    map (λ (n : SubNode). n.active) (recompute_active true (pos 1) overrides nodes)
    ≡ true ∷ false ∷ true ∷ false ∷ []
unfolding recompute_active mark_active is_off is_pinned effective_cap
recompute_active_run = refl

recompute_active-by_rank_example :
    recompute_active true (pos 1) overrides nodes
    ≡ by_rank true overrides (effective_cap (pos 1)) 0 nodes
recompute_active-by_rank_example = recompute_active-by_rank true (pos 1) overrides nodes

abbrev inbound_at : String → ℕ → Inbound
inbound_at listen port = record {
  id = 1;
  target = "direct";
  name = "n";
  listen = listen;
  port = port;
  enabled = true;
}

abbrev inbounds : List Inbound
inbounds =
    inbound_at "127.0.0.1" 11800
    ∷ inbound_at "0.0.0.0" 0
    ∷ inbound_at "/run/x.sock" 0
    ∷ inbound_at "0.0.0.0" 0
    ∷ []

ports_run :
    map (λ (i : Inbound). i.port) (assign_inbound_ports inbounds).0 ≡ 11800 ∷ 11801 ∷ 0 ∷ 11802 ∷ []
unfolding assign_inbound_ports assign_from ports_of lacks_port is_unix_inbound is_unix_listen
    next_free_port free_port_from is_taken
ports_run = refl

assign_inbound_ports_unique_example : count (listens_on 11801) (assign_inbound_ports inbounds).0 ≤ 1
assign_inbound_ports_unique_example =
    assign_inbound_ports_unique inbounds 11801 (omega arith) (omega arith)

-- The whole range, taken.
abbrev full_range : ℕ → ℕ → List Inbound
full_range zero p = []
full_range (suc left) p = inbound_at "0.0.0.0" p ∷ full_range left (suc p)

abbrev crowd : List Inbound
crowd = inbound_at "0.0.0.0" 0 ∷ full_range 100 11800

crowd_waits : 1 ≤ count lacks_port (assign_inbound_ports crowd).0
unfolding assign_inbound_ports assign_from ports_of lacks_port is_unix_inbound is_unix_listen
    next_free_port free_port_from is_taken
crowd_waits = omega arith

assign_inbound_ports_fills_example : 1 ≤ count (listens_on 11850) (assign_inbound_ports crowd).0
assign_inbound_ports_fills_example =
    assign_inbound_ports_fills crowd 11850 crowd_waits (omega arith) (omega arith)

dialer_run :
    parse_dialer " xraysub:main , xray:home office,"
    ≡ some (
        record { kind = "xraysub"; name = "main" }
        ∷ record { kind = "xray"; name = "home office" }
        ∷ [])
unfolding parse_dialer parse_refs parse_ref split_commas onto_first cut_colon is_ref_kind trim_space
    trim_left trim_right is_space
dialer_run = refl
