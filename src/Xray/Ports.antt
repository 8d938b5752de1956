-- ===== src/Xray/Ports.antt =====
-- The ports of the inbounds: core/xray/ports.go, and IsUnixInbound of core/xray/template.go.
pub mod Unique
pub mod Range
use Prim.Native.Char.{Char, code}
use em_xray.Prelude.{
  ℕ, zero, suc, List, [], ◌∷◌, String, some, none, true, false, Bool, Option, ◌==◌, if◌then◌else◌,
  ◌-◌, ◌&&◌, ◌||◌, not,
}

-- Inbound, the fields that are read or set
pub record Inbound : Type 0 where
  pub id : ℕ
  pub name : String
  pub listen : String
  pub port : ℕ
  pub enabled : Bool
  pub target : String

-- PortStart and PortEnd
abbrev pub port_start : ℕ
port_start = 11800

abbrev pub port_end : ℕ
port_end = 11899

-- IsUnixInbound
unfoldable pub is_unix_listen : String → Bool
is_unix_listen String.[] = false
is_unix_listen (String.◌∷◌ c s) = code c == b'/' || code c == b'@'

unfoldable pub is_unix_inbound : Inbound → Bool
is_unix_inbound inb = is_unix_listen inb.listen

-- used[p]
unfoldable pub is_taken : List ℕ → ℕ → Bool
is_taken [] p = false
is_taken (q ∷ qs) p = q == p || is_taken qs p

-- The loop of nextFreePort, on the number of ports from p on.
unfoldable pub free_port_from : ℕ → ℕ → List ℕ → ℕ
free_port_from zero p used = 0
free_port_from (suc left) p used =
    let later = free_port_from left (suc p) used in if is_taken used p then later else p

-- nextFreePort; 0 means that the range is used up
unfoldable pub next_free_port : List ℕ → ℕ
next_free_port used = free_port_from (suc port_end - port_start) port_start used

-- The first loop: the ports in use.
unfoldable pub ports_of : List Inbound → List ℕ
ports_of [] = []
ports_of (inb ∷ inbs) = let rest = ports_of inbs in if inb.port == 0 then rest else inb.port ∷ rest

-- An enabled TCP inbound without a port.
unfoldable pub lacks_port : Inbound → Bool
lacks_port inb = inb.enabled && (inb.port == 0 && not (is_unix_inbound inb))

-- The second loop, from index i on.
unfoldable pub assign_from : ℕ → List ℕ → List Inbound → List Inbound × List ℕ
assign_from i used [] = ([], [])
assign_from i used (inb ∷ inbs) =
    let p = next_free_port used in
    let (kept, kept_changed) = assign_from (suc i) used inbs in
    let (rest, changed) = assign_from (suc i) (p ∷ used) inbs in
    if lacks_port inb
    then (if p == 0 then (inb ∷ inbs, []) else (record inb { port = p } ∷ rest, i ∷ changed))
    else (inb ∷ kept, kept_changed)

-- AssignInboundPorts: the inbounds, and the indices of those whose port changed
unfoldable pub assign_inbound_ports : List Inbound → List Inbound × List ℕ
assign_inbound_ports inbs = assign_from 0 (ports_of inbs) inbs

-- routable of daemon/xray.go
unfoldable pub routable : List Inbound → Bool
routable [] = false
routable (inb ∷ inbs) = inb.enabled && (not (inb.port == 0) || is_unix_inbound inb) || routable inbs
