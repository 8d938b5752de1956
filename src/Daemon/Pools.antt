-- ===== src/Daemon/Pools.antt =====
-- The node pools of the masters: resolveDialerSlots and its helpers, of daemon/xray.go.
pub mod Assign
pub mod Strategy
pub mod Members
pub mod Resolve
