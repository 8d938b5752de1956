-- ===== src/Daemon.antt =====
-- daemon: the parts of the model that stand for the daemon package.
pub mod Clock
pub mod Parker
pub mod Uplink
pub mod History
pub mod Auto
pub mod Watchdog
pub mod Live
pub mod Pools
pub mod Health
pub mod Caps
pub mod Traffic
pub mod Dialers
pub mod Picker
