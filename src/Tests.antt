-- ===== src/Tests.antt =====
-- Concrete runs: tests of the definitions, and the theorems at inputs that meet their hypotheses.
mod Parker
mod History
mod Auto
mod Watchdog
mod Live
mod Pools
mod Xray
mod Health
mod Caps
mod Traffic
mod Dialers
mod Subs
mod Names
mod Picker
mod Config
