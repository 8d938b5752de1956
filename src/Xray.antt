-- ===== src/Xray.antt =====
-- core/xray: the parts of the model that stand for the OS-agnostic core package.
pub mod Tag
pub mod Slot
pub mod Settings
pub mod Subs
pub mod Ports
pub mod Dialer
pub mod Names
pub mod Store
pub mod Config
