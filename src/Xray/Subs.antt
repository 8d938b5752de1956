-- ===== src/Xray/Subs.antt =====
-- Subscriptions and their nodes: core/xray/models.go, with recomputeActive of core/xray/store.go.
pub mod Words
pub mod Active
pub mod Tables
pub mod Store
use em_xray.Prelude.{
  ℕ, zero, suc, List, [], ◌∷◌, String, some, none, true, false, Bool, Option, Dict, ℤ, pos, negsuc,
}
use em_xray.Xray.Subs.Words.{parse_strategy}
