-- ===== src/Common.antt =====
-- pkg/common: the helpers for texts and tables.
pub mod Prefix
pub mod Color
pub mod Table
