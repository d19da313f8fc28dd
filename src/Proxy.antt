-- ===== src/Proxy.antt =====
-- pkg/proxy: one connection of a user to an asset.
pub mod Server
pub mod Connect
pub mod Bridge
