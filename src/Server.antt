-- ===== src/Server.antt =====
-- pkg/server: what happens to a connection behind its authentication.
pub mod Vscode
pub mod Session
