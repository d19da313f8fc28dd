-- ===== src/Handler.antt =====
-- pkg/handler: the terminal client of a user.
pub mod Page
pub mod Search
pub mod Select
pub mod Dispatch
pub mod Login
pub mod Session
pub mod Idle
pub mod Admin
