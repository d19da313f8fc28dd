-- ===== src/Auth.antt =====
-- pkg/auth: who may log in, and the confirmation of a login by a reviewer.
pub mod UserAuth
pub mod Ssh
pub mod Confirm
