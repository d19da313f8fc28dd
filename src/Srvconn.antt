-- ===== src/Srvconn.antt =====
-- pkg/srvconn: the cache of SSH clients that later logins of a user reuse.
pub mod Clients
pub mod Ssh
