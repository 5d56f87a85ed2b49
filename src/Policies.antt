-- ===== src/Policies.antt =====
-- Rules that the hub applies to what users and clients send.
pub mod Passwords
pub mod Globs
pub mod Clients
pub mod Permissions
