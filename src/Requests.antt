-- ===== src/Requests.antt =====
-- The parts of an authorization request that the hub parses.
pub mod ResponseTypes
