-- ===== src/Endpoints.antt =====
-- The handlers of crates/oidc-oidc/src/endpoints that decide or change something, from the parameters
-- that HTTP gives them. A handler without a transaction commits each statement: it answers a result
-- and the tables, also when it fails half way.
pub mod Account
pub mod CibaDecision
pub mod TokenState
pub mod Permissions
pub mod UmaTicket
