-- ===== src/Db.antt =====
-- The tables that the flows read and write, and the transactions around them: the queries of
-- crates/oidc-repository as functions on lists of rows, and `with_transaction!` of
-- crates/oidc-repository/src/connection.rs.
pub mod Tables
pub mod Directory
pub mod Sessions
pub mod Codes
pub mod Ciba
pub mod Consents
pub mod Audit
pub mod Scopes
pub mod Rpts
pub mod Transaction
pub mod Attempt
pub mod Authorization
