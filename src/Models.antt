-- ===== src/Models.antt =====
-- crates/oidc-core/src/models: the records that the flows read and write. An `Uuid` is a number, a
-- `DateTime<Utc>` the seconds since an epoch, and a `serde_json::Value` that the flows only pass on
-- is kept as its text.
mod Clients
mod Users
mod Grants
mod AuthCodes
mod Ciba
mod Audit
mod Authorization
pub use Clients.*
pub use Users.*
pub use Grants.*
pub use AuthCodes.*
pub use Ciba.*
pub use Audit.{AuditEvent, ActorType}
pub use Authorization.*
