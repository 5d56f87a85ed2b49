-- ===== src/Flows/Password.antt =====
-- crates/oidc-oidc/src/flows/password.rs: sign-in with a password or a Kerberos ticket. The body of the
-- transaction writes an audit event before it fails, so it carries the tables through its errors.
pub mod Setting
pub mod Credentials
pub mod Tokens
pub mod SignIn
pub mod Failures
pub mod Vouched
pub mod Checked
pub mod Success
pub mod Sessions
