-- ===== src/Flows.antt =====
-- crates/oidc-oidc/src/flows: the grants of the token endpoint.
pub mod State
pub mod Claims
pub mod AuthorizationCode
pub mod RefreshToken
pub mod DeviceCode
pub mod Ciba
pub mod ClientCredentials
pub mod Password
pub mod Lifecycle
