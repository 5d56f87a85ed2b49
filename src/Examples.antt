-- ===== src/Examples.antt =====
-- The code run on small inputs: tests, and the conditions of the theorems at work.
pub mod Fixture
pub mod Grants
pub mod Devices
pub mod Backchannel
pub mod SignIn
pub mod Tokens
pub mod Families
pub mod Rules
pub mod Limits
pub mod Permits
