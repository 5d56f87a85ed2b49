-- ===== src/Models/Grants.antt =====
-- crates/oidc-core/src/models/session.rs, offline_session.rs and device_code.rs
use open_id_connect_wasi_hub.Prelude.{ℕ, ℤ, String, List, Option, Bool}

pub record Session : Type 0 where
  pub id : ℕ
  pub sid : String
  pub user_id : Option ℕ
  pub realm_id : ℕ
  pub client_id : ℕ
  pub grant_type : String
  pub access_token_hash : String
  pub refresh_token_hash : Option String
  pub id_token_jti : Option String
  pub scope : List String
  pub revoked : Bool
  pub expires_at : ℕ
  pub refresh_expires_at : Option ℕ
  pub offline_session : Bool
  pub offline_max_expires_at : Option ℕ
  pub created_at : ℕ
  pub last_used_at : Option ℕ
  pub token_family_id : Option ℕ
  pub previous_session_id : Option ℕ
  pub rotated_at : Option ℕ
  pub reused_at : Option ℕ
  pub family_revoked : Bool
  pub authorization_details : Option String
  pub resource : List String
  pub acr : String
  pub amr : List String

pub record OfflineSessionPolicy : Type 0 where
  pub idle_seconds : ℤ
  pub max_seconds : ℤ

pub record DeviceCode : Type 0 where
  pub id : ℕ
  pub client_id : ℕ
  pub realm_id : ℕ
  pub device_code : String
  pub user_code : String
  pub verification_uri : String
  pub verification_uri_complete : Option String
  pub expires_at : ℕ
  pub interval : ℕ
  pub used : Bool
  pub authorized : Bool
  pub user_id : Option ℕ
  pub scope : List String
  pub created_at : ℕ
