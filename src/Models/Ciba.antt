-- ===== src/Models/Ciba.antt =====
-- crates/oidc-core/src/models/ciba.rs and user_consent.rs. The database keeps `interval_seconds`
-- within 2 and 60 and a lifetime within 60 and 900, so both are natural numbers.
use open_id_connect_wasi_hub.Prelude.{ℕ, String, List, Option}

abbrev pub ciba_grant_type : String
ciba_grant_type = "urn:openid:params:grant-type:ciba"

pub record CibaClientConfig : Type 0 where
  pub client_id : ℕ
  pub delivery_mode : String
  pub client_notification_endpoint : Option String
  pub request_lifetime_seconds : ℕ
  pub polling_interval_seconds : ℕ

pub record CibaAuthenticationRequest : Type 0 where
  pub id : ℕ
  pub auth_req_id_hash : String
  pub auth_req_id_encrypted : String
  pub client_id : ℕ
  pub realm_id : ℕ
  pub user_id : ℕ
  pub scope : List String
  pub binding_message : Option String
  pub request_context : Option String
  pub client_notification_token_encrypted : Option String
  pub delivery_mode : String
  pub client_notification_endpoint : Option String
  pub status : String
  pub interval_seconds : ℕ
  pub last_polled_at : Option ℕ
  pub requested_acr : List String
  pub auth_time : Option ℕ
  pub acr : Option String
  pub amr : List String
  pub expires_at : ℕ
  pub created_at : ℕ
  pub updated_at : ℕ

pub record UserConsent : Type 0 where
  pub id : ℕ
  pub user_id : ℕ
  pub realm_id : ℕ
  pub client_id : ℕ
  pub scopes : List String
  pub created_at : ℕ
  pub updated_at : ℕ
