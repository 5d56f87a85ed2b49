-- ===== src/Models/Clients.antt =====
-- crates/oidc-core/src/models/client.rs and crates/oidc-core/src/models/realm.rs
use open_id_connect_wasi_hub.Prelude.{ℕ, String, List, Option, Bool}

pub data ClientType : Type 0 where
  confidential public : ClientType

-- JSON text that the model does not look into.
abbrev pub Json : Type 0
Json = String

pub record Client : Type 0 where
  pub id : ℕ
  pub realm_id : ℕ
  pub client_id : String
  pub client_type : ClientType
  pub client_secret_hash : Option String
  pub name : String
  pub redirect_uris : List String
  pub allowed_scopes : List String
  pub allowed_grant_types : List String
  pub pkce_required : Bool
  pub enabled : Bool
  pub deleted_at : Option ℕ
  pub token_endpoint_auth_method : String
  pub jwks_uri : Option String
  pub jwks : Option Json
  pub request_uris : List String
  pub client_secret_encrypted : Option String
  pub frontchannel_logout_uri : Option String
  pub frontchannel_logout_session_required : Bool
  pub backchannel_logout_uri : Option String
  pub backchannel_logout_session_required : Bool
  pub post_logout_redirect_uris : List String
  pub subject_type : String
  pub sector_identifier_uri : Option String
  pub response_modes : List String
  pub id_token_encrypted_response_alg : Option String
  pub id_token_encrypted_response_enc : Option String
  pub id_token_encryption_key_encrypted : Option String
  pub id_token_encryption_key_pem : Option String
  pub request_object_encryption_alg : Option String
  pub request_object_encryption_enc : Option String
  pub request_object_encryption_key_encrypted : Option String
  pub request_object_encryption_key_pem : Option String

pub record Realm : Type 0 where
  pub id : ℕ
  pub name : String
  pub display_name : String
  pub enabled : Bool
  pub config : Json
  pub deleted_at : Option ℕ
