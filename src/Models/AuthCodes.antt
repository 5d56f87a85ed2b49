-- ===== src/Models/AuthCodes.antt =====
-- crates/oidc-core/src/models/auth_code.rs and the fields of
-- crates/oidc-core/src/models/response_type.rs
use open_id_connect_wasi_hub.Prelude.{ℕ, String, List, Option, Bool}

pub data CodeChallengeMethod : Type 0 where
  s256 : CodeChallengeMethod

pub record ResponseType : Type 0 where
  pub code : Bool
  pub token : Bool
  pub id_token : Bool

pub record AuthCode : Type 0 where
  pub id : ℕ
  pub code : String
  pub client_id : ℕ
  pub user_id : ℕ
  pub realm_id : ℕ
  pub redirect_uri : String
  pub scope : List String
  pub code_challenge : String
  pub code_challenge_method : CodeChallengeMethod
  pub nonce : Option String
  pub used : Bool
  pub claims_request : Option String
  pub display : Option String
  pub response_type : ResponseType
  pub acr_values : List String
  pub claims_locales : List String
  pub expires_at : ℕ
  pub response_mode : Option String
  pub authorization_details : Option String
  pub resource : List String
  pub auth_acr : Option String
  pub auth_amr : List String
