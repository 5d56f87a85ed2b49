-- ===== src/Flows/State.antt =====
-- What a grant reads beside the database: the token service (the trait of
-- crates/oidc-core/src/traits/token_service.rs), the claim sources of crates/oidc-oidc/src
-- (organization_claims.rs, role_claims.rs, protocol_mappers.rs), JWE of flows/mod.rs, and the settings
-- of crates/oidc-oidc/src/state.rs. They are given to the model as operations that may fail.
use open_id_connect_wasi_hub.Prelude.{ℕ, String, List, Option, Bool}
use open_id_connect_wasi_hub.Error.{Result}
use open_id_connect_wasi_hub.External.{External}
use open_id_connect_wasi_hub.Models.{Json, User, Client, OfflineSessionPolicy}
use open_id_connect_wasi_hub.Db.Tables.{Db}
use open_id_connect_wasi_hub.Db.Transaction.{Link}

pub record IdTokenExtraClaims : Type 0 where
  pub custom_claims : Json
  pub additional_audiences : List String
  pub nonce : Option String
  pub at_hash : Option String
  pub c_hash : Option String
  pub auth_time : Option ℕ
  pub sid : Option String
  pub email : Option String
  pub email_verified : Option Bool
  pub name : Option String
  pub given_name : Option String
  pub family_name : Option String
  pub middle_name : Option String
  pub nickname : Option String
  pub preferred_username : Option String
  pub profile : Option String
  pub picture : Option String
  pub website : Option String
  pub gender : Option String
  pub birthdate : Option String
  pub zoneinfo : Option String
  pub locale : Option String
  pub phone_number : Option String
  pub phone_number_verified : Option Bool
  pub updated_at : Option ℕ
  pub acr : Option String
  pub amr : Option (List String)
  pub azp : Option String
  pub address : Option Json
  pub roles : Option (List String)
  pub realm_access : Option Json
  pub resource_access : Option Json
  pub groups : Option (List String)
  pub organization : Option Json

pub record AccessTokenExtraClaims : Type 0 where
  pub custom_claims : Json
  pub additional_audiences : List String
  pub organization : Option Json
  pub realm_access : Option Json
  pub resource_access : Option Json

-- The arguments of `issue_access_token_with_extra`.
pub record AccessTokenRequest : Type 0 where
  pub subject : String
  pub audience : String
  pub scopes : List String
  pub dpop_jkt : Option String
  pub authorization_details : Option Json
  pub resource : Option (List String)
  pub extra : AccessTokenExtraClaims

pub record TokenService : Type 0 where
  pub issue_access_token_with_extra : AccessTokenRequest → Result String
  pub issue_id_token : String → String → IdTokenExtraClaims → Result String

pub record TokenRoleClaims : Type 0 where
  pub roles : Option (List String)
  pub realm_access : Option Json
  pub resource_access : Option Json

pub record MappedClaims : Type 0 where
  pub access_token : Json
  pub id_token : Json
  pub userinfo : Json
  pub access_audiences : List String
  pub id_audiences : List String

-- A member of an object that `json!` builds.
pub data JsonField : Type 0 where
  text : String → JsonField
  flag : Bool → JsonField

pub record OidcState : Type 0 where
  pub external : External
  pub pairwise_salt : String
  pub token_service_for_realm : ℕ → Result TokenService
  pub resolve_organization_claim : Db → ℕ → List String → Result (Option Json)
  pub resolve_role_claims : Db → ℕ → Result TokenRoleClaims
  pub resolve_mapped_claims : Db → ℕ → Option User → List String → Result MappedClaims
  pub maybe_encrypt_id_token : String → Client → Result String
  pub address_claim : User → Option Json
  -- `OfflineSessionPolicy::from_realm_config`, which reads JSON.
  pub offline_policy_of_config : Json → OfflineSessionPolicy
  -- `Map::insert` and `json!` of serde_json.
  pub insert_claim : Json → String → String → Json
  pub json_object : List (String × JsonField) → Json
  -- `verify_access_token_with_claims_any_issuer`
  pub verify_access_token : String → Result (Unit {0})

-- What one execution of a grant draws from its surroundings: random values, new identifiers, and the
-- clock at the places where the source reads it.
pub record Draw : Type 0 where
  pub link : Link
  pub db_now : ℕ
  pub sid : Result String
  pub refresh_token : Result String
  pub token_family_id : ℕ
  pub session_id : ℕ
  pub auth_time : ℕ
  pub now : ℕ

-- The JSON of a successful response.
pub record TokenResponse : Type 0 where
  pub access_token : String
  pub token_type : String
  pub expires_in : ℕ
  pub refresh_token : String
  pub id_token : String
  pub scope : String
