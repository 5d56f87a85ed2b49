-- ===== src/Flows/Password/Setting.antt =====
-- What `PasswordFlow::execute` is given and answers.
use open_id_connect_wasi_hub.Prelude.{ℕ, String, List, Option, Bool}
use open_id_connect_wasi_hub.Error.{Result}
use open_id_connect_wasi_hub.Models.{Json, User, AuditEvent}
use open_id_connect_wasi_hub.Actions.{AuthenticationFlowConfig}
use open_id_connect_wasi_hub.Db.Tables.{Db}
use open_id_connect_wasi_hub.Db.Attempt.{Attempt}
use open_id_connect_wasi_hub.Flows.State.{OidcState}

-- The arguments of `execute`.
pub record SignInRequest : Type 0 where
  pub email : String
  pub password : String
  pub client_id : Option String
  pub realm_name : Option String
  pub dpop_jkt : Option String
  pub mfa_proof : Option Json
  pub requested_scopes : List String
  pub requested_acr_values : List String
  pub kerberos_token : Option String

-- The directories (crates/oidc-oidc/src/federation.rs), the second factor
-- (crates/oidc-oidc/src/endpoints/mfa.rs), Argon2, the reading of the realm's JSON, `LOWER` of the
-- database and the workflows that an audit event starts.
pub record SignInHost : Type 0 where
  pub state : OidcState
  pub authenticate_directory : ℕ → String → String → Attempt Db (Option (User × String))
  pub authenticate_kerberos_directory : ℕ → String → Attempt Db (Option User)
  pub verify_password : String → String → Result Bool
  pub verify_login : ℕ → ℕ → ℕ → Json → Attempt Db (Option (List String))
  pub begin_login : ℕ → ℕ → ℕ → Attempt Db Json
  pub flow_of_config : Json → AuthenticationFlowConfig
  pub lower : String → String
  pub dispatch_event : AuditEvent → Db → Db

-- New identifiers and the clock where an event or a challenge reads it, beside those of a grant.
pub record SignInDraw : Type 0 where
  pub event_id : ℕ
  pub consent_id : ℕ
  pub challenge_id : ℕ
  pub action_token : Result String
  pub logged_at : ℕ

pub record PasswordFlowResult : Type 0 where
  pub access_token : String
  pub refresh_token : String
  pub id_token : String
  pub token_type : String
  pub expires_in : ℕ
  pub session_id : ℕ
  pub user_id : ℕ
  pub user_email : String
  pub user_username : Option String
  pub user_given_name : Option String
  pub user_family_name : Option String

pub record TermsText : Type 0 where
  pub version : String
  pub text : String

pub record RequiredActionChallenge : Type 0 where
  pub required_actions : List String
  pub action_token : String
  pub expires_in : ℕ
  pub terms : Option TermsText
  pub user_email : String
  pub realm : String

pub data PasswordFlowOutcome : Type 0 where
  authenticated : PasswordFlowResult → PasswordFlowOutcome
  mfa_required : Json → PasswordFlowOutcome
  required_actions : RequiredActionChallenge → PasswordFlowOutcome
  mfa_rejected : PasswordFlowOutcome
