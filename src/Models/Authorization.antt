-- ===== src/Models/Authorization.antt =====
-- crates/oidc-core/src/models/authorization_service.rs: protected resources, the policies and
-- permissions that guard them, and what stands behind a requesting party token.
-- `ClientScopeAssignment` of crates/oidc-core/src/models/protocol_mapper.rs.
use open_id_connect_wasi_hub.Prelude.{ℕ, String, List, Option, Bool}
use open_id_connect_wasi_hub.Models.Clients.{Json}

pub record ProtectedResource : Type 0 where
  pub id : ℕ
  pub realm_id : ℕ
  pub resource_server_id : ℕ
  pub owner_id : Option ℕ
  pub name : String
  pub display_name : Option String
  pub resource_type : Option String
  pub uris : List String
  pub scopes : List String
  pub attributes : Json
  pub icon_uri : Option String
  pub created_at : ℕ
  pub updated_at : ℕ

pub record AuthorizationPolicy : Type 0 where
  pub id : ℕ
  pub realm_id : ℕ
  pub resource_server_id : ℕ
  pub name : String
  pub description : Option String
  pub policy_type : String
  pub logic : String
  pub config : Json
  pub created_at : ℕ
  pub updated_at : ℕ

pub record AuthorizationPermission : Type 0 where
  pub id : ℕ
  pub realm_id : ℕ
  pub resource_server_id : ℕ
  pub name : String
  pub description : Option String
  pub resources : List ℕ
  pub scopes : List String
  pub policies : List ℕ
  pub decision_strategy : String
  pub created_at : ℕ
  pub updated_at : ℕ

pub record PermissionTicket : Type 0 where
  pub id : ℕ
  pub realm_id : ℕ
  pub resource_server_id : ℕ
  pub requester_id : Option ℕ
  pub resource_id : ℕ
  pub scopes : List String
  pub granted : Bool
  pub used : Bool
  pub expires_at : ℕ
  pub created_at : ℕ

pub record AuthorizationContext : Type 0 where
  pub subject_id : Option ℕ
  pub client_id : String
  pub owner_id : Option ℕ
  pub roles : List String
  pub groups : List String
  pub user_attributes : Json
  pub resource_attributes : Json
  pub token_claims : Json
  pub now : ℕ

pub record RptGrant : Type 0 where
  pub id : ℕ
  pub realm_id : ℕ
  pub resource_server_id : ℕ
  pub subject_id : ℕ
  pub client_id : ℕ
  pub permissions : String
  pub revoked : Bool
  pub expires_at : ℕ
  pub created_at : ℕ

-- With the client of the row of `client_scopes`.
pub record ScopeAssignment : Type 0 where
  pub client_id : ℕ
  pub scope_id : ℕ
  pub name : String
  pub description : Option String
  pub enabled : Bool
  pub assignment_type : String
