-- ===== src/Db/Tables.antt =====
-- The state of the database, as far as the modelled queries see it.
use open_id_connect_wasi_hub.Prelude.{ℕ, String, List, Option}
use open_id_connect_wasi_hub.Models.{
  Client, Realm, User, Organization, Membership, Session, AuthCode, DeviceCode, CibaClientConfig,
  CibaAuthenticationRequest, UserConsent, AuditEvent, RptGrant, ScopeAssignment, ProtectedResource,
  AuthorizationPolicy, AuthorizationPermission, PermissionTicket,
}
use open_id_connect_wasi_hub.Actions.Store.{ActionTables}

-- A row of `user_groups` joined with its group.
pub record UserGroup : Type 0 where
  pub user_id : ℕ
  pub name : String
  pub deleted_at : Option ℕ

-- A row of `authorization_permission_tickets`: the ticket, and the digest it is found by.
pub record StoredTicket : Type 0 where
  pub token_hash : String
  pub ticket : PermissionTicket

pub record Db : Type 0 where
  pub users : List User
  pub clients : List Client
  pub realms : List Realm
  pub organizations : List Organization
  pub memberships : List Membership
  pub user_groups : List UserGroup
  pub sessions : List Session
  pub auth_codes : List AuthCode
  pub device_codes : List DeviceCode
  pub ciba_client_configs : List CibaClientConfig
  pub ciba_authentication_requests : List CibaAuthenticationRequest
  pub user_consents : List UserConsent
  pub audit_events : List AuditEvent
  pub authorization_rpt_grants : List RptGrant
  pub authorization_resources : List ProtectedResource
  pub authorization_policies : List AuthorizationPolicy
  pub authorization_permissions : List AuthorizationPermission
  pub authorization_permission_tickets : List StoredTicket
  pub client_scopes : List ScopeAssignment
  pub actions : ActionTables
