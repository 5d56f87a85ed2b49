-- ===== src/Endpoints/Permissions.antt =====
-- `evaluate_requests` of crates/oidc-oidc/src/endpoints/authorization_services.rs: which of the
-- requested permissions a user is granted on the resources of a server.
pub mod Granted
use Prim.Native.String
use open_id_connect_wasi_hub.Prelude.{
  ℕ, zero, suc, ◌+◌, String, List, [], ◌∷◌, map, Option, none, some, Bool, true, false, not, ◌==◌,
  nat_eq, string_eq, find, filter, any, all, contains, if◌then◌else◌,
}
use open_id_connect_wasi_hub.Models.{
  Json, User, ProtectedResource, AuthorizationPolicy, AuthorizationPermission, AuthorizationContext,
}
use open_id_connect_wasi_hub.Db.Tables.{Db}
use open_id_connect_wasi_hub.Db.Directory.{find_groups_by_user}
use open_id_connect_wasi_hub.Db.Authorization.{find_resource, list_policies, list_permissions}
use open_id_connect_wasi_hub.Policies.Permissions.{JsonHost, evaluate, applies_to, decide}

-- The object of `json!` in the list of what is granted.
pub record GrantedPermission : Type 0 where
  pub rsid : ℕ
  pub rsname : String
  pub scopes : List String

abbrev pub PermissionRequest : Type 0
PermissionRequest = ℕ × List String

-- Who asks, through which client, with which claims; the names of the user's effective roles come
-- from a recursive query, and stand here as its rows.
pub record Requester : Type 0 where
  pub user : User
  pub requesting_client : String
  pub token_claims : Json
  pub role_rows : List (String × Option String)

abbrev qualified : String → Option String → String
qualified name none = ""
qualified name (some client_id) = String.◌++◌ client_id (String.◌++◌ ":" name)

abbrev spread : List (String × Option String) → List String
spread [] = []
spread ((name, client_id) ∷ rows) = name ∷ qualified name client_id ∷ spread rows

unfoldable pub role_names : List (String × Option String) → List String
role_names rows = filter (λ value. not (value == "")) (spread rows)

unfoldable pub context_of : Requester → ProtectedResource → ℕ → Db → AuthorizationContext
context_of requester resource now db = record {
  subject_id = some requester.user.id;
  client_id = requester.requesting_client;
  owner_id = resource.owner_id;
  roles = role_names requester.role_rows;
  groups = map (λ group. group.name) (find_groups_by_user requester.user.id db);
  user_attributes = requester.user.attributes;
  resource_attributes = resource.attributes;
  token_claims = requester.token_claims;
  now = now;
}

-- The resource, if it belongs to the server.
unfoldable pub resource_of : ℕ → ℕ → Db → Option ProtectedResource
resource_of server_id resource_id db = elim (find_resource resource_id db.authorization_resources) [
  | none ↦ none
  | some resource ↦ if resource.resource_server_id == server_id then some resource else none
]

module _ (host : JsonHost) where
  answer : AuthorizationContext → Option AuthorizationPolicy → Bool
  answer context none = false
  answer context (some policy) = evaluate host policy context

  -- What the policies of a permission say; a policy that is missing disagrees.
  unfoldable pub answers :
      AuthorizationContext → List AuthorizationPolicy → AuthorizationPermission → List Bool
  unfolding answer
  answers context policies permission =
      map (λ id. answer context (find (λ policy. policy.id == id) policies)) permission.policies

  unfoldable pub is_allowed :
      AuthorizationContext
      → List AuthorizationPermission
      → List AuthorizationPolicy
      → PermissionRequest
      → Bool
  is_allowed context permissions policies (resource_id, scopes) =
      any (λ permission. decide permission (answers context policies permission))
        (filter (λ permission. applies_to permission resource_id scopes) permissions)

  module _ (server_id : ℕ) (requester : Requester) (db : Db) where
    -- One turn of the loop, with its reading of the clock.
    unfoldable pub permit : ℕ → PermissionRequest → Option GrantedPermission
    permit now (resource_id, scopes) = elim (resource_of server_id resource_id db) [
      | none ↦ none
      | some resource ↦
          if not (all (λ scope. contains resource.scopes scope) scopes)
          then none
          else if is_allowed (context_of requester resource now db)
              (list_permissions server_id db.authorization_permissions)
              (list_policies server_id db.authorization_policies) (resource_id, scopes)
          then some (record { rsid = resource.id; rsname = resource.name; scopes = scopes })
          else none
    ]

    -- `clock turn` is what `Utc::now()` gives in that turn.
    unfoldable pub evaluate_requests : (ℕ → ℕ) → ℕ → List PermissionRequest → List GrantedPermission
    evaluate_requests clock turn [] = []
    evaluate_requests clock turn (request ∷ requested) =
        let rest = evaluate_requests clock (turn + 1) requested in
        elim (permit (clock turn) request) [ none ↦ rest | some granted ↦ granted ∷ rest ]
