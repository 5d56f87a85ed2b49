-- ===== src/Examples/Permits.antt =====
-- A permission ticket on the realm of Fixture: one resource, guarded by a policy of its owner.
use open_id_connect_wasi_hub.Prelude.{ℕ, ◌≡◌, refl, arith, [], ◌∷◌, none, some, true, false}
use open_id_connect_wasi_hub.Error.{ok}
use open_id_connect_wasi_hub.Models.{
  ProtectedResource, AuthorizationPolicy, AuthorizationPermission, PermissionTicket,
}
use open_id_connect_wasi_hub.Db.Tables.{Db}
use open_id_connect_wasi_hub.Policies.Permissions.{JsonHost, decide, applies_to, evaluate, matched}
use open_id_connect_wasi_hub.Policies.Permissions.Strategies.{carried, decide_lem}
use open_id_connect_wasi_hub.Endpoints.Permissions.Granted.{PermittedInTurn}
use open_id_connect_wasi_hub.Endpoints.UmaTicket.{
  UmaHost, UmaDraw, UmaRequest, Approved, RptResponse, check_ticket_grant, decide_grant,
  uma_ticket_grant, use_up, requester_of, claimed_user, previous_grant, select, granted_to,
  exchange_ticket, issue_rpt, sign_rpt,
}
use open_id_connect_wasi_hub.Endpoints.UmaTicket.SingleUse.{uma_ticket_grant_sound, ticket_twice}
use open_id_connect_wasi_hub.Endpoints.Permissions.{
  evaluate_requests, permit, resource_of, is_allowed, answers, context_of, role_names,
}
use open_id_connect_wasi_hub.Db.Rpts.{create_rpt}
use open_id_connect_wasi_hub.Flows.Claims.{token_type_of}
use open_id_connect_wasi_hub.Examples.Fixture.{ext, client, user, state, database}
use open_id_connect_wasi_hub.Examples.Tokens.{claims, inspector}
use open_id_connect_wasi_hub.Db.Directory.{find_user_by_id, find_client_by_id, find_groups_by_user}
use open_id_connect_wasi_hub.Db.Authorization.{
  find_active_ticket, is_unused, find_resource, list_permissions, list_policies, consume_ticket,
}
use open_id_connect_wasi_hub.Token.{sha2_256_hex}

abbrev json : JsonHost
json = record {
  external = ext;
  get = λ value key. none;
  as_str = λ value. none;
  as_array = λ value. none;
  as_u64 = λ value. none;
  is_null_value = λ value. false;
  values_equal = λ a b. false;
  null = "null";
  parse_from_rfc3339 = λ text. none;
  num_days_from_monday = λ now. 0;
}

abbrev host : UmaHost
host = record {
  json = json;
  inspector = inspector;
  json_array = λ values. "[]";
  permission_json = λ granted. "{}";
  with_scopes = λ value scopes. value;
  rpt_claims = λ permissions id. "{}";
  effective_roles = λ user_id db. [];
  distinct = λ texts. texts;
}

abbrev resource : ProtectedResource
resource = record {
  id = 20;
  realm_id = 5;
  resource_server_id = 1;
  owner_id = some 2;
  name = "album";
  display_name = none;
  resource_type = none;
  uris = [];
  scopes = "view" ∷ "print" ∷ [];
  attributes = "{}";
  icon_uri = none;
  created_at = 0;
  updated_at = 0;
}

abbrev owner_only : AuthorizationPolicy
owner_only = record {
  id = 30;
  realm_id = 5;
  resource_server_id = 1;
  name = "owner";
  description = none;
  policy_type = "owner";
  logic = "positive";
  config = "{}";
  created_at = 0;
  updated_at = 0;
}

abbrev viewing : AuthorizationPermission
viewing = record {
  id = 40;
  realm_id = 5;
  resource_server_id = 1;
  name = "view";
  description = none;
  resources = [];
  scopes = "view" ∷ [];
  policies = 30 ∷ [];
  decision_strategy = "consensus";
  created_at = 0;
  updated_at = 0;
}

abbrev ticket : PermissionTicket
ticket = record {
  id = 50;
  realm_id = 5;
  resource_server_id = 1;
  requester_id = none;
  resource_id = 20;
  scopes = "view" ∷ [];
  granted = false;
  used = false;
  expires_at = 300;
  created_at = 0;
}

abbrev tables : Db
tables = record database {
  authorization_resources = resource ∷ [];
  authorization_policies = owner_only ∷ [];
  authorization_permissions = viewing ∷ [];
  authorization_permission_tickets = record { token_hash = "xx"; ticket = ticket } ∷ [];
}

abbrev request : UmaRequest
request = record {
  claim_token = some "claim";
  claim_token_format = none;
  rpt = none;
  ticket = some "ab";
  audience = none;
  permission = none;
}

abbrev draw_now : ℕ → UmaDraw
draw_now now = record {
  connect = ok tt;
  rpt_found_at = now;
  ticket_found_at = now;
  clock = λ turn. now;
  consumed_at = now;
  rpt_id = 60;
  issued_at = now;
}

abbrev checked : Approved
checked = record {
  user = user;
  claims = claims;
  previous = none;
  selection = record {
    resource_server_id = 1;
    requested = (20, "view" ∷ []) ∷ [];
    ticket_id = some 50;
  };
}

abbrev response : RptResponse
response = record {
  access_token = "access";
  token_type = "Bearer";
  expires_in = 900;
  scope = "";
  permissions = "[]";
  upgraded = false;
}

checked_once : check_ticket_grant state host client request (draw_now 50) tables ≡ ok checked
unfolding check_ticket_grant claimed_user find_user_by_id previous_grant select find_active_ticket
    sha2_256_hex is_unused
checked_once = refl

granted_once :
    (uma_ticket_grant state host client request none (draw_now 50) tables).0 ≡ ok response
unfolding uma_ticket_grant check_ticket_grant claimed_user find_user_by_id previous_grant select
    find_active_ticket sha2_256_hex is_unused decide_grant granted_to evaluate_requests permit
    resource_of find_resource is_allowed list_permissions applies_to consume_ticket list_policies
    find_client_by_id find_groups_by_user create_rpt answers context_of role_names exchange_ticket
    issue_rpt sign_rpt use_up token_type_of decide evaluate matched
granted_once = refl

decide_lem_example : decide viewing (true ∷ false ∷ true ∷ []) ≡ carried "consensus" 2 1
decide_lem_example = decide_lem viewing (true ∷ false ∷ true ∷ [])

ticket_twice_example : ¬ (
    decide_grant state host client checked none
      (draw_now 60)
      (decide_grant state host client checked none (draw_now 50) tables).1
    ≡ (ok response, tables))
ticket_twice_example =
    ticket_twice state host client client checked checked none none (draw_now 50) (draw_now 60)
      tables tables 50 response refl refl (omega arith)

uma_ticket_grant_sound_example :
    (approved : Approved) × (check_ticket_grant state host client request (draw_now 50) tables
      ≡ ok approved)
    × ((use_up state host approved.selection.ticket_id true (draw_now 50) tables).0 ≡ true)
    × PermittedInTurn host.json approved.selection.resource_server_id
        (requester_of state host client approved tables)
        tables
        (draw_now 50).clock
        0
        approved.selection.requested
uma_ticket_grant_sound_example =
    uma_ticket_grant_sound state host client request none (draw_now 50) tables
      (uma_ticket_grant state host client request none (draw_now 50) tables).1 response
      (λ i.
        (granted_once i, (uma_ticket_grant state host client request none (draw_now 50) tables).1))
