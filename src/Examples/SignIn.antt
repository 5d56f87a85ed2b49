-- ===== src/Examples/SignIn.antt =====
-- Sign-ins, client credentials and required actions on the realm of Fixture.
use open_id_connect_wasi_hub.Prelude.{
  ◌≡◌, ◌||◌, refl, String, List, [], ◌∷◌, ◌++◌, map, none, some, true, false, contains, all,
  string_eq, is_blank, is_whitespace,
}
use open_id_connect_wasi_hub.Error.{ok, err}
use open_id_connect_wasi_hub.Models.{User, ScopeAssignment}
use open_id_connect_wasi_hub.Actions.{
  verify_email, configure_mfa, kind_eq, default_flow, normal_order, AuthenticationFlowConfig,
  as_str, from_str,
}
use open_id_connect_wasi_hub.Actions.Store.{ActionTables, has_mfa, listed}
use open_id_connect_wasi_hub.Actions.Pending.{pending_actions, position}
use open_id_connect_wasi_hub.Actions.Needed.{is_needed, contains-pending_actions}
use open_id_connect_wasi_hub.Actions.Order.{
  Ascending, pending_actions-Ascending, contains-normal_order,
}
use open_id_connect_wasi_hub.Db.Tables.{Db}
use open_id_connect_wasi_hub.Db.Scopes.{
  list_by_client, crate_scope_allowed, enabled_names, enabled_defaults, resolve_names_for_client,
}
use open_id_connect_wasi_hub.Db.Scopes.Resolution.{resolve_names_for_client_sound}
use open_id_connect_wasi_hub.Flows.ClientCredentials
use open_id_connect_wasi_hub.Flows.ClientCredentials.{ClientToken, requested_or_allowed}
use open_id_connect_wasi_hub.Flows.ClientCredentials.Issuance.{IsOwnSession, credentials_sound}
use open_id_connect_wasi_hub.Flows.Password.Setting.{
  SignInRequest, SignInHost, SignInDraw, PasswordFlowResult, authenticated,
}
use open_id_connect_wasi_hub.Flows.Password.Credentials.{
  failure_count, invalid_credentials, check_input, identify, admit, realm_of, check_failures,
  resolve_user, local_user, check_user, is_valid, refuse_unless, client_of,
}
use open_id_connect_wasi_hub.Flows.Password.Tokens.{issue, scopes_of, result_of}
use open_id_connect_wasi_hub.Db.Attempt.{◌>>=◌}
use open_id_connect_wasi_hub.Db.Audit.{count_recent_failures, user_of_email}
use open_id_connect_wasi_hub.Flows.Password.SignIn
use open_id_connect_wasi_hub.Flows.Password.Failures.{unattempted, failed, failure_count-Failing}
use open_id_connect_wasi_hub.Flows.Password.Success.{IsSignedIn, sign_in_sound}
use open_id_connect_wasi_hub.Examples.Fixture.{state, client, user, realm, database, draw_at}
use open_id_connect_wasi_hub.Db.Transaction.{with_transaction}
use open_id_connect_wasi_hub.Flows.Claims.{token_type_of}
use open_id_connect_wasi_hub.Db.Directory.{
  find_realm_by_name, find_user_by_email, is_managed_user_blocked,
  find_client_by_client_id_in_realm,
}

abbrev assignments : List ScopeAssignment
assignments =
    record {
      client_id = 1;
      scope_id = 20;
      name = "openid";
      description = none;
      enabled = true;
      assignment_type = "default";
    }
    ∷ record {
      client_id = 1;
      scope_id = 21;
      name = "mail";
      description = none;
      enabled = true;
      assignment_type = "optional";
    }
    ∷ []

resolved :
    resolve_names_for_client 1 ("mail:read" ∷ []) [] assignments ≡ ok ("mail:read" ∷ "openid" ∷ [])
unfolding resolve_names_for_client crate_scope_allowed list_by_client
resolved = refl

resolve_names_for_client_sound_example :
    (all
        (λ name. crate_scope_allowed name ([] ++ enabled_names (list_by_client 1 assignments)))
        ("mail:read" ∷ [])
      ≡ true)
    × (contains {A = String} ("mail:read" ∷ "openid" ∷ []) "openid" ≡ (
        contains {A = String} ("mail:read" ∷ []) "openid"
        || contains {A = String}
            (map (λ a. a.name) (enabled_defaults (list_by_client 1 assignments)))
            "openid"))
resolve_names_for_client_sound_example =
    resolve_names_for_client_sound 1 ("mail:read" ∷ []) [] ("mail:read" ∷ "openid" ∷ []) assignments
      "openid" resolved

abbrev scoped : Db
scoped = record database { client_scopes = assignments }

abbrev own_token : ClientToken
own_token = record {
  access_token = "access";
  token_type = "Bearer";
  expires_in = 900;
  scope = "mail openid";
}

abbrev served : Db
served = (ClientCredentials.execute state client ("mail" ∷ []) none (draw_at 60 40) scoped).1

serves :
    ClientCredentials.execute state client ("mail" ∷ []) none (draw_at 60 40) scoped
    ≡ (ok own_token, served)
unfolding ClientCredentials.execute with_transaction ClientCredentials.credentials_body
    ClientCredentials.resolve_scopes resolve_names_for_client crate_scope_allowed list_by_client
    ClientCredentials.issue token_type_of
serves = refl

credentials_sound_example :
    IsOwnSession state client ("mail" ∷ []) scoped served (draw_at 60 40) own_token
credentials_sound_example =
    credentials_sound state client ("mail" ∷ []) none (draw_at 60 40) scoped served own_token serves

-- A user with a password in the realm `main`.
abbrev member : User
member = record user { password_hash = some "hash" }

abbrev peopled : Db
peopled = record scoped { users = member ∷ [] }

abbrev pub host : SignInHost
host = record {
  state = state;
  authenticate_directory = λ realm_id identifier password db. (ok none, db);
  authenticate_kerberos_directory = λ realm_id token db. (ok none, db);
  verify_password = λ password hash. ok (contains {A = String} ("correct horse" ∷ []) password);
  verify_login = λ u r c proof db. (ok none, db);
  begin_login = λ u r c db. (ok "challenge", db);
  flow_of_config = λ config. default_flow;
  lower = λ name. name;
  dispatch_event = λ event db. db;
}

abbrev right : SignInRequest
right = record {
  email = "a@b";
  password = "correct horse";
  client_id = some "client";
  realm_name = some "main";
  dpop_jkt = none;
  mfa_proof = none;
  requested_scopes = "mail" ∷ [];
  requested_acr_values = [];
  kerberos_token = none;
}

abbrev wrong : SignInRequest
wrong = record right { password = "battery staple" }

abbrev sign_in_draw : SignInDraw
sign_in_draw = record {
  event_id = 70;
  consent_id = 71;
  challenge_id = 72;
  action_token = ok "action";
  logged_at = 40;
}

abbrev signed_in : Db
signed_in = (SignIn.execute host right (draw_at 61 40) sign_in_draw peopled).1

abbrev welcome : PasswordFlowResult
welcome = record {
  access_token = "access";
  refresh_token = "fresh-token";
  id_token = "identity";
  token_type = "Bearer";
  expires_in = 900;
  session_id = 61;
  user_id = 2;
  user_email = "a@b";
  user_username = none;
  user_given_name = none;
  user_family_name = none;
}

signs_in :
    SignIn.execute host right (draw_at 61 40) sign_in_draw peopled
    ≡ (ok (authenticated welcome), signed_in)
unfolding SignIn.execute check_input is_blank is_whitespace with_transaction ◌>>=◌ identify admit
    realm_of find_realm_by_name check_failures failure_count count_recent_failures user_of_email
    resolve_user local_user find_user_by_email check_user is_managed_user_blocked is_valid
    refuse_unless client_of find_client_by_client_id_in_realm SignIn.check_factor has_mfa
    SignIn.conclude SignIn.actions_of pending_actions SignIn.challenge_or_authenticate
    SignIn.authenticate issue scopes_of requested_or_allowed resolve_names_for_client token_type_of
    result_of default_flow listed crate_scope_allowed list_by_client
signs_in = refl

sign_in_sound_example : IsSignedIn host right (draw_at 61 40) sign_in_draw peopled signed_in welcome
sign_in_sound_example =
    sign_in_sound host right (draw_at 61 40) sign_in_draw peopled signed_in welcome signs_in

refuses :
    SignIn.execute host wrong (draw_at 61 40) sign_in_draw peopled
    ≡ (err invalid_credentials, peopled)
unfolding SignIn.execute check_input is_blank is_whitespace with_transaction ◌>>=◌ identify admit
    realm_of find_realm_by_name check_failures failure_count count_recent_failures user_of_email
    resolve_user local_user find_user_by_email check_user is_managed_user_blocked is_valid
    refuse_unless
refuses = refl

failure_count-Failing_example :
    failure_count wrong realm 41 peopled ≡ failure_count wrong realm 41 peopled
failure_count-Failing_example = failure_count-Failing host peopled peopled wrong realm 41 (
    failed peopled peopled peopled wrong (draw_at 61 40) sign_in_draw invalid_credentials
      (unattempted peopled) refuses)

abbrev strict : AuthenticationFlowConfig
strict = record default_flow {
  enabled = true;
  require_verified_email = true;
  require_complete_profile = true;
  require_mfa = true;
}

contains-pending_actions_example :
    contains (pending_actions strict user database.actions) configure_mfa
    ≡ is_needed strict user database.actions configure_mfa
contains-pending_actions_example =
    contains-pending_actions strict user database.actions configure_mfa

-- The order that `normalize` makes of one that names a single kind.
abbrev ordered : AuthenticationFlowConfig
ordered = record strict { action_order = normal_order (configure_mfa ∷ []) }

pending_actions-Ascending_example :
    Ascending (position ordered.action_order) (pending_actions ordered user database.actions)
pending_actions-Ascending_example =
    pending_actions-Ascending ordered user database.actions
      (contains-normal_order (configure_mfa ∷ []))

-- An order that leaves kinds out lets an action through twice: the one stored for the user and the
-- one that the flow requires are not next to each other.
abbrev listed_twice : ActionTables
listed_twice = record database.actions {
  required_actions =
      record { user_id = 2; action = "verify_email" }
      ∷ record { user_id = 2; action = "configure_mfa" }
      ∷ [];
}

unordered :
    pending_actions
      (record strict { action_order = []; require_complete_profile = false })
      user
      listed_twice
    ≡ verify_email ∷ configure_mfa ∷ verify_email ∷ configure_mfa ∷ []
unfolding pending_actions default_flow has_mfa listed from_str as_str
unordered = refl
