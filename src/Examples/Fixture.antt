-- ===== src/Examples/Fixture.antt =====
-- A realm with one client and one user, services that always answer, and a toy digest.
use Prim.Native.String
use open_id_connect_wasi_hub.Prelude.{ℕ, refl, pos, String, List, [], ◌∷◌, none, some, true, false}
use open_id_connect_wasi_hub.Error.{ok}
use open_id_connect_wasi_hub.External.{External}
use open_id_connect_wasi_hub.Models.{
  Client, confidential, Realm, User, AuthCode, s256, Session, DeviceCode,
}
use open_id_connect_wasi_hub.Db.Tables.{Db}
use open_id_connect_wasi_hub.Db.Transaction.{Link, IsUp}
use open_id_connect_wasi_hub.Flows.State.{OidcState, Draw, TokenService}

-- A text of one letter per byte.
abbrev unary : List ℕ → String
unary [] = ""
unary (_ ∷ bs) = String.◌++◌ "x" (unary bs)

abbrev pub ext : External
ext = record {
  sha256 = λ bytes. bytes;
  base64_encode_url_safe_no_pad = unary;
  hex_encode = unary;
  parse_url = λ url. none;
  uuid_text = λ id. "client";
  decimal = λ p. "443";
}

abbrev tokens : TokenService
tokens = record {
  issue_access_token_with_extra = λ r. ok "access";
  issue_id_token = λ subject audience extra. ok "identity";
}

abbrev pub state : OidcState
state = record {
  external = ext;
  pairwise_salt = "salt";
  token_service_for_realm = λ realm_id. ok tokens;
  resolve_organization_claim = λ db user_id scope. ok none;
  resolve_role_claims =
      λ db user_id. ok (record { roles = none; realm_access = none; resource_access = none });
  resolve_mapped_claims = λ db client_id user scope. ok (record {
    access_token = "{}";
    id_token = "{}";
    userinfo = "{}";
    access_audiences = [];
    id_audiences = [];
  });
  maybe_encrypt_id_token = λ token client. ok token;
  address_claim = λ user. none;
  insert_claim = λ claims name value. claims;
  json_object = λ fields. "{}";
  verify_access_token = λ token. ok tt;
  offline_policy_of_config = λ config. record { idle_seconds = pos 600; max_seconds = pos 1000 };
}

abbrev pub link : Link
link = record { connect = ok tt; begin = ok tt; commit = ok tt }

pub link-IsUp : IsUp link
link-IsUp = record { connects = refl; begins = refl; commits = refl }

-- One request's draws, with the clock at `now`.
abbrev pub draw_at : ℕ → ℕ → Draw
draw_at id now = record {
  link = link;
  db_now = now;
  sid = ok "sid";
  refresh_token = ok "fresh-token";
  token_family_id = 7;
  session_id = id;
  auth_time = now;
  now = now;
}

abbrev pub client : Client
client = record {
  id = 1;
  realm_id = 5;
  client_id = "client";
  client_type = confidential;
  client_secret_hash = none;
  name = "";
  redirect_uris = [];
  allowed_scopes = [];
  allowed_grant_types = [];
  pkce_required = false;
  enabled = true;
  deleted_at = none;
  token_endpoint_auth_method = "";
  jwks_uri = none;
  jwks = none;
  request_uris = [];
  client_secret_encrypted = none;
  frontchannel_logout_uri = none;
  frontchannel_logout_session_required = false;
  backchannel_logout_uri = none;
  backchannel_logout_session_required = false;
  post_logout_redirect_uris = [];
  subject_type = "public";
  sector_identifier_uri = none;
  response_modes = [];
  id_token_encrypted_response_alg = none;
  id_token_encrypted_response_enc = none;
  id_token_encryption_key_encrypted = none;
  id_token_encryption_key_pem = none;
  request_object_encryption_alg = none;
  request_object_encryption_enc = none;
  request_object_encryption_key_encrypted = none;
  request_object_encryption_key_pem = none;
}

abbrev pub user : User
user = record {
  id = 2;
  realm_id = 5;
  email = "a@b";
  email_verified = false;
  username = none;
  password_hash = none;
  given_name = none;
  family_name = none;
  middle_name = none;
  nickname = none;
  preferred_username = none;
  profile = none;
  picture = none;
  website = none;
  gender = none;
  birthdate = none;
  zoneinfo = none;
  phone_number = none;
  phone_number_verified = none;
  street_address = none;
  locality = none;
  region = none;
  postal_code = none;
  country = none;
  locale = "en";
  attributes = "";
  enabled = true;
  deleted_at = none;
  updated_at = 0;
}

abbrev pub realm : Realm
realm = record {
  id = 5;
  name = "main";
  display_name = "";
  enabled = true;
  config = "";
  deleted_at = none;
}

abbrev pub auth_code : AuthCode
auth_code = record {
  id = 3;
  code = "xxxx";
  client_id = 1;
  user_id = 2;
  realm_id = 5;
  redirect_uri = "uri";
  scope = "openid" ∷ [];
  code_challenge = "xxx";
  code_challenge_method = s256;
  nonce = none;
  used = false;
  claims_request = none;
  display = none;
  response_type = record { code = true; token = false; id_token = false };
  acr_values = [];
  claims_locales = [];
  expires_at = 100;
  response_mode = none;
  authorization_details = none;
  resource = [];
  auth_acr = none;
  auth_amr = [];
}

abbrev pub session : Session
session = record {
  id = 4;
  sid = "sid";
  user_id = some 2;
  realm_id = 5;
  client_id = 1;
  grant_type = "authorization_code";
  access_token_hash = "xx";
  refresh_token_hash = some "xxxxx";
  id_token_jti = none;
  scope = "openid" ∷ [];
  revoked = false;
  expires_at = 100;
  refresh_expires_at = some 1000;
  offline_session = false;
  offline_max_expires_at = none;
  created_at = 0;
  last_used_at = none;
  token_family_id = some 9;
  previous_session_id = none;
  rotated_at = none;
  reused_at = none;
  family_revoked = false;
  authorization_details = none;
  resource = [];
  acr = "urn";
  amr = [];
}

abbrev pub device_code : DeviceCode
device_code = record {
  id = 6;
  client_id = 1;
  realm_id = 5;
  device_code = "xxxxxx";
  user_code = "BCDF-GHJK";
  verification_uri = "";
  verification_uri_complete = none;
  expires_at = 500;
  interval = 5;
  used = false;
  authorized = true;
  user_id = some 2;
  scope = "openid" ∷ [];
  created_at = 0;
}

abbrev pub database : Db
database = record {
  users = user ∷ [];
  clients = client ∷ [];
  realms = realm ∷ [];
  organizations = [];
  memberships = [];
  user_groups = [];
  sessions = session ∷ [];
  auth_codes = auth_code ∷ [];
  device_codes = device_code ∷ [];
  ciba_client_configs = [];
  ciba_authentication_requests = [];
  user_consents = [];
  audit_events = [];
  authorization_rpt_grants = [];
  authorization_resources = [];
  authorization_policies = [];
  authorization_permissions = [];
  authorization_permission_tickets = [];
  client_scopes = [];
  actions = record {
    required_actions = [];
    terms_acceptances = [];
    action_sessions = [];
    totp_credentials = [];
    webauthn_credentials = [];
  };
}
