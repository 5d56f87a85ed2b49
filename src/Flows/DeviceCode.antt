-- ===== src/Flows/DeviceCode.antt =====
-- crates/oidc-oidc/src/flows/device_code.rs, and the writes of
-- crates/oidc-oidc/src/endpoints/device_authorization.rs: the device grant of RFC 8628.
pub mod Polling
use open_id_connect_wasi_hub.Prelude.{
  ℕ, ◌+◌, String, List, [], ◌∷◌, Option, none, some, Bool, true, false, not, ◌==◌, ◌&&◌, string_eq,
  nat_eq, if◌then◌else◌, contains, ltb, join_spaces,
}
use open_id_connect_wasi_hub.Error.{
  Result, ok, err, ok_or, guard, ◌>>=◌, ◌>>◌, not_found, invalid_client, invalid_scope,
  expired_token, authorization_denied, authorization_pending, authentication_failed, OidcError,
}
use open_id_connect_wasi_hub.Token.{sha2_256_hex, compute_at_hash}
use open_id_connect_wasi_hub.Acr.{acr_bronze}
use open_id_connect_wasi_hub.Models.{Json, Client, User, DeviceCode, Session}
use open_id_connect_wasi_hub.Db.Tables.{Db}
use open_id_connect_wasi_hub.Db.Directory.{find_user_by_id, find_client_by_client_id}
use open_id_connect_wasi_hub.Db.Sessions.{create, find_by_id}
use open_id_connect_wasi_hub.Db.Codes.{
  create_device_code, find_by_device_code, find_by_user_code, mark_authorized,
  mark_device_code_used,
}
use open_id_connect_wasi_hub.Db.Transaction.{with_transaction, begin_with}
use open_id_connect_wasi_hub.Flows.State.{
  OidcState, Draw, TokenResponse, IdTokenExtraClaims, TokenRoleClaims, MappedClaims,
}
use open_id_connect_wasi_hub.Flows.Claims.{
  ok_or_empty, subject_for, access_extra, token_type_of, access_seconds, refresh_seconds,
}
use open_id_connect_wasi_hub.Flows.RefreshToken.{enabled_client}

-- The arguments of `execute`.
pub record Poll : Type 0 where
  pub device_code : String
  pub client_id : String
  pub dpop_jkt : Option String

-- The checks before the device code is consumed, in the order of the source. `now` is the clock,
-- `db_now` the transaction's time.
unfoldable pub validate_device :
    OidcState → Poll → ℕ → ℕ → Db → Result (DeviceCode × ℕ × User × Client)
unfolding enabled_client
validate_device st req db_now now db = do
  dc ←
      ok_or (find_by_device_code (sha2_256_hex st.external req.device_code) db_now db.device_codes)
        expired_token
  guard (st.external.uuid_text dc.client_id == req.client_id) invalid_client
  guard (not (ltb dc.expires_at now)) expired_token
  guard (not dc.used) (authorization_denied "Device code already exchanged")
  guard dc.authorized authorization_pending
  user_id ← ok_or dc.user_id authorization_pending
  user ← ok_or (find_user_by_id user_id db) (not_found "user")
  client ← enabled_client (find_client_by_client_id req.client_id db)
  ok (dc, user_id, user, client)

unfoldable pub id_token_extra :
    OidcState
    → Draw
    → User
    → Option Json
    → TokenRoleClaims
    → MappedClaims
    → String
    → IdTokenExtraClaims
id_token_extra st draw user organization roles mapped access_token = record {
  custom_claims = mapped.id_token;
  additional_audiences = mapped.id_audiences;
  nonce = none;
  at_hash = some (compute_at_hash st.external access_token);
  c_hash = none;
  auth_time = some draw.auth_time;
  sid = some (ok_or_empty draw.sid);
  email = some user.email;
  email_verified = some user.email_verified;
  name = user.username;
  given_name = user.given_name;
  family_name = user.family_name;
  middle_name = user.middle_name;
  nickname = user.nickname;
  preferred_username = user.preferred_username;
  profile = user.profile;
  picture = user.picture;
  website = user.website;
  gender = user.gender;
  birthdate = user.birthdate;
  zoneinfo = user.zoneinfo;
  locale = some user.locale;
  phone_number = user.phone_number;
  phone_number_verified = user.phone_number_verified;
  updated_at = some user.updated_at;
  acr = some acr_bronze;
  amr = some ("device_code" ∷ []);
  azp = none;
  address = none;
  roles = roles.roles;
  realm_access = roles.realm_access;
  resource_access = roles.resource_access;
  groups = none;
  organization = organization;
}

pub record Issued : Type 0 where
  pub access_token : String
  pub id_token : String
  pub refresh_token : String

-- From the check of the scopes to the new refresh token. Nothing is written here.
unfoldable pub issue : OidcState → Poll → Draw → DeviceCode → ℕ → User → Client → Db → Result Issued
issue st req draw dc user_id user client db = do
  guard (not (contains dc.scope "offline_access"))
      (invalid_scope "offline_access requires an interactive authorization code flow")
  organization ← st.resolve_organization_claim db user.id dc.scope
  roles ← st.resolve_role_claims db user.id
  mapped ← st.resolve_mapped_claims db client.id (some user) dc.scope
  service ← st.token_service_for_realm dc.realm_id
  access_token ← service.issue_access_token_with_extra (record {
    subject = subject_for st client user_id;
    audience = client.client_id;
    scopes = dc.scope;
    dpop_jkt = req.dpop_jkt;
    authorization_details = none;
    resource = none;
    extra = access_extra mapped organization roles dc.scope;
  })
  signed ←
      service.issue_id_token (subject_for st client user_id) client.client_id
        (id_token_extra st draw user organization roles mapped access_token)
  id_token ← st.maybe_encrypt_id_token signed client
  refresh_token ← draw.refresh_token
  ok (record { access_token = access_token; id_token = id_token; refresh_token = refresh_token })

unfoldable pub session_of : OidcState → Draw → DeviceCode → ℕ → Client → Issued → Session
session_of st draw dc user_id client issued = record {
  id = draw.session_id;
  sid = ok_or_empty draw.sid;
  user_id = some user_id;
  realm_id = dc.realm_id;
  client_id = client.id;
  grant_type = "urn:ietf:params:oauth:grant-type:device_code";
  access_token_hash = sha2_256_hex st.external issued.access_token;
  refresh_token_hash = some (sha2_256_hex st.external issued.refresh_token);
  id_token_jti = none;
  scope = dc.scope;
  revoked = false;
  expires_at = draw.now + access_seconds;
  refresh_expires_at = some (draw.now + refresh_seconds);
  offline_session = false;
  offline_max_expires_at = none;
  created_at = draw.now;
  last_used_at = none;
  token_family_id = some draw.token_family_id;
  previous_session_id = none;
  rotated_at = none;
  reused_at = none;
  family_revoked = false;
  authorization_details = none;
  resource = [];
  acr = acr_bronze;
  amr = "pwd" ∷ [];
}

unfoldable pub response_of : Poll → DeviceCode → Issued → TokenResponse
response_of req dc issued = record {
  access_token = issued.access_token;
  token_type = token_type_of req.dpop_jkt;
  expires_in = access_seconds;
  refresh_token = issued.refresh_token;
  id_token = issued.id_token;
  scope = join_spaces dc.scope;
}

-- `now` is the clock where the expiry is checked.
unfoldable pub poll_body : OidcState → Poll → ℕ → Draw → Db → Result (TokenResponse × Db)
unfolding session_of response_of
poll_body st req now draw before = do
  (dc, user_id, user, client) ← validate_device st req draw.db_now now before
  let db = record before { device_codes = mark_device_code_used dc.id before.device_codes }
  issued ← issue st req draw dc user_id user client db
  ok (
    response_of req dc issued,
    record db {
      sessions = create draw.db_now (session_of st draw dc user_id client issued) db.sessions;
    },
  )

-- `DeviceCodeFlow::execute`
unfoldable pub execute : OidcState → Poll → ℕ → Draw → Db → Result TokenResponse × Db
execute st req now draw db =
    begin_with draw.link.connect db (with_transaction draw.link (poll_body st req now draw) db)

-- The row that `device_authorization_handler` stores, once the client is authenticated and its
-- scopes are resolved.
pub record DeviceDraw : Type 0 where
  pub id : ℕ
  pub device_code_hash : String
  pub user_code : String
  pub verification_uri : String
  pub verification_uri_complete : String
  pub now : ℕ

unfoldable pub new_device_code : DeviceDraw → Client → ℕ → List String → DeviceCode
new_device_code draw client realm_id scopes = record {
  id = draw.id;
  client_id = client.id;
  realm_id = realm_id;
  device_code = draw.device_code_hash;
  user_code = draw.user_code;
  verification_uri = draw.verification_uri;
  verification_uri_complete = some draw.verification_uri_complete;
  expires_at = draw.now + 900;
  interval = 5;
  used = false;
  authorized = false;
  user_id = none;
  scope = scopes;
  created_at = draw.now;
}

unfoldable pub start : DeviceDraw → Client → ℕ → List String → Db → Result Db
unfolding new_device_code
start draw client realm_id scopes db = do
  guard (not (contains scopes "offline_access"))
      (invalid_scope "offline_access requires an interactive authorization code flow")
  ok (record db {
    device_codes = create_device_code (new_device_code draw client realm_id scopes) db.device_codes;
  })

-- `device_authorization_confirm_handler`, from the session identifier that the cookie holds and the
-- user code, trimmed and in upper case.
unfoldable pub confirm : ℕ → String → ℕ → Db → Result Db
confirm session_id user_code now db = do
  s ← ok_or (find_by_id session_id db.sessions) (authentication_failed "Session not found")
  user_id ← ok_or s.user_id (authentication_failed "No user in session")
  dc ←
      ok_or (find_by_user_code user_code now db.device_codes)
        (not_found "Device code not found or expired")
  ok (record db { device_codes = mark_authorized dc.id user_id db.device_codes })
