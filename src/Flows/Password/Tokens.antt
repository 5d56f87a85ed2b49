-- ===== src/Flows/Password/Tokens.antt =====
-- The tokens of a sign-in, and the session, consent and event that go with them.
use open_id_connect_wasi_hub.Prelude.{
  ◌+◌, String, List, [], ◌∷◌, none, some, false, not, string_eq, contains, if◌then◌else◌,
}
use open_id_connect_wasi_hub.Error.{Result, ok, guard, ◌>>=◌, ◌>>◌, invalid_scope}
use open_id_connect_wasi_hub.Token.{sha2_256_hex, compute_at_hash}
use open_id_connect_wasi_hub.Models.{Client, User, Session, AuditEvent, ActorType}
use open_id_connect_wasi_hub.Db.Tables.{Db}
use open_id_connect_wasi_hub.Db.Sessions.{create}
use open_id_connect_wasi_hub.Db.Consents.{grant}
use open_id_connect_wasi_hub.Db.Scopes.{resolve_names_for_client}
use open_id_connect_wasi_hub.Flows.State.{
  OidcState, Draw, IdTokenExtraClaims, TokenRoleClaims, MappedClaims, text,
}
use open_id_connect_wasi_hub.Flows.Claims.{
  subject_for, ok_or_empty, token_type_of, access_seconds, refresh_seconds,
}
use open_id_connect_wasi_hub.Flows.ClientCredentials.{requested_or_allowed}
use open_id_connect_wasi_hub.Flows.Password.Setting.{
  SignInRequest, SignInHost, SignInDraw, PasswordFlowResult,
}
use open_id_connect_wasi_hub.Flows.Password.Credentials.{Identified, log_event}

-- How the user was authenticated.
pub record Assurance : Type 0 where
  pub acr : String
  pub amr : List String

unfoldable pub id_token_extra :
    OidcState
    → Draw
    → User
    → Assurance
    → TokenRoleClaims
    → MappedClaims
    → String
    → IdTokenExtraClaims
id_token_extra st draw user assurance roles mapped access_token = record {
  custom_claims = mapped.id_token;
  additional_audiences = mapped.id_audiences;
  nonce = none;
  at_hash = some (compute_at_hash st.external access_token);
  c_hash = none;
  auth_time = some draw.auth_time;
  sid = some (ok_or_empty draw.sid);
  email = some user.email;
  email_verified = some user.email_verified;
  name = user.username;
  given_name = user.given_name;
  family_name = user.family_name;
  middle_name = user.middle_name;
  nickname = user.nickname;
  preferred_username = user.preferred_username;
  profile = user.profile;
  picture = user.picture;
  website = user.website;
  gender = user.gender;
  birthdate = user.birthdate;
  zoneinfo = user.zoneinfo;
  locale = some user.locale;
  phone_number = user.phone_number;
  phone_number_verified = user.phone_number_verified;
  updated_at = some user.updated_at;
  acr = some assurance.acr;
  amr = some assurance.amr;
  azp = none;
  address = none;
  roles = roles.roles;
  realm_access = roles.realm_access;
  resource_access = roles.resource_access;
  groups = none;
  organization = none;
}

pub record Issued : Type 0 where
  pub scopes : List String
  pub access_token : String
  pub id_token : String
  pub refresh_token : String

unfoldable pub scopes_of : SignInRequest → Client → Db → Result (List String)
scopes_of req client db = do
  guard (not (contains req.requested_scopes "offline_access"))
      (invalid_scope "offline_access requires an interactive authorization code flow")
  resolve_names_for_client client.id (requested_or_allowed client req.requested_scopes)
      client.allowed_scopes db.client_scopes

-- From the scopes to the new refresh token. Nothing is written here.
unfoldable pub issue :
    OidcState → SignInRequest → Draw → Identified → Assurance → Db → Result Issued
issue st req draw who assurance db = do
  scopes ← scopes_of req who.client db
  roles ← st.resolve_role_claims db who.user.id
  mapped ← st.resolve_mapped_claims db who.client.id (some who.user) scopes
  service ← st.token_service_for_realm who.user.realm_id
  access_token ← service.issue_access_token_with_extra (record {
    subject = subject_for st who.client who.user.id;
    audience = who.client.client_id;
    scopes = scopes;
    dpop_jkt = req.dpop_jkt;
    authorization_details = none;
    resource = none;
    extra = record {
      custom_claims = mapped.access_token;
      additional_audiences = mapped.access_audiences;
      organization = none;
      realm_access = none;
      resource_access = none;
    };
  })
  signed ←
      service.issue_id_token (subject_for st who.client who.user.id) who.client.client_id
        (id_token_extra st draw who.user assurance roles mapped access_token)
  id_token ← st.maybe_encrypt_id_token signed who.client
  refresh_token ← draw.refresh_token
  ok (record {
    scopes = scopes;
    access_token = access_token;
    id_token = id_token;
    refresh_token = refresh_token;
  })

unfoldable pub session_of : OidcState → Draw → Identified → Assurance → Issued → Session
session_of st draw who assurance issued = record {
  id = draw.session_id;
  sid = ok_or_empty draw.sid;
  user_id = some who.user.id;
  realm_id = who.user.realm_id;
  client_id = who.client.id;
  grant_type = if contains assurance.amr "kerberos" then "kerberos" else "password";
  access_token_hash = sha2_256_hex st.external issued.access_token;
  refresh_token_hash = some (sha2_256_hex st.external issued.refresh_token);
  id_token_jti = none;
  scope = issued.scopes;
  revoked = false;
  expires_at = draw.now + access_seconds;
  refresh_expires_at = some (draw.now + refresh_seconds);
  offline_session = false;
  offline_max_expires_at = none;
  created_at = draw.now;
  last_used_at = none;
  token_family_id = some draw.token_family_id;
  previous_session_id = none;
  rotated_at = none;
  reused_at = none;
  family_revoked = false;
  authorization_details = none;
  resource = [];
  acr = assurance.acr;
  amr = assurance.amr;
}

unfoldable pub login_event : SignInHost → SignInDraw → Draw → Identified → Session → AuditEvent
login_event host sign_in draw who session = record {
  id = sign_in.event_id;
  realm_id = some who.user.realm_id;
  event_type = "user.authenticated";
  actor_id = some who.user.id;
  actor_type = ActorType.user;
  target_type = some "user";
  target_id = some who.user.id;
  details = host.state.json_object (
      ("client_id", text (host.state.external.uuid_text who.client.id))
      ∷ ("grant_type", text session.grant_type)
      ∷ []);
  ip_address = none;
  user_agent = none;
  created_at = draw.now;
}

-- The session, the consent and the event.
unfoldable pub store : SignInHost → SignInDraw → Draw → Identified → Assurance → Issued → Db → Db
unfolding login_event
store host sign_in draw who assurance issued db =
    let session = session_of host.state draw who assurance issued in
    log_event host (login_event host sign_in draw who session) (record db {
      sessions = create draw.db_now session db.sessions;
      user_consents =
          grant sign_in.consent_id draw.db_now who.user.id who.user.realm_id who.client.id
            issued.scopes db.user_consents;
    })

unfoldable pub result_of : SignInRequest → Draw → User → Issued → PasswordFlowResult
result_of req draw user issued = record {
  access_token = issued.access_token;
  refresh_token = issued.refresh_token;
  id_token = issued.id_token;
  token_type = token_type_of req.dpop_jkt;
  expires_in = access_seconds;
  session_id = draw.session_id;
  user_id = user.id;
  user_email = user.email;
  user_username = user.username;
  user_given_name = user.given_name;
  user_family_name = user.family_name;
}
