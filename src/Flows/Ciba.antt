-- ===== src/Flows/Ciba.antt =====
-- crates/oidc-oidc/src/flows/ciba.rs: the poll of the token endpoint in a backchannel authentication.
-- A request that has expired, and an answer `SlowDown` or `AuthorizationPending`, change the request
-- and commit; every other error rolls the transaction back.
pub mod Polling
pub mod Pending
pub mod Sessions
use open_id_connect_wasi_hub.Prelude.{
  ℕ, ◌+◌, min, String, List, [], ◌∷◌, Option, none, some, Bool, true, false, not, ◌==◌, ◌&&◌,
  string_eq, if◌then◌else◌, ltb, leb, join_spaces, contains,
}
use open_id_connect_wasi_hub.Error.{
  Result, ok, err, ok_or, guard, ◌>>=◌, ◌>>◌, not_found, invalid_client, invalid_request,
  expired_token, authorization_denied, authorization_pending, slow_down, OidcError,
}
use open_id_connect_wasi_hub.Token.{sha2_256_hex, compute_at_hash}
use open_id_connect_wasi_hub.Acr.{acr_bronze}
use open_id_connect_wasi_hub.Models.{
  Json, Client, User, Session, CibaAuthenticationRequest, ciba_grant_type,
}
use open_id_connect_wasi_hub.Db.Tables.{Db}
use open_id_connect_wasi_hub.Db.Directory.{find_user_by_id, find_client_by_id}
use open_id_connect_wasi_hub.Db.Sessions.{create}
use open_id_connect_wasi_hub.Db.Ciba.{find_for_update, record_poll, consume, expire}
use open_id_connect_wasi_hub.Db.Transaction.{with_transaction, begin_with}
use open_id_connect_wasi_hub.Flows.State.{
  OidcState, Draw, TokenResponse, IdTokenExtraClaims, TokenRoleClaims, MappedClaims,
}
use open_id_connect_wasi_hub.Flows.Claims.{
  subject_for, access_extra, token_type_of, text_or_empty, access_seconds, refresh_seconds,
}

-- The arguments of `execute`.
pub record CibaPoll : Type 0 where
  pub auth_req_id : String
  pub client_id : String
  pub dpop_jkt : Option String

pub data CibaOutcome : Type 0 where
  tokens_issued : TokenResponse → CibaOutcome
  protocol_error : OidcError → CibaOutcome

-- `filter(|c| c.enabled)`
unfoldable pub enabled_only : Option Client → Option Client
enabled_only none = none
enabled_only (some c) = if c.enabled then some c else none

unfoldable pub enabled_user_only : Option User → Option User
enabled_user_only none = none
enabled_user_only (some u) = if u.enabled then some u else none

-- `now < last + interval`
abbrev pub is_too_early : Option ℕ → ℕ → ℕ → Bool
is_too_early none interval now = false
is_too_early (some last) interval now = ltb now (last + interval)

-- The branch of a pending request; `now` is the clock.
unfoldable pub poll_pending_request : CibaAuthenticationRequest → ℕ → ℕ → Db → CibaOutcome × Db
poll_pending_request request now db_now db =
    if is_too_early request.last_polled_at request.interval_seconds now
    then (
      protocol_error slow_down,
      record db {
        ciba_authentication_requests =
            record_poll request.id (min (request.interval_seconds + 5) 60) db_now
              db.ciba_authentication_requests;
      },
    )
    else (
      protocol_error authorization_pending,
      record db {
        ciba_authentication_requests =
            record_poll request.id request.interval_seconds db_now db.ciba_authentication_requests;
      },
    )

pub data Standing : Type 0 where
  is_pending is_approved : Standing
  is_refused : OidcError → Standing

-- The arms of `match request.status`.
unfoldable pub standing_of : String → Standing
standing_of status =
    if status == "pending"
    then is_pending
    else if status == "denied"
    then is_refused (authorization_denied "The user denied the authentication request")
    else if status == "consumed"
    then is_refused expired_token
    else if status == "expired"
    then is_refused expired_token
    else if status == "approved"
    then is_approved
    else is_refused invalid_request

unfoldable pub id_token_extra :
    OidcState
    → CibaPoll
    → String
    → CibaAuthenticationRequest
    → User
    → Option Json
    → TokenRoleClaims
    → MappedClaims
    → String
    → IdTokenExtraClaims
id_token_extra st req sid request user organization roles mapped access_token = record {
  custom_claims =
      st.insert_claim mapped.id_token "urn:openid:params:jwt:claim:auth_req_id" req.auth_req_id;
  additional_audiences = mapped.id_audiences;
  nonce = none;
  at_hash = some (compute_at_hash st.external access_token);
  c_hash = none;
  auth_time = request.auth_time;
  sid = some sid;
  email = some user.email;
  email_verified = some user.email_verified;
  name = user.username;
  given_name = user.given_name;
  family_name = user.family_name;
  middle_name = user.middle_name;
  nickname = user.nickname;
  preferred_username = user.preferred_username;
  profile = user.profile;
  picture = user.picture;
  website = user.website;
  gender = user.gender;
  birthdate = user.birthdate;
  zoneinfo = user.zoneinfo;
  locale = some user.locale;
  phone_number = user.phone_number;
  phone_number_verified = user.phone_number_verified;
  updated_at = some user.updated_at;
  acr = request.acr;
  amr = some request.amr;
  azp = none;
  address = none;
  roles = roles.roles;
  realm_access = roles.realm_access;
  resource_access = roles.resource_access;
  groups = none;
  organization = organization;
}

pub record Issued : Type 0 where
  pub access_token : String
  pub id_token : String
  pub refresh_token : String
  pub sid : String

-- From the claims to the new refresh token. Nothing is written here.
unfoldable pub issue :
    OidcState → CibaPoll → Draw → CibaAuthenticationRequest → User → Client → Db → Result Issued
issue st req draw request user client db = do
  organization ← st.resolve_organization_claim db user.id request.scope
  roles ← st.resolve_role_claims db user.id
  mapped ← st.resolve_mapped_claims db client.id (some user) request.scope
  service ← st.token_service_for_realm request.realm_id
  access_token ← service.issue_access_token_with_extra (record {
    subject = subject_for st client user.id;
    audience = client.client_id;
    scopes = request.scope;
    dpop_jkt = req.dpop_jkt;
    authorization_details = none;
    resource = none;
    extra = access_extra mapped organization roles request.scope;
  })
  sid ← draw.sid
  signed ←
      service.issue_id_token (subject_for st client user.id) client.client_id
        (id_token_extra st req sid request user organization roles mapped access_token)
  id_token ← st.maybe_encrypt_id_token signed client
  refresh_token ← draw.refresh_token
  ok (record {
    access_token = access_token;
    id_token = id_token;
    refresh_token = refresh_token;
    sid = sid;
  })

-- `request.acr.unwrap_or_else(…)`
abbrev pub acr_or_bronze : Option String → String
acr_or_bronze none = acr_bronze
acr_or_bronze (some acr) = acr

unfoldable pub session_of :
    OidcState → Draw → CibaAuthenticationRequest → User → Client → Issued → Session
session_of st draw request user client issued = record {
  id = draw.session_id;
  sid = issued.sid;
  user_id = some user.id;
  realm_id = request.realm_id;
  client_id = client.id;
  grant_type = ciba_grant_type;
  access_token_hash = sha2_256_hex st.external issued.access_token;
  refresh_token_hash = some (sha2_256_hex st.external issued.refresh_token);
  id_token_jti = none;
  scope = request.scope;
  revoked = false;
  expires_at = draw.now + access_seconds;
  refresh_expires_at = some (draw.now + refresh_seconds);
  offline_session = false;
  offline_max_expires_at = none;
  created_at = draw.now;
  last_used_at = none;
  token_family_id = some draw.token_family_id;
  previous_session_id = none;
  rotated_at = none;
  reused_at = none;
  family_revoked = false;
  authorization_details = none;
  resource = [];
  acr = acr_or_bronze request.acr;
  amr = request.amr;
}

unfoldable pub response_of : CibaPoll → CibaAuthenticationRequest → Issued → TokenResponse
response_of req request issued = record {
  access_token = issued.access_token;
  token_type = token_type_of req.dpop_jkt;
  expires_in = access_seconds;
  refresh_token = issued.refresh_token;
  id_token = issued.id_token;
  scope = join_spaces request.scope;
}

-- The branch of an approved request.
unfoldable pub exchange :
    OidcState
    → CibaPoll
    → Draw
    → CibaAuthenticationRequest
    → Client
    → Db
    → Result (CibaOutcome × Db)
unfolding session_of response_of
exchange st req draw request client db = do
  user ← ok_or (enabled_user_only (find_user_by_id request.user_id db)) (not_found "user")
  issued ← issue st req draw request user client db
  ok (
    tokens_issued (response_of req request issued),
    record db {
      sessions = create draw.db_now (session_of st draw request user client issued) db.sessions;
      ciba_authentication_requests = consume request.id draw.db_now db.ciba_authentication_requests;
    },
  )

unfoldable pub proceed :
    Standing
    → OidcState
    → CibaPoll
    → ℕ
    → Draw
    → CibaAuthenticationRequest
    → Client
    → Db
    → Result (CibaOutcome × Db)
proceed is_pending st req now draw request client db =
    ok (poll_pending_request request now draw.db_now db)
proceed is_approved st req now draw request client db = exchange st req draw request client db
proceed (is_refused e) st req now draw request client db = err e

-- The clock is read once for the expiry and again for the interval.
pub record Clocks : Type 0 where
  pub at_expiry : ℕ
  pub at_interval : ℕ

unfoldable pub check_client : CibaPoll → CibaAuthenticationRequest → Db → Result Client
unfolding enabled_only
check_client req request db = do
  client ← ok_or (enabled_only (find_client_by_id request.client_id db)) invalid_client
  guard (client.client_id == req.client_id) invalid_client
  ok client

-- The body for a request that is stored.
unfoldable pub answer_request :
    OidcState
    → CibaPoll
    → Clocks
    → Draw
    → CibaAuthenticationRequest
    → Db
    → Result (CibaOutcome × Db)
answer_request st req clocks draw request db =
    if leb request.expires_at clocks.at_expiry
    then ok (
      protocol_error expired_token,
      record db {
        ciba_authentication_requests =
            expire request.id draw.db_now db.ciba_authentication_requests;
      },
    )
    else check_client req request db >>= (λ client.
      proceed (standing_of request.status) st req clocks.at_interval draw request client db)

unfoldable pub ciba_body : OidcState → CibaPoll → Clocks → Draw → Db → Result (CibaOutcome × Db)
unfolding answer_request
ciba_body st req clocks draw db = do
  request ←
      ok_or
        (find_for_update (sha2_256_hex st.external req.auth_req_id) db.ciba_authentication_requests)
        expired_token
  answer_request st req clocks draw request db

-- The match on the outcome, after the transaction.
abbrev pub outcome_of : Result CibaOutcome → Result TokenResponse
outcome_of (ok (tokens_issued tokens)) = ok tokens
outcome_of (ok (protocol_error e)) = err e
outcome_of (err e) = err e

-- `CibaFlow::execute`
unfoldable pub execute : OidcState → CibaPoll → Clocks → Draw → Db → Result TokenResponse × Db
execute st req clocks draw db =
    let (outcome, after) =
      begin_with draw.link.connect db
        (with_transaction draw.link (ciba_body st req clocks draw) db) in
    (outcome_of outcome, after)
