-- ===== src/Flows/RefreshToken.antt =====
-- crates/oidc-oidc/src/flows/refresh_token.rs: rotation of refresh tokens, with detection of reuse. The
-- two phases are two transactions: other requests may run between them.
pub mod Replay
pub mod Rotation
use open_id_connect_wasi_hub.Prelude.{
  ℕ, ◌+◌, String, List, [], ◌∷◌, Option, none, some, Bool, true, false, not, ◌==◌, ◌&&◌, ◌||◌,
  string_eq, nat_eq, if◌then◌else◌, leb, ℤ, add_seconds, min, join_spaces,
}
use open_id_connect_wasi_hub.Error.{
  Result, ok, err, ok_or, guard, ◌>>=◌, ◌>>◌, not_found, invalid_request, invalid_client,
  authorization_denied, OidcError,
}
use open_id_connect_wasi_hub.Token.{sha2_256_hex, compute_at_hash}
use open_id_connect_wasi_hub.Models.{Json, Client, User, Session, OfflineSessionPolicy}
use open_id_connect_wasi_hub.Db.Tables.{Db}
use open_id_connect_wasi_hub.Db.Directory.{
  find_user_by_id, find_client_by_id, is_managed_user_blocked,
}
use open_id_connect_wasi_hub.Db.Sessions.{
  find_by_refresh_token_hash, revoke, revoke_family, mark_reused, mark_rotated, create,
}
use open_id_connect_wasi_hub.Db.Transaction.{Link, with_transaction, begin_with, commit_with}
use open_id_connect_wasi_hub.Flows.State.{
  OidcState, Draw, TokenResponse, IdTokenExtraClaims, TokenRoleClaims, MappedClaims,
}
use open_id_connect_wasi_hub.Flows.Claims.{
  ok_or_empty, subject_for, offline_policy_for, access_extra, token_type_of, access_seconds,
  refresh_seconds,
}
use open_id_connect_wasi_hub.Flows.AuthorizationCode.{seconds_until}

-- The arguments of `execute`.
pub record Refresh : Type 0 where
  pub refresh_token : String
  pub client_id : ℕ
  pub dpop_jkt : Option String

-- `expiry.is_none_or(|expiry| expiry <= now)` and `is_some_and` of the same.
abbrev pub none_or_passed : Option ℕ → ℕ → Bool
none_or_passed none now = true
none_or_passed (some expiry) now = leb expiry now

abbrev pub some_and_passed : Option ℕ → ℕ → Bool
some_and_passed none now = false
some_and_passed (some expiry) now = leb expiry now

abbrev pub is_expired : Session → ℕ → Bool
is_expired s now =
    none_or_passed s.refresh_expires_at now || some_and_passed s.offline_max_expires_at now

abbrev pub is_set {ℓ} : {A : Type ℓ} → Option A → Bool
is_set none = false
is_set (some a) = true

-- The surroundings of the first phase.
pub record CheckDraw : Type 0 where
  pub link : Link
  pub db_now : ℕ
  pub now : ℕ

-- The family of the session, or the session alone where it has none.
unfoldable pub revoke_expired : Session → List Session → List Session
revoke_expired s t = elim s.token_family_id [
  | some family_id ↦ revoke_family family_id t
  | none ↦ revoke s.id t
]

-- A rotated token came back: it is marked, and its family revoked.
unfoldable pub revoke_reused : ℕ → Session → List Session → List Session
revoke_reused db_now s t =
    let marked = mark_reused s.id db_now t in
    elim s.token_family_id [ some family_id ↦ revoke_family family_id marked | none ↦ marked ]

-- The table as the first phase writes it, where it commits and refuses the token.
abbrev pub refuse_with : Link → Db → List Session → Result (Unit {0}) × Db
refuse_with link db t =
    commit_with link.commit db (err invalid_request) (record db { sessions = t })

check_session : CheckDraw → Refresh → Db → Option Session → Result (Unit {0}) × Db
unfolding revoke_expired revoke_reused
check_session draw req db none = (err invalid_request, db)
check_session draw req db (some s) =
    if not (s.client_id == req.client_id)
    then (err invalid_client, db)
    else if s.revoked || s.family_revoked
    then (err invalid_request, db)
    else if is_expired s draw.now
    then refuse_with draw.link db (revoke_expired s db.sessions)
    else if is_set s.rotated_at
    then refuse_with draw.link db (revoke_reused draw.db_now s db.sessions)
    else (ok tt, db)

-- Phase 1: replay and theft detection, in a transaction that commits its revocations although the
-- request fails.
unfoldable pub check_replay : OidcState → CheckDraw → Refresh → Db → Result (Unit {0}) × Db
unfolding check_session
check_replay st draw req db = begin_with draw.link.connect db (
    begin_with draw.link.begin db (
      check_session draw req db
        (find_by_refresh_token_hash (sha2_256_hex st.external req.refresh_token) db.sessions)))

-- The session of the token, read again in phase 2.
live_session : Refresh → Option Session → Result Session
live_session req none = err invalid_request
live_session req (some s) =
    if s.client_id == req.client_id
      && not s.revoked
      && not s.family_revoked
      && not (is_set s.rotated_at)
    then ok s
    else if not (s.client_id == req.client_id)
    then err invalid_client
    else err invalid_request

unfoldable pub enabled_client : Option Client → Result Client
enabled_client none = err invalid_client
enabled_client (some c) = if c.enabled then ok c else err invalid_client

-- The checks of phase 2, in the order of the source. `now` is the second reading of the clock.
unfoldable pub refreshable : OidcState → Refresh → ℕ → Db → Result (Session × ℕ × User × Client)
unfolding live_session enabled_client
refreshable st req now db = do
  s ←
      live_session req
        (find_by_refresh_token_hash (sha2_256_hex st.external req.refresh_token) db.sessions)
  guard (not (is_expired s now)) invalid_request
  user_id ← ok_or s.user_id (not_found "user")
  user ← ok_or (find_user_by_id user_id db) (not_found "user")
  guard user.enabled (authorization_denied "Account disabled")
  guard (not (is_managed_user_blocked user.id db))
      (authorization_denied "Account organization is disabled")
  client ← enabled_client (find_client_by_id s.client_id db)
  ok (s, user_id, user, client)

-- `..Default::default()` fills the fields that the source does not name.
unfoldable pub id_token_extra :
    OidcState
    → Draw
    → Session
    → User
    → Option Json
    → TokenRoleClaims
    → MappedClaims
    → String
    → IdTokenExtraClaims
id_token_extra st draw s user organization roles mapped access_token = record {
  custom_claims = mapped.id_token;
  additional_audiences = mapped.id_audiences;
  nonce = none;
  at_hash = some (compute_at_hash st.external access_token);
  c_hash = none;
  auth_time = some draw.auth_time;
  sid = some (ok_or_empty draw.sid);
  email = some user.email;
  email_verified = some user.email_verified;
  name = user.username;
  given_name = user.given_name;
  family_name = user.family_name;
  middle_name = none;
  nickname = none;
  preferred_username = none;
  profile = none;
  picture = none;
  website = none;
  gender = none;
  birthdate = none;
  zoneinfo = none;
  locale = none;
  phone_number = none;
  phone_number_verified = none;
  updated_at = none;
  acr = some s.acr;
  amr = some s.amr;
  azp = none;
  address = none;
  roles = roles.roles;
  realm_access = roles.realm_access;
  resource_access = roles.resource_access;
  groups = none;
  organization = organization;
}

-- The idle timeout, cut at the absolute expiry of an offline family.
unfoldable pub next_expiry : ℕ → Option OfflineSessionPolicy → Option ℕ → Result (Option ℕ)
next_expiry now none maximum = ok (some (now + refresh_seconds))
next_expiry now (some policy) maximum = do
  limit ← ok_or maximum invalid_request
  ok (some (min (add_seconds now policy.idle_seconds) limit))

-- What the issuing steps produce.
pub record Issued : Type 0 where
  pub access_token : String
  pub id_token : String
  pub refresh_token : String
  pub refresh_expires_at : Option ℕ

-- The access token, the ID token and the refresh token.
unfoldable pub issue_tokens :
    OidcState
    → Refresh
    → Draw
    → Session
    → User
    → Client
    → ℕ
    → Db
    → Result (String × String × String)
issue_tokens st req draw s user client user_id db = do
  organization ← st.resolve_organization_claim db user_id s.scope
  roles ← st.resolve_role_claims db user_id
  mapped ← st.resolve_mapped_claims db client.id (some user) s.scope
  service ← st.token_service_for_realm s.realm_id
  access_token ← service.issue_access_token_with_extra (record {
    subject = subject_for st client user_id;
    audience = client.client_id;
    scopes = s.scope;
    dpop_jkt = req.dpop_jkt;
    authorization_details = none;
    resource = none;
    extra = access_extra mapped organization roles s.scope;
  })
  signed ←
      service.issue_id_token (subject_for st client user_id) client.client_id
        (id_token_extra st draw s user organization roles mapped access_token)
  id_token ← st.maybe_encrypt_id_token signed client
  refresh_token ← draw.refresh_token
  ok (access_token, id_token, refresh_token)

-- From the realm's policy to the expiry of the new token. Nothing is written here.
unfoldable pub issue : OidcState → Refresh → Draw → Session → User → Client → ℕ → Db → Result Issued
issue st req draw s user client user_id db = do
  policy ← offline_policy_for st s.offline_session s.realm_id db
  (access_token, id_token, refresh_token) ← issue_tokens st req draw s user client user_id db
  refresh_expires_at ← next_expiry draw.now policy s.offline_max_expires_at
  ok (record {
    access_token = access_token;
    id_token = id_token;
    refresh_token = refresh_token;
    refresh_expires_at = refresh_expires_at;
  })

unfoldable pub successor : OidcState → Draw → Session → ℕ → Issued → Session
successor st draw s user_id issued = record {
  id = draw.session_id;
  sid = ok_or_empty draw.sid;
  user_id = some user_id;
  realm_id = s.realm_id;
  client_id = s.client_id;
  grant_type = "refresh_token";
  access_token_hash = sha2_256_hex st.external issued.access_token;
  refresh_token_hash = some (sha2_256_hex st.external issued.refresh_token);
  id_token_jti = none;
  scope = s.scope;
  revoked = false;
  expires_at = draw.now + access_seconds;
  refresh_expires_at = issued.refresh_expires_at;
  offline_session = s.offline_session;
  offline_max_expires_at = s.offline_max_expires_at;
  created_at = draw.now;
  last_used_at = none;
  token_family_id = s.token_family_id;
  previous_session_id = some s.id;
  rotated_at = none;
  reused_at = none;
  family_revoked = false;
  authorization_details = s.authorization_details;
  resource = s.resource;
  acr = s.acr;
  amr = s.amr;
}

unfoldable pub response_of : Refresh → Session → Issued → TokenResponse
response_of req s issued = record {
  access_token = issued.access_token;
  token_type = token_type_of req.dpop_jkt;
  expires_in = access_seconds;
  refresh_token = issued.refresh_token;
  id_token = issued.id_token;
  scope = join_spaces s.scope;
}

-- Phase 2: the new session is stored, and then the old one marked as rotated.
unfoldable pub rotate_body :
    OidcState → Refresh → ℕ → Draw → Db → Result ((TokenResponse × Option ℤ) × Db)
unfolding successor response_of
rotate_body st req now draw db = do
  (s, user_id, user, client) ← refreshable st req now db
  issued ← issue st req draw s user client user_id db
  let stored = create draw.db_now (successor st draw s user_id issued) db.sessions
  ok (
    (response_of req s issued, seconds_until draw.now issued.refresh_expires_at),
    record db { sessions = mark_rotated s.id draw.db_now stored },
  )

unfoldable pub rotate : OidcState → Refresh → ℕ → Draw → Db → Result (TokenResponse × Option ℤ) × Db
rotate st req now draw db =
    begin_with draw.link.connect db (with_transaction draw.link (rotate_body st req now draw) db)

-- `RefreshTokenFlow::execute`, where no other request runs between the phases.
unfoldable pub execute :
    OidcState → CheckDraw → Refresh → ℕ → Draw → Db → Result (TokenResponse × Option ℤ) × Db
execute st check req now draw db =
    let (checked, db') = check_replay st check req db in
    elim checked [ err e ↦ (err e, db') | ok _ ↦ rotate st req now draw db' ]
