-- ===== src/Flows/AuthorizationCode.antt =====
-- crates/oidc-oidc/src/flows/authorization_code.rs: a code and its PKCE verifier for tokens.
pub mod SingleUse
pub mod Success
use mathlib.Core.Option
use open_id_connect_wasi_hub.Prelude.{
  ℕ, ◌+◌, String, List, [], ◌∷◌, Option, none, some, Bool, true, false, not, ◌==◌, ◌&&◌, string_eq,
  nat_eq, if◌then◌else◌, contains, is_empty, ℤ, pos, sub_ℕ, add_seconds, join_spaces,
}
use open_id_connect_wasi_hub.Error.{
  Result, ok, err, ok_or, guard, ◌>>=◌, ◌>>◌, not_found, invalid_request, invalid_client, OidcError,
}
use open_id_connect_wasi_hub.Token.{sha2_256_hex, compute_at_hash, compute_c_hash, verify_s256}
use open_id_connect_wasi_hub.Acr.{ResolvedAcrAmr, acr_bronze, resolve_locale}
use open_id_connect_wasi_hub.Models.{Json, Client, User, AuthCode, Session, OfflineSessionPolicy}
use open_id_connect_wasi_hub.Db.Tables.{Db}
use open_id_connect_wasi_hub.Db.Directory.{
  find_user_by_id, find_client_by_client_id, find_group_names_by_user_id,
}
use open_id_connect_wasi_hub.Db.Sessions.{create}
use open_id_connect_wasi_hub.Db.Codes.{find_by_code, mark_code_used}
use open_id_connect_wasi_hub.Db.Transaction.{with_transaction, begin_with}
use open_id_connect_wasi_hub.Flows.State.{
  OidcState, Draw, TokenResponse, IdTokenExtraClaims, TokenRoleClaims, MappedClaims,
}
use open_id_connect_wasi_hub.Flows.Claims.{
  ok_or_empty, subject_for, offline_policy_for, access_extra, token_type_of, access_seconds,
  refresh_seconds,
}

-- The arguments of `execute`.
pub record Exchange : Type 0 where
  pub code : String
  pub redirect_uri : String
  pub client_id : String
  pub code_verifier : String
  pub dpop_jkt : Option String

-- The client that holds the code, enabled.
abbrev holds_code : AuthCode → Client → Bool
holds_code auth_code c = c.id == auth_code.client_id && c.enabled

client_of : AuthCode → Option Client → Result Client
client_of auth_code none = err invalid_client
client_of auth_code (some c) = if holds_code auth_code c then ok c else err invalid_client

-- The checks before the code is consumed, in the order of the source.
unfoldable pub validate_code : OidcState → Exchange → ℕ → Db → Result (AuthCode × Client)
unfolding client_of
validate_code st req db_now db = do
  auth_code ← ok_or (find_by_code st.external req.code db_now db.auth_codes) invalid_request
  guard (not auth_code.used) invalid_request
  guard (auth_code.redirect_uri == req.redirect_uri) invalid_request
  client ← client_of auth_code (find_client_by_client_id req.client_id db)
  guard (verify_s256 st.external req.code_verifier auth_code.code_challenge) invalid_request
  ok (auth_code, client)

-- The assurance established before the code was issued.
unfoldable pub assurance_of : AuthCode → ResolvedAcrAmr
assurance_of auth_code = record {
  acr = acr_of auth_code.auth_acr;
  amr = if is_empty auth_code.auth_amr then "pwd" ∷ [] else auth_code.auth_amr;
}
  where
    acr_of : Option String → String
    acr_of none = acr_bronze
    acr_of (some a) = a

unless_empty : List String → Option (List String)
unless_empty [] = none
unless_empty (x ∷ xs) = some (x ∷ xs)

unfoldable pub id_token_extra :
    OidcState
    → Exchange
    → Draw
    → AuthCode
    → Client
    → User
    → Option Json
    → TokenRoleClaims
    → MappedClaims
    → String
    → Db
    → IdTokenExtraClaims
unfolding unless_empty assurance_of
id_token_extra st req draw auth_code client user organization roles mapped access_token db =
    record {
      custom_claims = mapped.id_token;
      additional_audiences = mapped.id_audiences;
      nonce = auth_code.nonce;
      at_hash = some (compute_at_hash st.external access_token);
      c_hash = some (compute_c_hash st.external req.code);
      auth_time = some draw.auth_time;
      sid = some (ok_or_empty draw.sid);
      email = some user.email;
      email_verified = some user.email_verified;
      name = user.username;
      given_name = user.given_name;
      family_name = user.family_name;
      middle_name = user.middle_name;
      nickname = user.nickname;
      preferred_username = user.preferred_username;
      profile = user.profile;
      picture = user.picture;
      website = user.website;
      gender = user.gender;
      birthdate = user.birthdate;
      zoneinfo = user.zoneinfo;
      locale = some (resolve_locale user.locale auth_code.claims_locales);
      phone_number = user.phone_number;
      phone_number_verified = user.phone_number_verified;
      updated_at = some user.updated_at;
      acr = some (assurance_of auth_code).acr;
      amr = some (assurance_of auth_code).amr;
      azp = if is_empty auth_code.resource then none else some client.client_id;
      address = if contains auth_code.scope "address" then st.address_claim user else none;
      roles = roles.roles;
      realm_access = roles.realm_access;
      resource_access = roles.resource_access;
      groups = unless_empty (find_group_names_by_user_id user.id db);
      organization = organization;
    }

-- When the refresh token expires, and the absolute expiry of an offline family.
unfoldable pub refresh_expiry : ℕ → Option OfflineSessionPolicy → Option ℕ
refresh_expiry now none = some (now + refresh_seconds)
refresh_expiry now (some policy) = some (add_seconds now policy.idle_seconds)

unfoldable pub offline_maximum : ℕ → Option OfflineSessionPolicy → Option ℕ
offline_maximum now none = none
offline_maximum now (some policy) = some (add_seconds now policy.max_seconds)

-- What the issuing steps produce.
pub record Issued : Type 0 where
  pub policy : Option OfflineSessionPolicy
  pub access_token : String
  pub id_token : String
  pub refresh_token : String

unfoldable pub session_of : OidcState → Draw → AuthCode → Client → Issued → Session
unfolding refresh_expiry offline_maximum assurance_of
session_of st draw auth_code client issued = record {
  id = draw.session_id;
  sid = ok_or_empty draw.sid;
  user_id = some auth_code.user_id;
  realm_id = auth_code.realm_id;
  client_id = client.id;
  grant_type = "authorization_code";
  access_token_hash = sha2_256_hex st.external issued.access_token;
  refresh_token_hash = some (sha2_256_hex st.external issued.refresh_token);
  id_token_jti = none;
  scope = auth_code.scope;
  revoked = false;
  expires_at = draw.now + access_seconds;
  refresh_expires_at = refresh_expiry draw.now issued.policy;
  offline_session = contains auth_code.scope "offline_access";
  offline_max_expires_at = offline_maximum draw.now issued.policy;
  created_at = draw.now;
  last_used_at = none;
  token_family_id = some draw.token_family_id;
  previous_session_id = none;
  rotated_at = none;
  reused_at = none;
  family_revoked = false;
  authorization_details = auth_code.authorization_details;
  resource = auth_code.resource;
  acr = (assurance_of auth_code).acr;
  amr = (assurance_of auth_code).amr;
}

-- `refresh_expires_in`: `(expiry - now).num_seconds()`.
abbrev pub seconds_until : ℕ → Option ℕ → Option ℤ
seconds_until now none = none
seconds_until now (some expiry) = some (sub_ℕ expiry now)

-- From the look-up of the user to the new refresh token. Nothing is written here.
unfoldable pub issue : OidcState → Exchange → Draw → AuthCode → Client → Db → Result Issued
issue st req draw auth_code client db = do
  user ← ok_or (find_user_by_id auth_code.user_id db) (not_found "user")
  policy ← offline_policy_for st (contains auth_code.scope "offline_access") auth_code.realm_id db
  organization ← st.resolve_organization_claim db user.id auth_code.scope
  roles ← st.resolve_role_claims db user.id
  mapped ← st.resolve_mapped_claims db client.id (some user) auth_code.scope
  service ← st.token_service_for_realm auth_code.realm_id
  access_token ← service.issue_access_token_with_extra (record {
    subject = subject_for st client auth_code.user_id;
    audience = client.client_id;
    scopes = auth_code.scope;
    dpop_jkt = req.dpop_jkt;
    authorization_details = auth_code.authorization_details;
    resource = some auth_code.resource;
    extra = access_extra mapped organization roles auth_code.scope;
  })
  signed ←
      service.issue_id_token (subject_for st client auth_code.user_id) client.client_id
        (id_token_extra st req draw auth_code client user organization roles mapped access_token db)
  id_token ← st.maybe_encrypt_id_token signed client
  refresh_token ← draw.refresh_token
  ok (record {
    policy = policy;
    access_token = access_token;
    id_token = id_token;
    refresh_token = refresh_token;
  })

unfoldable pub response_of : Exchange → AuthCode → Issued → TokenResponse
response_of req auth_code issued = record {
  access_token = issued.access_token;
  token_type = token_type_of req.dpop_jkt;
  expires_in = access_seconds;
  refresh_token = issued.refresh_token;
  id_token = issued.id_token;
  scope = join_spaces auth_code.scope;
}

-- The steps after the checks: the code is marked as used first, the session is stored last.
unfoldable pub redeem :
    OidcState → Exchange → Draw → AuthCode → Client → Db → Result ((TokenResponse × Option ℤ) × Db)
unfolding session_of response_of
redeem st req draw auth_code client before = do
  let db = record before { auth_codes = mark_code_used auth_code.id before.auth_codes }
  issued ← issue st req draw auth_code client db
  let session = session_of st draw auth_code client issued
  ok (
    (response_of req auth_code issued, seconds_until draw.now session.refresh_expires_at),
    record db { sessions = create draw.db_now session db.sessions },
  )

unfoldable pub exchange_body :
    OidcState → Exchange → Draw → Db → Result ((TokenResponse × Option ℤ) × Db)
exchange_body st req draw db = do
  (auth_code, client) ← validate_code st req draw.db_now db
  redeem st req draw auth_code client db

-- `AuthorizationCodeFlow::execute`
unfoldable pub execute : OidcState → Exchange → Draw → Db → Result (TokenResponse × Option ℤ) × Db
execute st req draw db =
    begin_with draw.link.connect db (with_transaction draw.link (exchange_body st req draw) db)
