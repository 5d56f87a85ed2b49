-- ===== src/Endpoints/TokenState.antt =====
-- crates/oidc-oidc/src/endpoints/revoke.rs and introspect.rs, once the client is authenticated: what a
-- client may end, and what it learns of a token.
pub mod Revoked
use open_id_connect_wasi_hub.Prelude.{
  ℕ, String, Option, none, some, Bool, true, false, ◌==◌, ◌||◌, ◌&&◌, not, string_eq, nat_eq,
  option_eq, if◌then◌else◌,
}
use open_id_connect_wasi_hub.Error.{Result, ok, err, ◌>>=◌}
use open_id_connect_wasi_hub.Token.{sha2_256_hex}
use open_id_connect_wasi_hub.Models.{Json, Client, User, Session, RptGrant}
use open_id_connect_wasi_hub.Db.Tables.{Db}
use open_id_connect_wasi_hub.Db.Directory.{find_user_by_id}
use open_id_connect_wasi_hub.Db.Rpts.{find_active_rpt, revoke_rpt}
use open_id_connect_wasi_hub.Db.Sessions.{
  find_by_access_token_hash, find_by_refresh_token_hash, revoke, revoke_family,
}
use open_id_connect_wasi_hub.Db.Transaction.{Link, with_transaction, begin_with}
use open_id_connect_wasi_hub.External.{External}

-- The claims of a verified access token.
pub record AccessTokenClaims : Type 0 where
  pub sub : String
  pub aud : Json
  pub scope : String
  pub exp : ℕ
  pub iat : ℕ
  pub cnf : Option Json
  pub authorization_details : Option Json
  pub organization : Option Json
  pub realm_access : Option Json
  pub resource_access : Option Json
  pub custom_claims : Json

-- The verification of access tokens, and the JSON and UUIDs that the handlers read.
pub record Inspector : Type 0 where
  pub external : External
  pub verify_access_token_with_claims : String → Result AccessTokenClaims
  -- `claims.get(name).and_then(Value::as_str)`
  pub text_member : Json → String → Option String
  pub parse_uuid : String → Option ℕ
  -- The text of `aud`, or of the first of several.
  pub first_audience : Json → String

pub record ActiveToken : Type 0 where
  pub sub : String
  pub client_id : String
  pub aud : Json
  pub scope : String
  pub token_type : String
  pub exp : ℕ
  pub iat : ℕ
  pub username : Option String
  pub claims : AccessTokenClaims

pub data Introspection : Type 0 where
  inactive : Introspection
  active : ActiveToken → Introspection

module _ (ins : Inspector) where
  -- `custom_claims.get("rpt_id").and_then(Value::as_str)`
  abbrev rpt_text : AccessTokenClaims → Option String
  rpt_text claims = ins.text_member claims.custom_claims "rpt_id"

  uuid_of : Option String → Option ℕ
  uuid_of none = none
  uuid_of (some s) = ins.parse_uuid s

  -- The grant that the claims of a valid token name.
  unfoldable pub rpt_named : String → Option ℕ
  unfolding uuid_of
  rpt_named token = elim (ins.verify_access_token_with_claims token) [
    | err e ↦ none
    | ok claims ↦ uuid_of (rpt_text claims)
  ]

  -- The whole family, or the session that has none; only for the client that the session belongs to.
  unfoldable pub revoke_owned : Client → Session → Db → Db
  revoke_owned client s db =
      if s.client_id == client.id
      then record db {
        sessions = elim s.token_family_id [
          | some family_id ↦ revoke_family family_id db.sessions
          | none ↦ revoke s.id db.sessions
        ];
      }
      else db

  unfoldable pub revoke_found : Client → Option Session → Db → Db → Db
  revoke_found client none otherwise db = otherwise
  revoke_found client (some s) otherwise db = revoke_owned client s db

  -- A refresh token first where the hint says so, else an access token first.
  unfoldable pub revoke_session : Client → String → Option String → ℕ → Db → Db
  unfolding revoke_found
  revoke_session client token hint now db =
      let hash = sha2_256_hex ins.external token in
      let as_refresh = find_by_refresh_token_hash hash db.sessions in
      let as_access = find_by_access_token_hash hash now db.sessions in
      if hint == some "refresh_token"
      then revoke_found client as_refresh (revoke_found client as_access db db) db
      else revoke_found client as_access (revoke_found client as_refresh db db) db

  unfoldable pub may_use : Client → RptGrant → Bool
  may_use client grant = grant.client_id == client.id || grant.resource_server_id == client.id

  unfoldable pub revoke_grant : Client → Option RptGrant → Db → Db → Db
  unfolding may_use
  revoke_grant client none otherwise db = otherwise
  revoke_grant client (some g) otherwise db =
      if may_use client g
      then record db { authorization_rpt_grants = revoke_rpt g.id db.authorization_rpt_grants }
      else db

  active_grant : Option ℕ → ℕ → Db → Option RptGrant
  active_grant none now db = none
  active_grant (some id) now db = find_active_rpt id now db.authorization_rpt_grants

  unfoldable pub revoke_token : Client → String → Option String → ℕ → Db → Db
  unfolding revoke_grant active_grant
  revoke_token client token hint now db =
      revoke_grant client (active_grant (rpt_named token) now db)
        (revoke_session client token hint now db) db

  -- `revoke_handler`; `authenticated` is the result of the authentication of the client.
  unfoldable pub revoke_handler :
      Link → Result Client → String → Option String → ℕ → Db → Result (Unit {0}) × Db
  revoke_handler link authenticated token hint now db = begin_with link.connect db (
      with_transaction link
        (λ before. authenticated >>= (λ client. ok (tt, revoke_token client token hint now before)))
        db)

  -- The durable record behind the token, and whether the client may see it.
  unfoldable pub is_backed : Client → AccessTokenClaims → String → ℕ → Db → Bool
  unfolding uuid_of active_grant may_use
  is_backed client claims token now db = elim (rpt_text claims) [
    | some text ↦ elim (active_grant (ins.parse_uuid text) now db) [
      | none ↦ false
      | some grant ↦ may_use client grant
    ]
    | none ↦ elim (find_by_access_token_hash (sha2_256_hex ins.external token) now db.sessions) [
      | none ↦ false
      | some s ↦ not s.revoked && s.client_id == client.id
    ]
  ]

  username_of : Option User → Option String
  username_of none = none
  username_of (some u) = elim u.username [ some name ↦ some name | none ↦ some u.email ]

  subject_name : Option ℕ → Db → Option String
  subject_name none db = none
  subject_name (some id) db = username_of (find_user_by_id id db)

  kind_of : Option Json → String
  kind_of none = "Bearer"
  kind_of (some cnf) = "DPoP"

  unfoldable pub describe : AccessTokenClaims → Db → ActiveToken
  unfolding subject_name username_of kind_of
  describe claims db = record {
    sub = claims.sub;
    client_id = ins.first_audience claims.aud;
    aud = claims.aud;
    scope = claims.scope;
    token_type = kind_of claims.cnf;
    exp = claims.exp;
    iat = claims.iat;
    username = subject_name (ins.parse_uuid claims.sub) db;
    claims = claims;
  }

  -- `introspect_handler`, once the client is authenticated.
  unfoldable pub introspect : Client → String → ℕ → Db → Introspection
  introspect client token now db = elim (ins.verify_access_token_with_claims token) [
    | err e ↦ inactive
    | ok claims ↦
        if is_backed client claims token now db then active (describe claims db) else inactive
  ]
