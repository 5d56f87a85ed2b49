-- ===== src/Flows/ClientCredentials.antt =====
-- crates/oidc-oidc/src/flows/client_credentials.rs: a token for the client itself.
pub mod Issuance
use open_id_connect_wasi_hub.Prelude.{
  ℕ, ◌+◌, String, List, [], ◌∷◌, Option, none, some, Bool, true, false, not, ◌==◌, string_eq,
  filter, contains, is_empty, if◌then◌else◌, join_spaces,
}
use open_id_connect_wasi_hub.Error.{
  Result, ok, err, guard, ◌>>=◌, ◌>>◌, invalid_client, invalid_scope,
}
use open_id_connect_wasi_hub.Token.{sha2_256_hex}
use open_id_connect_wasi_hub.Acr.{acr_bronze}
use open_id_connect_wasi_hub.Models.{Client, Session}
use open_id_connect_wasi_hub.Db.Tables.{Db}
use open_id_connect_wasi_hub.Db.Sessions.{create}
use open_id_connect_wasi_hub.Db.Scopes.{resolve_names_for_client}
use open_id_connect_wasi_hub.Db.Transaction.{with_transaction, begin_with}
use open_id_connect_wasi_hub.Flows.State.{OidcState, Draw}
use open_id_connect_wasi_hub.Flows.Claims.{ok_or_empty, token_type_of, access_seconds}

-- The JSON of the response.
pub record ClientToken : Type 0 where
  pub access_token : String
  pub token_type : String
  pub expires_in : ℕ
  pub scope : String

-- What is asked for, or all that the client may have but offline access.
unfoldable pub requested_or_allowed : Client → List String → List String
requested_or_allowed client requested_scopes =
    if is_empty requested_scopes
    then filter (λ scope. not (scope == "offline_access")) client.allowed_scopes
    else requested_scopes

unfoldable pub resolve_scopes : Client → List String → Db → Result (List String)
unfolding requested_or_allowed
resolve_scopes client requested_scopes db = do
  guard client.enabled invalid_client
  guard (not (contains requested_scopes "offline_access"))
      (invalid_scope "offline_access requires an end-user authorization code flow")
  resolve_names_for_client client.id (requested_or_allowed client requested_scopes)
      client.allowed_scopes db.client_scopes

unfoldable pub issue : OidcState → Client → List String → Option String → Db → Result String
issue st client scopes dpop_jkt db = do
  mapped ← st.resolve_mapped_claims db client.id none scopes
  service ← st.token_service_for_realm client.realm_id
  service.issue_access_token_with_extra (record {
    subject = client.client_id;
    audience = client.client_id;
    scopes = scopes;
    dpop_jkt = dpop_jkt;
    authorization_details = none;
    resource = none;
    extra = record {
      custom_claims = mapped.access_token;
      additional_audiences = mapped.access_audiences;
      organization = none;
      realm_access = none;
      resource_access = none;
    };
  })

unfoldable pub session_of : OidcState → Draw → Client → List String → String → Session
session_of st draw client scopes access_token = record {
  id = draw.session_id;
  sid = ok_or_empty draw.sid;
  user_id = none;
  realm_id = client.realm_id;
  client_id = client.id;
  grant_type = "client_credentials";
  access_token_hash = sha2_256_hex st.external access_token;
  refresh_token_hash = none;
  id_token_jti = none;
  scope = scopes;
  revoked = false;
  expires_at = draw.now + access_seconds;
  refresh_expires_at = none;
  offline_session = false;
  offline_max_expires_at = none;
  created_at = draw.now;
  last_used_at = none;
  token_family_id = none;
  previous_session_id = none;
  rotated_at = none;
  reused_at = none;
  family_revoked = false;
  authorization_details = none;
  resource = [];
  acr = acr_bronze;
  amr = "client_secret" ∷ [];
}

unfoldable pub credentials_body :
    OidcState → Client → List String → Option String → Draw → Db → Result (ClientToken × Db)
unfolding session_of
credentials_body st client requested_scopes dpop_jkt draw db = do
  scopes ← resolve_scopes client requested_scopes db
  access_token ← issue st client scopes dpop_jkt db
  ok (
    record {
      access_token = access_token;
      token_type = token_type_of dpop_jkt;
      expires_in = access_seconds;
      scope = join_spaces scopes;
    },
    record db {
      sessions = create draw.db_now (session_of st draw client scopes access_token) db.sessions;
    },
  )

-- `ClientCredentialsFlow::execute`
unfoldable pub execute :
    OidcState → Client → List String → Option String → Draw → Db → Result ClientToken × Db
execute st client requested_scopes dpop_jkt draw db =
    begin_with draw.link.connect db
      (with_transaction draw.link (credentials_body st client requested_scopes dpop_jkt draw) db)
