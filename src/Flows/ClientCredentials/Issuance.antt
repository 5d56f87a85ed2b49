-- ===== src/Flows/ClientCredentials/Issuance.antt =====
-- What a client gets for its own credentials.
use open_id_connect_wasi_hub.Prelude.{
  ◌≡◌, ◌∙◌, ap, join_spaces, refl, String, List, Option, none, true, false, arith, contains,
  string_eq,
}
use open_id_connect_wasi_hub.Error.{ok, err, OidcError, >>=-eq-ok}
use open_id_connect_wasi_hub.Token.{sha2_256_hex}
use open_id_connect_wasi_hub.Models.{Client, Session}
use open_id_connect_wasi_hub.Db.Tables.{Db}
use open_id_connect_wasi_hub.Db.Sessions.{create}
use open_id_connect_wasi_hub.Db.Scopes.{resolve_names_for_client}
use open_id_connect_wasi_hub.Db.Transaction.{connected-ok, connected-err}
use open_id_connect_wasi_hub.Flows.State.{OidcState, Draw, TokenService, AccessTokenRequest}
use open_id_connect_wasi_hub.Flows.ClientCredentials.{
  ClientToken, requested_or_allowed, resolve_scopes, issue, session_of, credentials_body, execute,
}

-- The session of a client: of no user, without a refresh token, and with the scopes that the request
-- resolves to.
pub record IsOwnSession (st : OidcState) (client : Client) (requested : List String) (db db' : Db)
    (draw : Draw) (r : ClientToken) : Type 0 where
  pub session : Session
  pub added : db' ≡ record db { sessions = create draw.db_now session db.sessions }
  pub enabled : client.enabled ≡ true
  pub resolved :
      resolve_names_for_client client.id
        (requested_or_allowed client requested)
        client.allowed_scopes
        db.client_scopes
      ≡ ok session.scope
  pub service : TokenService
  pub token_request : AccessTokenRequest
  pub of_service : st.token_service_for_realm client.realm_id ≡ ok service
  pub issued : service.issue_access_token_with_extra token_request ≡ ok r.access_token
  pub issued_scopes : token_request.scopes ≡ session.scope
  pub issued_to :
      (token_request.subject ≡ client.client_id) × (token_request.audience ≡ client.client_id)
  pub answered_scopes : r.scope ≡ join_spaces session.scope
  pub of_client : session.client_id ≡ client.id
  pub of_token : session.access_token_hash ≡ sha2_256_hex st.external r.access_token
  pub of_no_user : session.user_id ≡ none
  pub no_refresh : session.refresh_token_hash ≡ none
  pub of_no_family : session.token_family_id ≡ none
  pub not_offline : contains requested "offline_access" ≡ false

module _ (st : OidcState) (client : Client) (requested : List String) where
  resolve_scopes_sound :
      (db : Db) (scopes : List String)
      → resolve_scopes client requested db ≡ ok scopes
      → (client.enabled ≡ true)
        × (contains requested "offline_access" ≡ false)
        × (resolve_names_for_client client.id
              (requested_or_allowed client requested)
              client.allowed_scopes
              db.client_scopes
            ≡ ok scopes)
  unfolding resolve_scopes
  resolve_scopes_sound db scopes h = ground arith

  -- The arguments that the token service is called with.
  issue_sound :
      (dpop_jkt : Option String) (scopes : List String) (db : Db) (token : String)
      → issue st client scopes dpop_jkt db ≡ ok token
      → (service : TokenService) × (token_request : AccessTokenRequest)
        × (st.token_service_for_realm client.realm_id ≡ ok service)
        × (service.issue_access_token_with_extra token_request ≡ ok token)
        × (token_request.scopes ≡ scopes)
        × (token_request.subject ≡ client.client_id)
        × (token_request.audience ≡ client.client_id)
  unfolding issue
  issue_sound dpop_jkt scopes db token h =
      let (mapped, claims, h) = >>=-eq-ok (st.resolve_mapped_claims db client.id none scopes) _ h in
      let (service, there, h) = >>=-eq-ok (st.token_service_for_realm client.realm_id) _ h in
      (service, _, there, h, refl, refl, refl)

  credentials_body_sound :
      (dpop_jkt : Option String) (draw : Draw) (db db' : Db) (r : ClientToken)
      → credentials_body st client requested dpop_jkt draw db ≡ ok (r, db')
      → IsOwnSession st client requested db db' draw r
  unfolding credentials_body
  credentials_body_sound dpop_jkt draw db db' r h =
      let (scopes, asked, h) = >>=-eq-ok (resolve_scopes client requested db) _ h in
      let (token, e, h) = >>=-eq-ok (issue st client scopes dpop_jkt db) _ h in
      let (enabled, not_offline, resolved) = resolve_scopes_sound db scopes asked in
      let (service, token_request, there, signed, same_scopes, subject, audience) =
        issue_sound dpop_jkt scopes db token e in
      let is_token : token ≡ r.access_token = ground arith in
      record {
        session = session_of st draw client scopes token;
        added = ground arith;
        enabled = enabled;
        resolved = resolved;
        service = service;
        token_request = token_request;
        of_service = there;
        issued = signed ∙ ap ok is_token;
        issued_scopes = same_scopes;
        issued_to = (subject, audience);
        answered_scopes = ground arith;
        of_client = refl;
        of_token = ground arith;
        of_no_user = refl;
        no_refresh = refl;
        of_no_family = refl;
        not_offline = not_offline;
      }

  -- A token for the client's own credentials is given only to an enabled client that does not ask for
  -- offline access. The scopes that its request resolves to are those that the token service is asked
  -- for, with the client as subject and audience, those of the answer, and those of the session. It
  -- adds that one session, which holds the digest of the token, no user and no refresh token, and
  -- changes nothing else.
  pub credentials_sound :
      (dpop_jkt : Option String) (draw : Draw) (db db' : Db) (r : ClientToken)
      → execute st client requested dpop_jkt draw db ≡ (ok r, db')
      → IsOwnSession st client requested db db' draw r
  unfolding execute
  credentials_sound dpop_jkt draw db db' r h =
      credentials_body_sound dpop_jkt draw db db' r
        (connected-ok draw.link (credentials_body st client requested dpop_jkt draw) db db' r h)

  -- A failure leaves the database as it was.
  pub credentials-err :
      (dpop_jkt : Option String) (draw : Draw) (db db' : Db) (e : OidcError)
      → execute st client requested dpop_jkt draw db ≡ (err e, db')
      → db' ≡ db
  unfolding execute
  credentials-err dpop_jkt draw db db' e h =
      connected-err draw.link (credentials_body st client requested dpop_jkt draw) db db' e h
