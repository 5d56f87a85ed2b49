-- ===== src/Flows/AuthorizationCode/SingleUse.antt =====
-- What a successful exchange of a code has checked and changed, and that a code works once.
use open_id_connect_wasi_hub.Prelude.{
  ℕ, ◌≡◌, refl, Option, none, some, true, false, arith, eq_iff, string_eq, ℤ, contains,
}
use open_id_connect_wasi_hub.Error.{ok, err, OidcError, invalid_request, >>=-eq-ok}
use open_id_connect_wasi_hub.Token.{verify_s256}
use open_id_connect_wasi_hub.Models.{Client, AuthCode, Session}
use open_id_connect_wasi_hub.Db.Tables.{Db}
use open_id_connect_wasi_hub.Db.Directory.{find_client_by_client_id}
use open_id_connect_wasi_hub.Db.Codes.{find_by_code, mark_code_used}
use open_id_connect_wasi_hub.Db.Sessions.{create}
use open_id_connect_wasi_hub.Flows.State.{OidcState, Draw, TokenResponse}
use open_id_connect_wasi_hub.Flows.AuthorizationCode.{
  Exchange, validate_code, redeem, exchange_body, execute, session_of, issue,
}
use open_id_connect_wasi_hub.Db.Transaction.{
  connected-ok, connected-err, IsUp, connected-err_of_body,
}
use open_id_connect_wasi_hub.Db.Codes.Laws.{DistinctCodes, find_by_code-mark_code_used}

module _ (st : OidcState) (req : Exchange) where
  -- Everything that the checks establish of the code and the client.
  pub record IsChecked (db_now : ℕ) (db : Db) (auth_code : AuthCode) (client : Client)
      : Type 0 where
    pub found : find_by_code st.external req.code db_now db.auth_codes ≡ some auth_code
    pub unused : auth_code.used ≡ false
    pub redirect : auth_code.redirect_uri ≡ req.redirect_uri
    pub registered : find_client_by_client_id req.client_id db ≡ some client
    pub owner : client.id ≡ auth_code.client_id
    pub enabled : client.enabled ≡ true
    pub pkce : verify_s256 st.external req.code_verifier auth_code.code_challenge ≡ true

  pub validate_code-IsChecked :
      (db_now : ℕ) (db : Db) (auth_code : AuthCode) (client : Client)
      → validate_code st req db_now db ≡ ok (auth_code, client)
      → IsChecked db_now db auth_code client
  unfolding validate_code
  validate_code-IsChecked db_now db auth_code client h =
      ground (arith, eq_iff auth_code.redirect_uri req.redirect_uri)

  -- What a successful exchange leaves in the database: the code is used, and one session of the
  -- code's user, realm, scope and client is added. All else is as it was.
  pub record IsRedeemed (draw : Draw) (db db' : Db) (auth_code : AuthCode) (client : Client)
      : Type 0 where
    pub session : Session
    pub consumed : db' ≡ record db {
      auth_codes = mark_code_used auth_code.id db.auth_codes;
      sessions = create draw.db_now session db.sessions;
    }
    pub of_user : session.user_id ≡ some auth_code.user_id
    pub of_realm : session.realm_id ≡ auth_code.realm_id
    pub of_client : session.client_id ≡ client.id
    pub of_scope : session.scope ≡ auth_code.scope
    pub fresh :
        (session.revoked ≡ false) × (session.family_revoked ≡ false) × (session.rotated_at ≡ none)
    pub in_family : session.token_family_id ≡ some draw.token_family_id
    pub offline : session.offline_session ≡ contains auth_code.scope "offline_access"

  redeem-IsRedeemed :
      (draw : Draw) (auth_code : AuthCode) (client : Client) (db db' : Db)
      (r : TokenResponse × Option ℤ)
      → redeem st req draw auth_code client db ≡ ok (r, db')
      → IsRedeemed draw db db' auth_code client
  unfolding redeem
  redeem-IsRedeemed draw auth_code client db db' r h =
      let before = record db { auth_codes = mark_code_used auth_code.id db.auth_codes } in
      let (issued, _, e) = >>=-eq-ok (issue st req draw auth_code client before) _ h in
      record {
        session = session_of st draw auth_code client issued;
        consumed = ground arith;
        of_user = refl;
        of_realm = refl;
        of_client = refl;
        of_scope = refl;
        fresh = (refl, refl, refl);
        in_family = refl;
        offline = refl;
      }

  exchange_body_sound :
      (draw : Draw) (db db' : Db) (r : TokenResponse × Option ℤ)
      → exchange_body st req draw db ≡ ok (r, db')
      → (auth_code : AuthCode) × (client : Client) × IsChecked draw.db_now db auth_code client
        × IsRedeemed draw db db' auth_code client
  unfolding exchange_body
  exchange_body_sound draw db db' r h =
      let ((auth_code, client), checked, redeemed) =
        >>=-eq-ok (validate_code st req draw.db_now db) _ h in
      (
        auth_code,
        client,
        validate_code-IsChecked draw.db_now db auth_code client checked,
        redeem-IsRedeemed draw auth_code client db db' r redeemed,
      )

  -- A success means that the code was live, was presented by the client that holds it with the
  -- redirect URI and the PKCE verifier of the authorization request, and that the database has
  -- changed by consuming the code and adding one live session for it.
  pub execute_sound :
      (draw : Draw) (db db' : Db) (r : TokenResponse × Option ℤ)
      → execute st req draw db ≡ (ok r, db')
      → (auth_code : AuthCode) × (client : Client) × IsChecked draw.db_now db auth_code client
        × IsRedeemed draw db db' auth_code client
  unfolding execute
  execute_sound draw db db' r h =
      exchange_body_sound draw db db' r
        (connected-ok draw.link (exchange_body st req draw) db db' r h)

  -- A failure leaves the database as it was: also where the code was already marked as used.
  pub execute-err :
      (draw : Draw) (db db' : Db) (e : OidcError) → execute st req draw db ≡ (err e, db') → db' ≡ db
  unfolding execute
  execute-err draw db db' e h = connected-err draw.link (exchange_body st req draw) db db' e h

-- A code works once. After a successful exchange, a second one with the same code (whatever it
-- presents beside it, at any time, over a connection without a fault) is answered with `InvalidRequest`
-- and changes nothing. The codes stored in the table must be distinct, as its schema says.
pub execute_twice :
    (st : OidcState) (req again : Exchange) (draw draw' : Draw) (db db' : Db)
    (r : TokenResponse × Option ℤ)
    → DistinctCodes db.auth_codes
    → execute st req draw db ≡ (ok r, db')
    → again.code ≡ req.code
    → IsUp draw'.link
    → execute st again draw' db' ≡ (err invalid_request, db')
unfolding execute exchange_body validate_code
execute_twice st req again draw draw' db db' r distinct done same up =
    let (auth_code, client, checked, redeemed) = execute_sound st req draw db db' r done in
    let spent =
      find_by_code-mark_code_used st.external req.code draw.db_now draw'.db_now db.auth_codes
        auth_code distinct checked.found in
    connected-err_of_body draw'.link (exchange_body st again draw') db' invalid_request up
      (rw redeemed.consumed (rw same (rw spent refl)))
