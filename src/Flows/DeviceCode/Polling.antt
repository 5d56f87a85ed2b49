-- ===== src/Flows/DeviceCode/Polling.antt =====
-- What a poll of the token endpoint answers, and what a success has checked and changed.
use open_id_connect_wasi_hub.Prelude.{
  ℕ, ◌≡◌, ◌≢◌, refl, sym, ap, Option, none, some, true, false, arith, eq_iff, string_eq, contains,
  ltb, Option-cases, inl, inr, ◌⊎◌, ◌∙◌,
}
use open_id_connect_wasi_hub.Error.{
  ok, err, OidcError, expired_token, invalid_client, authorization_pending, not_found, >>=-eq-ok,
}
use open_id_connect_wasi_hub.Token.{sha2_256_hex}
use open_id_connect_wasi_hub.Models.{Client, DeviceCode, User, Session}
use open_id_connect_wasi_hub.Db.Tables.{Db}
use open_id_connect_wasi_hub.Db.Directory.{find_client_by_client_id}
use open_id_connect_wasi_hub.Db.Codes.{find_by_device_code, mark_device_code_used}
use open_id_connect_wasi_hub.Db.Codes.DeviceLaws.{
  DistinctDeviceCodes, find_by_device_code-mark_device_code_used, find_by_device_code_sound,
}
use open_id_connect_wasi_hub.Db.Sessions.{create}
use open_id_connect_wasi_hub.Db.Transaction.{
  IsUp, connected-ok, connected-err, connected-err_of_body,
}
use open_id_connect_wasi_hub.Flows.State.{OidcState, Draw, TokenResponse}
use open_id_connect_wasi_hub.Flows.DeviceCode.{
  Poll, Issued, validate_device, issue, poll_body, execute, session_of,
}

module _ (st : OidcState) (req : Poll) where
  -- The device code that a poll names.
  abbrev pub code_named : ℕ → Db → Option DeviceCode
  code_named db_now db =
      find_by_device_code (sha2_256_hex st.external req.device_code) db_now db.device_codes

  -- Everything that the checks establish.
  pub record IsApproved (db_now now : ℕ) (db : Db) (dc : DeviceCode) (user_id : ℕ) (client : Client)
      : Type 0 where
    pub found : code_named db_now db ≡ some dc
    pub identifier : st.external.uuid_text dc.client_id ≡ req.client_id
    pub unexpired : ltb dc.expires_at now ≡ false
    pub unused : dc.used ≡ false
    pub authorized : dc.authorized ≡ true
    pub of_user : dc.user_id ≡ some user_id
    pub registered : find_client_by_client_id req.client_id db ≡ some client
    pub enabled : client.enabled ≡ true

  validate_device-IsApproved :
      (db_now now : ℕ) (db : Db) (dc : DeviceCode) (user_id : ℕ) (user : User) (client : Client)
      → validate_device st req db_now now db ≡ ok (dc, user_id, user, client)
      → IsApproved db_now now db dc user_id client
  unfolding validate_device
  validate_device-IsApproved db_now now db dc user_id user client h =
      ground (arith, eq_iff (st.external.uuid_text dc.client_id) req.client_id)

  -- A success consumes the code and adds one live session of the user who approved it.
  pub record IsExchanged (draw : Draw) (db db' : Db) (dc : DeviceCode) (user_id : ℕ)
      (client : Client) : Type 0 where
    pub session : Session
    pub consumed : db' ≡ record db {
      device_codes = mark_device_code_used dc.id db.device_codes;
      sessions = create draw.db_now session db.sessions;
    }
    pub of_user : session.user_id ≡ some user_id
    pub of_realm : session.realm_id ≡ dc.realm_id
    pub of_client : session.client_id ≡ client.id
    pub in_family : session.token_family_id ≡ some draw.token_family_id
    pub of_scope : session.scope ≡ dc.scope
    pub online : (session.offline_session ≡ false) × (contains dc.scope "offline_access" ≡ false)
    pub fresh : (session.revoked ≡ false) × (session.rotated_at ≡ none)

  issue-online :
      (draw : Draw) (dc : DeviceCode) (user_id : ℕ) (user : User) (client : Client) (db : Db)
      (issued : Issued)
      → issue st req draw dc user_id user client db ≡ ok issued
      → contains dc.scope "offline_access" ≡ false
  unfolding issue
  issue-online draw dc user_id user client db issued h = ground arith

  poll_body_sound :
      (now : ℕ) (draw : Draw) (db db' : Db) (r : TokenResponse)
      → poll_body st req now draw db ≡ ok (r, db')
      → (dc : DeviceCode) × (user_id : ℕ) × (client : Client) × IsApproved draw.db_now now db dc
          user_id client
        × IsExchanged draw db db' dc user_id client
  unfolding poll_body
  poll_body_sound now draw db db' r h =
      let ((dc, user_id, user, client), checked, h) =
        >>=-eq-ok (validate_device st req draw.db_now now db) _ h in
      let before = record db { device_codes = mark_device_code_used dc.id db.device_codes } in
      let (issued, e, h) = >>=-eq-ok (issue st req draw dc user_id user client before) _ h in
      (
        dc,
        user_id,
        client,
        validate_device-IsApproved draw.db_now now db dc user_id user client checked,
        record {
          session = session_of st draw dc user_id client issued;
          consumed = ground arith;
          of_user = refl;
          of_realm = refl;
          of_client = refl;
          in_family = refl;
          of_scope = refl;
          online = (refl, issue-online draw dc user_id user client before issued e);
          fresh = (refl, refl);
        },
      )

  -- Tokens are issued only for a live, unused code that a user has authorized, to an enabled client
  -- whose identifier is the text of the code's client; the code is consumed, and one online session
  -- of that user is added. All else is as it was.
  pub poll_sound :
      (now : ℕ) (draw : Draw) (db db' : Db) (r : TokenResponse)
      → execute st req now draw db ≡ (ok r, db')
      → (dc : DeviceCode) × (user_id : ℕ) × (client : Client) × IsApproved draw.db_now now db dc
          user_id client
        × IsExchanged draw db db' dc user_id client
  unfolding execute
  poll_sound now draw db db' r h =
      poll_body_sound now draw db db' r
        (connected-ok draw.link (poll_body st req now draw) db db' r h)

  -- A failure leaves the database as it was.
  pub poll-err :
      (now : ℕ) (draw : Draw) (db db' : Db) (e : OidcError)
      → execute st req now draw db ≡ (err e, db')
      → db' ≡ db
  unfolding execute
  poll-err now draw db db' e h = connected-err draw.link (poll_body st req now draw) db db' e h

  poll_body_of_error :
      (now : ℕ) (draw : Draw) (db : Db) (e : OidcError)
      → validate_device st req draw.db_now now db ≡ err e
      → poll_body st req now draw db ≡ err e
  unfolding poll_body
  poll_body_of_error now draw db e h = rw h refl

  poll_of_error :
      (now : ℕ) (draw : Draw) (db : Db) (e : OidcError)
      → IsUp draw.link
      → validate_device st req draw.db_now now db ≡ err e
      → execute st req now draw db ≡ (err e, db)
  unfolding execute
  poll_of_error now draw db e up h =
      connected-err_of_body draw.link (poll_body st req now draw) db e up
        (poll_body_of_error now draw db e h)

  validate_device_absent :
      (db_now now : ℕ) (db : Db)
      → code_named db_now db ≡ none
      → validate_device st req db_now now db ≡ err expired_token
  unfolding validate_device
  validate_device_absent db_now now db h = ground arith

  pub poll_absent :
      (now : ℕ) (draw : Draw) (db : Db)
      → IsUp draw.link
      → code_named draw.db_now db ≡ none
      → execute st req now draw db ≡ (err expired_token, db)
  poll_absent now draw db up h =
      poll_of_error now draw db expired_token up (validate_device_absent draw.db_now now db h)

  validate_device_other :
      (db_now now : ℕ) (db : Db) (dc : DeviceCode)
      → code_named db_now db ≡ some dc
      → st.external.uuid_text dc.client_id ≢ req.client_id
      → validate_device st req db_now now db ≡ err invalid_client
  unfolding validate_device
  validate_device_other db_now now db dc found other =
      ground (arith, eq_iff (st.external.uuid_text dc.client_id) req.client_id)

  -- The grant compares the client identifier of the request with the text of the UUID of the code's
  -- client. So a client whose identifier is not the text of its own UUID is refused with
  -- `InvalidClient` for every code that was issued to it, authorized or not.
  pub poll-registered_client :
      (now : ℕ) (draw : Draw) (db : Db) (dc : DeviceCode) (client : Client)
      → IsUp draw.link
      → code_named draw.db_now db ≡ some dc
      → dc.client_id ≡ client.id
      → req.client_id ≡ client.client_id
      → client.client_id ≢ st.external.uuid_text client.id
      → execute st req now draw db ≡ (err invalid_client, db)
  poll-registered_client now draw db dc client up found owner same other =
      poll_of_error now draw db invalid_client up (
        validate_device_other draw.db_now now db dc found
          (λ e. other (sym (sym (ap st.external.uuid_text owner) ∙ e ∙ same))))

  validate_device_errors_of :
      (db_now now : ℕ) (db : Db) (e : OidcError) (dc : DeviceCode)
      → code_named db_now db ≡ some dc
      → dc.used ≡ false
      → validate_device st req db_now now db ≡ err e
      → (e ≡ expired_token)
        ⊎ (e ≡ invalid_client)
        ⊎ (e ≡ authorization_pending)
        ⊎ (e ≡ not_found "user")
  unfolding validate_device
  validate_device_errors_of db_now now db e dc found unused h = ground arith

  -- The checks of a poll answer a failure with `ExpiredToken`, `InvalidClient`,
  -- `AuthorizationPending` or `NotFound`, and with nothing else.
  pub validate_device_errors :
      (db_now now : ℕ) (db : Db) (e : OidcError)
      → validate_device st req db_now now db ≡ err e
      → (e ≡ expired_token)
        ⊎ (e ≡ invalid_client)
        ⊎ (e ≡ authorization_pending)
        ⊎ (e ≡ not_found "user")
  validate_device_errors db_now now db e h = elim (Option-cases (code_named db_now db)) [
    | inl absent ↦ inl (ground (arith, validate_device_absent db_now now db absent))
    | inr (dc, found) ↦
        validate_device_errors_of db_now now db e dc found
          (find_by_device_code_sound _ db_now db.device_codes dc found) h
  ]

-- A device code works once: after a success a second poll with it (by whatever client, at any time,
-- over a connection without a fault) is answered with `ExpiredToken` and changes nothing. No two
-- stored codes may have the same digest.
pub poll_twice :
    (st : OidcState) (req again : Poll) (now later : ℕ) (draw draw' : Draw) (db db' : Db)
    (r : TokenResponse)
    → DistinctDeviceCodes db.device_codes
    → execute st req now draw db ≡ (ok r, db')
    → again.device_code ≡ req.device_code
    → IsUp draw'.link
    → execute st again later draw' db' ≡ (err expired_token, db')
poll_twice st req again now later draw draw' db db' r distinct done same up =
    let (dc, user_id, client, approved, exchanged) = poll_sound st req now draw db db' r done in
    let spent =
      find_by_device_code-mark_device_code_used (sha2_256_hex st.external req.device_code)
        draw.db_now draw'.db_now db.device_codes dc distinct approved.found in
    poll_absent st again later draw' db' up (rw exchanged.consumed (rw same spent))
