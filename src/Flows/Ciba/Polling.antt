-- ===== src/Flows/Ciba/Polling.antt =====
-- What a poll of a backchannel request answers, and what a success has checked and changed.
use open_id_connect_wasi_hub.Prelude.{
  ℕ, ◌≡◌, refl, ap, sym, ◌∙◌, String, Option, none, some, true, false, arith, eq_iff, string_eq,
  leb, Option-cases, Bool-cases, inl, inr,
}
use open_id_connect_wasi_hub.Error.{
  Result, ok, err, ok_or, ◌>>=◌, not_found, expired_token, >>=-eq-ok,
}
use open_id_connect_wasi_hub.Token.{sha2_256_hex}
use open_id_connect_wasi_hub.Models.{Client, User, Session, CibaAuthenticationRequest}
use open_id_connect_wasi_hub.Db.Tables.{Db}
use open_id_connect_wasi_hub.Db.Directory.{find_client_by_id, find_user_by_id}
use open_id_connect_wasi_hub.Db.Ciba.{find_for_update, consume}
use open_id_connect_wasi_hub.Db.Sessions.{create}
use open_id_connect_wasi_hub.Db.Transaction.{
  IsUp, connected-ok, connected-ok_of_body, begin_with, with_transaction,
}
use open_id_connect_wasi_hub.Flows.State.{OidcState, Draw, TokenResponse}
use open_id_connect_wasi_hub.Flows.Ciba.{
  CibaPoll, CibaOutcome, tokens_issued, protocol_error, Clocks, Issued, enabled_only,
  enabled_user_only, poll_pending_request, Standing, is_pending, is_approved, is_refused,
  standing_of, issue, acr_or_bronze, session_of, response_of, exchange, proceed, check_client,
  answer_request, ciba_body, outcome_of, execute,
}

outcome_of-ok :
    (o : Result CibaOutcome) (r : TokenResponse) → outcome_of o ≡ ok r → o ≡ ok (tokens_issued r)
outcome_of-ok (ok (tokens_issued t)) r h = cc
outcome_of-ok (ok (protocol_error e)) r h = cc
outcome_of-ok (err e) r h = cc

module _ (st : OidcState) (req : CibaPoll) where
  -- The request that a poll names.
  abbrev pub request_named : Db → Option CibaAuthenticationRequest
  request_named db =
      find_for_update (sha2_256_hex st.external req.auth_req_id) db.ciba_authentication_requests

  pub execute-ok :
      (clocks : Clocks) (draw : Draw) (db db' : Db) (r : TokenResponse)
      → execute st req clocks draw db ≡ (ok r, db')
      → ciba_body st req clocks draw db ≡ ok (tokens_issued r, db')
  unfolding execute
  execute-ok clocks draw db db' r h =
      let called =
        begin_with draw.link.connect db
          (with_transaction draw.link (ciba_body st req clocks draw) db) in
      connected-ok draw.link (ciba_body st req clocks draw) db db' (tokens_issued r)
        (λ i. (outcome_of-ok called.0 r (λ j. (h j).0) i, (h i).1))

  pub execute_of_body :
      (clocks : Clocks) (draw : Draw) (db db' : Db) (outcome : CibaOutcome)
      → IsUp draw.link
      → ciba_body st req clocks draw db ≡ ok (outcome, db')
      → execute st req clocks draw db ≡ (outcome_of (ok outcome), db')
  unfolding execute
  execute_of_body clocks draw db db' outcome up h =
      rw (connected-ok_of_body draw.link (ciba_body st req clocks draw) db db' outcome up h) refl

  -- Everything that the checks establish.
  pub record IsGranted (clocks : Clocks) (db : Db) (request : CibaAuthenticationRequest)
      (client : Client) (user : User) : Type 0 where
    pub found : request_named db ≡ some request
    pub unexpired : leb request.expires_at clocks.at_expiry ≡ false
    pub approved : request.status ≡ "approved"
    pub registered : find_client_by_id request.client_id db ≡ some client
    pub client_enabled : client.enabled ≡ true
    pub identifier : client.client_id ≡ req.client_id
    pub known : find_user_by_id request.user_id db ≡ some user
    pub user_enabled : user.enabled ≡ true

  -- A success consumes the request and adds one session, with the scopes that were approved and the
  -- assurance of the approval.
  pub record IsExchanged (draw : Draw) (db db' : Db) (request : CibaAuthenticationRequest)
      (client : Client) (user : User) : Type 0 where
    pub session : Session
    pub consumed : db' ≡ record db {
      sessions = create draw.db_now session db.sessions;
      ciba_authentication_requests = consume request.id draw.db_now db.ciba_authentication_requests;
    }
    pub of_user : session.user_id ≡ some user.id
    pub of_realm : session.realm_id ≡ request.realm_id
    pub of_client : session.client_id ≡ client.id
    pub in_family : session.token_family_id ≡ some draw.token_family_id
    pub of_scope : session.scope ≡ request.scope
    pub of_acr : session.acr ≡ acr_or_bronze request.acr
    pub of_amr : session.amr ≡ request.amr
    pub online : session.offline_session ≡ false

  pub check_client_sound :
      (request : CibaAuthenticationRequest) (db : Db) (client : Client)
      → check_client req request db ≡ ok client
      → (find_client_by_id request.client_id db ≡ some client)
        × (client.enabled ≡ true)
        × (client.client_id ≡ req.client_id)
  unfolding check_client enabled_only
  check_client_sound request db client h =
      elim (Option-cases (find_client_by_id request.client_id db)) [
        | inl absent ↦ absurd (ground (arith, absent))
        | inr (c, found) ↦ ground (arith, found, eq_iff c.client_id req.client_id)
      ]

  standing_of_approved : (status : String) → standing_of status ≡ is_approved → status ≡ "approved"
  unfolding standing_of
  standing_of_approved status h = ground (arith, eq_iff status "approved")

  pub exchange_sound :
      (draw : Draw) (db db' : Db) (request : CibaAuthenticationRequest) (client : Client)
      (outcome : CibaOutcome)
      → exchange st req draw request client db ≡ ok (outcome, db')
      → (user : User) × (enabled_user_only (find_user_by_id request.user_id db) ≡ some user)
        × IsExchanged draw db db' request client user
  unfolding exchange
  exchange_sound draw db db' request client outcome h =
      let (user, known, h) =
        >>=-eq-ok
          (ok_or (enabled_user_only (find_user_by_id request.user_id db)) (not_found "user")) _ h in
      let (issued, e, h) = >>=-eq-ok (issue st req draw request user client db) _ h in
      (
        user,
        ground arith,
        record {
          session = session_of st draw request user client issued;
          consumed = ground arith;
          of_user = refl;
          of_realm = refl;
          of_client = refl;
          in_family = refl;
          of_scope = refl;
          of_acr = refl;
          of_amr = refl;
          online = refl;
        },
      )

  enabled_user_only_lem :
      (o : Option User) (user : User)
      → enabled_user_only o ≡ some user
      → (o ≡ some user) × (user.enabled ≡ true)
  unfolding enabled_user_only
  enabled_user_only_lem none user h = cc
  enabled_user_only_lem (some u) user h = ground arith

  proceed_sound :
      (standing : Standing) (now : ℕ) (draw : Draw) (db db' : Db)
      (request : CibaAuthenticationRequest) (client : Client) (r : TokenResponse)
      → proceed standing st req now draw request client db ≡ ok (tokens_issued r, db')
      → (standing ≡ is_approved)
        × (exchange st req draw request client db ≡ ok (tokens_issued r, db'))
  unfolding proceed poll_pending_request
  proceed_sound is_pending now draw db db' request client r h = ground arith
  proceed_sound is_approved now draw db db' request client r h = (refl, h)
  proceed_sound (is_refused e) now draw db db' request client r h = cc

  pub answer_request_live :
      (clocks : Clocks) (draw : Draw) (request : CibaAuthenticationRequest) (db : Db)
      → leb request.expires_at clocks.at_expiry ≡ false
      → answer_request st req clocks draw request db ≡ (
          check_client req request db >>= (λ client.
            proceed (standing_of request.status) st req clocks.at_interval draw request client db))
  unfolding answer_request
  answer_request_live clocks draw request db live = rw live refl

  answer_request_unexpired :
      (clocks : Clocks) (draw : Draw) (db db' : Db) (request : CibaAuthenticationRequest)
      (r : TokenResponse)
      → answer_request st req clocks draw request db ≡ ok (tokens_issued r, db')
      → leb request.expires_at clocks.at_expiry ≡ false
  unfolding answer_request
  answer_request_unexpired clocks draw db db' request r h =
      elim (Bool-cases (leb request.expires_at clocks.at_expiry)) [
        | inl late ↦ absurd (ground (arith, late))
        | inr live ↦ live
      ]

  ciba_body_sound :
      (clocks : Clocks) (draw : Draw) (db db' : Db) (r : TokenResponse)
      → ciba_body st req clocks draw db ≡ ok (tokens_issued r, db')
      → (request : CibaAuthenticationRequest) × (client : Client) × (user : User) × IsGranted clocks
          db request client user
        × IsExchanged draw db db' request client user
  unfolding ciba_body
  ciba_body_sound clocks draw db db' r h =
      let (request, found, h) = >>=-eq-ok (ok_or (request_named db) expired_token) _ h in
      let live = answer_request_unexpired clocks draw db db' request r h in
      let (client, checked, h) =
        >>=-eq-ok (check_client req request db) _
          (sym (answer_request_live clocks draw request db live) ∙ h) in
      let (standing, done) =
        proceed_sound (standing_of request.status) clocks.at_interval draw db db' request client r
          h in
      let (registered, client_enabled, identifier) = check_client_sound request db client checked in
      let (user, active, exchanged) =
        exchange_sound draw db db' request client (tokens_issued r) done in
      let (known, user_enabled) =
        enabled_user_only_lem (find_user_by_id request.user_id db) user active in
      (
        request,
        client,
        user,
        record {
          found = ground arith;
          unexpired = live;
          approved = standing_of_approved request.status standing;
          registered = registered;
          client_enabled = client_enabled;
          identifier = identifier;
          known = known;
          user_enabled = user_enabled;
        },
        exchanged,
      )

  -- Tokens are issued only for a stored request that has been approved and has not expired, to the
  -- enabled client that made it, for a user who is enabled. The request is consumed, and one session is
  -- added, of that user, with the approved scopes and the assurance of the approval. All else is as it
  -- was.
  pub ciba_sound :
      (clocks : Clocks) (draw : Draw) (db db' : Db) (r : TokenResponse)
      → execute st req clocks draw db ≡ (ok r, db')
      → (request : CibaAuthenticationRequest) × (client : Client) × (user : User) × IsGranted clocks
          db request client user
        × IsExchanged draw db db' request client user
  ciba_sound clocks draw db db' r h =
      ciba_body_sound clocks draw db db' r (execute-ok clocks draw db db' r h)

  module _ (clocks : Clocks) (draw : Draw) (db : Db) (request : CibaAuthenticationRequest)
      (client : Client) (found : request_named db ≡ some request)
      (live : leb request.expires_at clocks.at_expiry ≡ false)
      (known : find_client_by_id request.client_id db ≡ some client) (on : client.enabled ≡ true)
      (same : client.client_id ≡ req.client_id) where
    check_client-ok : check_client req request db ≡ ok client
    unfolding check_client enabled_only
    check_client-ok = ground (arith, eq_iff client.client_id req.client_id)

    pub ciba_body-proceed :
        ciba_body st req clocks draw db
        ≡ proceed (standing_of request.status) st req clocks.at_interval draw request client db
    unfolding ciba_body answer_request
    ciba_body-proceed = rw (found, live, check_client-ok) refl

    exchange_issued :
        (user : User) (issued : Issued)
        → find_user_by_id request.user_id db ≡ some user
        → user.enabled ≡ true
        → issue st req draw request user client db ≡ ok issued
        → exchange st req draw request client db
          ≡ ok (
            tokens_issued (response_of req request issued),
            record db {
              sessions =
                  create draw.db_now (session_of st draw request user client issued) db.sessions;
              ciba_authentication_requests =
                  consume request.id draw.db_now db.ciba_authentication_requests;
            },
          )
    unfolding exchange enabled_user_only
    exchange_issued user issued there active e =
        let known : enabled_user_only (find_user_by_id request.user_id db) ≡ some user =
          ground arith in
        rw (known, e) refl

    -- Services that issue tokens are enough: a request that is approved and unexpired, polled by the
    -- enabled client that made it for an enabled user over a connection without a fault, is answered
    -- with the tokens issued.
    pub ciba_complete :
        (user : User) (issued : Issued)
        → request.status ≡ "approved"
        → find_user_by_id request.user_id db ≡ some user
        → user.enabled ≡ true
        → issue st req draw request user client db ≡ ok issued
        → IsUp draw.link
        → (execute st req clocks draw db).0 ≡ ok (response_of req request issued)
    unfolding standing_of proceed
    ciba_complete user issued approved there active e up =
        let after = record db {
          sessions = create draw.db_now (session_of st draw request user client issued) db.sessions;
          ciba_authentication_requests =
              consume request.id draw.db_now db.ciba_authentication_requests;
        } in
        ap (λ p. p.0)
          (execute_of_body clocks draw db after (tokens_issued (response_of req request issued)) up
            (rw (ciba_body-proceed, ap standing_of approved)
              (exchange_issued user issued there active e)))
