-- ===== src/Flows/Password/Success.antt =====
-- What a sign-in has checked, and stores, when it answers with tokens.
use open_id_connect_wasi_hub.Prelude.{some, ◌≡◌, refl, ap, sym, ◌∙◌, List, [], ◌∷◌, arith, inl, inr}
use open_id_connect_wasi_hub.Error.{ok, Result-cases}
use open_id_connect_wasi_hub.Models.{Session}
use open_id_connect_wasi_hub.Token.{sha2_256_hex}
use open_id_connect_wasi_hub.Db.Tables.{Db}
use open_id_connect_wasi_hub.Db.Sessions.{create}
use open_id_connect_wasi_hub.Db.Consents.{grant}
use open_id_connect_wasi_hub.Db.Attempt.{writes, settled, >>=-eq-ok, reads_then, settled-ok}
use open_id_connect_wasi_hub.Db.Transaction.{connected-ok}
use open_id_connect_wasi_hub.Actions.{RequiredActionKind}
use open_id_connect_wasi_hub.Flows.State.{Draw}
use open_id_connect_wasi_hub.Flows.Password.Setting.{
  SignInRequest, SignInHost, SignInDraw, PasswordFlowResult, authenticated,
}
use open_id_connect_wasi_hub.Flows.Password.Credentials.{
  Identified, check_input, identify, log_event,
}
use open_id_connect_wasi_hub.Flows.Password.Tokens.{
  Assurance, Issued, issue, store, result_of, session_of, login_event,
}
use open_id_connect_wasi_hub.Flows.Password.SignIn.{
  Factor, assured, rejected, challenged, check_factor, actions_of, challenge_or_authenticate,
  create_challenge, authenticate, conclude, sign_in_body, execute, with_federation,
}
use open_id_connect_wasi_hub.Flows.Password.Checked.{
  IsIdentified, identify_sound, IsProved, check_factor_sound,
}

module _ (host : SignInHost) (req : SignInRequest) (draw : Draw) (sign_in : SignInDraw) where
  -- Everything that a sign-in with tokens establishes. `found` are the tables once the user is
  -- known, which a directory may have changed, and `proved` those after the second factor.
  pub record IsSignedIn (db db' : Db) (r : PasswordFlowResult) : Type 0 where
    pub who : Identified
    pub found : Db
    pub identified : IsIdentified host req draw.db_now db found who
    pub proved : Db
    pub factor : Assurance
    pub second : IsProved host req draw sign_in who found proved factor
    pub nothing_to_do : actions_of host req draw sign_in who proved ≡ []
    pub issued : Issued
    pub session : Session
    pub stored :
        db'
        ≡ log_event host (login_event host sign_in draw who session) (record proved {
          sessions = create draw.db_now session proved.sessions;
          user_consents =
              grant sign_in.consent_id draw.db_now who.user.id who.user.realm_id who.client.id
                session.scope proved.user_consents;
        })
    pub of_user : session.user_id ≡ some who.user.id
    pub of_client : session.client_id ≡ who.client.id
    pub of_assurance :
        (session.acr ≡ factor.acr) × (session.amr ≡ with_federation who.federation_amr factor.amr)
    pub of_access : session.access_token_hash ≡ sha2_256_hex host.state.external r.access_token
    pub of_refresh :
        session.refresh_token_hash ≡ some (sha2_256_hex host.state.external r.refresh_token)
    pub answered : r ≡ result_of req draw who.user issued

  authenticate_sound :
      (who : Identified) (a : Assurance) (before after : Db) (r : PasswordFlowResult)
      → authenticate host req draw sign_in who a before ≡ (ok (authenticated r), after)
      → (issued : Issued) × (after ≡ store host sign_in draw who a issued before)
        × (r ≡ result_of req draw who.user issued)
  unfolding authenticate
  authenticate_sound who a before after r h =
      let (issued, e, h) = reads_then (issue host.state req draw who a) _ before after h in
      let (_, mid, written, h) =
        >>=-eq-ok (writes (store host sign_in draw who a issued)) _ before after h in
      (issued, sym (ap (λ p. p.1) h) ∙ sym (ap (λ p. p.1) written), ground (arith, ap (λ p. p.0) h))

  challenge_or_authenticate_sound :
      (who : Identified) (a : Assurance) (actions : List RequiredActionKind) (before after : Db)
      (r : PasswordFlowResult)
      → challenge_or_authenticate host req draw sign_in who a actions before
        ≡ (ok (authenticated r), after)
      → (actions ≡ [])
        × (authenticate host req draw sign_in who a before ≡ (ok (authenticated r), after))
  unfolding challenge_or_authenticate
  challenge_or_authenticate_sound who a [] before after r h = (refl, h)
  challenge_or_authenticate_sound who a (action ∷ actions) before after r h =
      let (challenge, mid, made, h) =
        >>=-eq-ok (create_challenge host req draw sign_in who (action ∷ actions)) _ before after
          h in
      absurd (ground (arith, ap (λ p. p.0) h))

  conclude_sound :
      (who : Identified) (factor : Factor) (before after : Db) (r : PasswordFlowResult)
      → conclude host req draw sign_in who factor before ≡ (ok (authenticated r), after)
      → (found : Assurance) × (factor ≡ assured found)
        × (challenge_or_authenticate host req draw sign_in who
              (record { acr = found.acr; amr = with_federation who.federation_amr found.amr })
              (actions_of host req draw sign_in who before)
              before
            ≡ (ok (authenticated r), after))
  unfolding conclude
  conclude_sound who (assured found) before after r h = (found, refl, h)
  conclude_sound who rejected before after r h = absurd (ground (arith, ap (λ p. p.0) h))
  conclude_sound who (challenged c) before after r h = absurd (ground (arith, ap (λ p. p.0) h))

  sign_in_body_sound :
      (db db' : Db) (r : PasswordFlowResult)
      → sign_in_body host req draw sign_in db ≡ (ok (authenticated r), db')
      → IsSignedIn db db' r
  unfolding sign_in_body store session_of result_of
  sign_in_body_sound db db' r h =
      let (who, found, known, h) = >>=-eq-ok (identify host req sign_in draw.db_now) _ db db' h in
      let (factor, proved, checked, h) =
        >>=-eq-ok (check_factor host req draw sign_in who) _ found db' h in
      let (assurance, is_assured, h) = conclude_sound who factor proved db' r h in
      let given : Assurance = record {
        acr = assurance.acr;
        amr = with_federation who.federation_amr assurance.amr;
      } in
      let (nothing, h) =
        challenge_or_authenticate_sound who given (actions_of host req draw sign_in who proved)
          proved db' r h in
      let (issued, stored, answered) = authenticate_sound who given proved db' r h in
      record {
        who = who;
        found = found;
        identified = identify_sound host req sign_in draw.db_now db found who known;
        proved = proved;
        factor = assurance;
        second =
            check_factor_sound host req draw sign_in who found proved assurance
              (checked ∙ (λ i. (ok (is_assured i), proved)));
        nothing_to_do = nothing;
        issued = issued;
        session = session_of host.state draw who given issued;
        stored = stored;
        of_user = refl;
        of_client = refl;
        of_assurance = (refl, refl);
        of_access = ap (λ x. sha2_256_hex host.state.external x.access_token) (sym answered);
        of_refresh =
            ap (λ x. some (sha2_256_hex host.state.external x.refresh_token)) (sym answered);
        answered = answered;
      }

  -- A sign-in is answered with tokens only for an enabled user who is not blocked by an organization,
  -- in an enabled realm, for an enabled client of the realm; a user with a second factor has proved it,
  -- and no action is required of the user. Without a Kerberos ticket, fewer than five recent failures
  -- are counted for the name, and the password was verified: against the stored hash of the user with
  -- that name, or by a directory where there is no hash. With a ticket, a directory accepts the ticket,
  -- and neither a password nor failures are looked at. It stores one session, of that user and client,
  -- with the assurance that was proved and the digests of the tokens, then the consent to its scopes and
  -- the event of the sign-in.
  pub sign_in_sound :
      (db db' : Db) (r : PasswordFlowResult)
      → execute host req draw sign_in db ≡ (ok (authenticated r), db')
      → IsSignedIn db db' r
  unfolding execute
  sign_in_sound db db' r h = elim (Result-cases (check_input req)) [
    | inl (u, checked) ↦ sign_in_body_sound db db' r (
        settled-ok (sign_in_body host req draw sign_in db) db' (
          connected-ok draw.link (λ before. settled (sign_in_body host req draw sign_in before)) db
            db' (authenticated r) (rw (execute, checked) at h)))
    | inr (e, refused) ↦ absurd (ground (arith, refused, ap (λ p. p.0) h))
  ]
