-- ===== src/Flows/Password/Sessions.antt =====
-- What a sign-in does to the sessions.
use open_id_connect_wasi_hub.Prelude.{
  ℕ, ◌≡◌, refl, ap, ◌∙◌, subst, String, List, [], ◌∷◌, Option, none, some, false, Bool-cases, inl,
  inr,
}
use open_id_connect_wasi_hub.Error.{ok, Result-cases}
use open_id_connect_wasi_hub.Models.{Json, User, Realm, AuditEvent}
use open_id_connect_wasi_hub.Db.Tables.{Db}
use open_id_connect_wasi_hub.Db.Attempt.{writes, settled, >>=-eq-ok, reads_then, settled-ok}
use open_id_connect_wasi_hub.Db.Transaction.{connected_keeps}
use open_id_connect_wasi_hub.Db.Sessions.Families.{
  Revision, unchanged, Revision-after, has_family, has_family-Revision,
}
use open_id_connect_wasi_hub.Db.Sessions.Effects.{Effect, revised, added, then_after}
use open_id_connect_wasi_hub.Actions.{RequiredActionKind}
use open_id_connect_wasi_hub.Actions.Store.{has_mfa}
use open_id_connect_wasi_hub.Flows.State.{Draw}
use open_id_connect_wasi_hub.Flows.Password.Setting.{
  SignInRequest, SignInHost, SignInDraw, PasswordFlowOutcome,
}
use open_id_connect_wasi_hub.Flows.Password.Credentials.{
  Identified, check_input, identify, realm_of, check_failures, resolve_user, with_ticket,
  without_ticket, has_password, local_user, log_event,
}
use open_id_connect_wasi_hub.Flows.Password.Tokens.{
  Assurance, issue, store, session_of, login_event,
}
use open_id_connect_wasi_hub.Flows.Password.SignIn.{
  Factor, assured, rejected, challenged, second_factor, check_factor, actions_of,
  challenge_or_authenticate, create_challenge, authenticate, conclude, sign_in_body, execute,
  with_federation,
}
use open_id_connect_wasi_hub.Flows.Password.Checked.{admit_sound}

-- Directories, the second factor and the workflows of audit events store no session, and at most
-- revoke some.
pub record KeepsSessions (host : SignInHost) : Type 0 where
  pub directory :
      (realm_id : ℕ) (email password : String) (db : Db)
      → Revision db.sessions (host.authenticate_directory realm_id email password db).1.sessions
  pub kerberos :
      (realm_id : ℕ) (ticket : String) (db : Db)
      → Revision db.sessions (host.authenticate_kerberos_directory realm_id ticket db).1.sessions
  pub verify :
      (user_id realm_id client_id : ℕ) (proof : Json) (db : Db)
      → Revision db.sessions (host.verify_login user_id realm_id client_id proof db).1.sessions
  pub begin_login :
      (user_id realm_id client_id : ℕ) (db : Db)
      → Revision db.sessions (host.begin_login user_id realm_id client_id db).1.sessions
  pub dispatch :
      (event : AuditEvent) (db : Db) → Revision db.sessions (host.dispatch_event event db).sessions

abbrev DbRevision : Db → Db → Type 0
DbRevision db db' = Revision db.sessions db'.sessions

module _ (host : SignInHost) (req : SignInRequest) (keeps : KeepsSessions host) where
  with_ticket-Revision :
      (realm : Realm) (given : Option String) (before after : Db) (found : User × Option String)
      → with_ticket host req realm given before ≡ (ok found, after)
      → DbRevision before after
  unfolding with_ticket without_ticket
  with_ticket-Revision realm none before after found h =
      elim (Bool-cases (has_password (local_user host req realm before))) [
        | inl set ↦
            let h = rw (with_ticket, without_ticket, set) at h in
            subst (DbRevision before) (ap (λ p. p.1) h) unchanged
        | inr unset ↦
            let (given, mid, e, h) =
              >>=-eq-ok (host.authenticate_directory realm.id req.email req.password) _ before after
                (rw (with_ticket, without_ticket, unset) at h) in
            subst (DbRevision before) (ap (λ p. p.1) e ∙ ap (λ p. p.1) h)
              (keeps.directory realm.id req.email req.password before)
      ]
  with_ticket-Revision realm (some ticket) before after found h =
      let (given, mid, e, h) =
        >>=-eq-ok (host.authenticate_kerberos_directory realm.id ticket) _ before after h in
      subst (DbRevision before) (ap (λ p. p.1) e ∙ ap (λ p. p.1) h)
        (keeps.kerberos realm.id ticket before)

  identify-Revision :
      (sign_in : SignInDraw) (now : ℕ) (before after : Db) (who : Identified)
      → identify host req sign_in now before ≡ (ok who, after)
      → DbRevision before after
  unfolding identify resolve_user
  identify-Revision sign_in now before after who h =
      let (realm, of_realm, h) = reads_then (realm_of req) _ before after h in
      let (_, few, h) = reads_then (check_failures req realm now) _ before after h in
      let (found, mid, resolved, h) = >>=-eq-ok (resolve_user host req realm) _ before after h in
      let (checked, valid, same, of_client, is_who) =
        admit_sound host req sign_in realm found.0 found.1 mid after who h in
      subst (DbRevision before) same
        (with_ticket-Revision realm req.kerberos_token before mid found resolved)

module _ (host : SignInHost) (req : SignInRequest) (draw : Draw) (sign_in : SignInDraw)
    (keeps : KeepsSessions host) where
  second_factor-Revision :
      (who : Identified) (given : Option Json) (before after : Db) (factor : Factor)
      → second_factor host req draw sign_in who given before ≡ (ok factor, after)
      → DbRevision before after
  unfolding second_factor
  second_factor-Revision who none before after factor h =
      let (challenge, mid, e, h) =
        >>=-eq-ok (host.begin_login who.user.id who.realm.id who.client.id) _ before after h in
      subst (DbRevision before) (ap (λ p. p.1) e ∙ ap (λ p. p.1) h)
        (keeps.begin_login who.user.id who.realm.id who.client.id before)
  second_factor-Revision who (some proof) before after factor h =
      let (verified, mid, e, h) =
        >>=-eq-ok (host.verify_login who.user.id who.realm.id who.client.id proof) _ before after
          h in
      subst (DbRevision before) (ap (λ p. p.1) e ∙ ap (λ p. p.1) h)
        (keeps.verify who.user.id who.realm.id who.client.id proof before)

  check_factor-Revision :
      (who : Identified) (before after : Db) (factor : Factor)
      → check_factor host req draw sign_in who before ≡ (ok factor, after)
      → DbRevision before after
  unfolding check_factor
  check_factor-Revision who before after factor h =
      elim (Bool-cases (has_mfa who.user.id before.actions)) [
        | inl protected ↦
            second_factor-Revision who req.mfa_proof before after factor
              (rw (check_factor, protected) at h)
        | inr plain ↦
            subst (DbRevision before) (ap (λ p. p.1) (rw (check_factor, plain) at h)) unchanged
      ]

  authenticate-Effect :
      (who : Identified) (a : Assurance) (before after : Db) (outcome : PasswordFlowOutcome)
      → has_family draw.token_family_id before.sessions ≡ false
      → authenticate host req draw sign_in who a before ≡ (ok outcome, after)
      → Effect before.sessions after.sessions
  unfolding authenticate store session_of log_event
  authenticate-Effect who a before after outcome new h =
      let (issued, e, h) = reads_then (issue host.state req draw who a) _ before after h in
      let (_, mid, written, h) =
        >>=-eq-ok (writes (store host sign_in draw who a issued)) _ before after h in
      let session = session_of host.state draw who a issued in
      subst (λ d. Effect before.sessions d.sessions) (ap (λ p. p.1) written ∙ ap (λ p. p.1) h)
        (then_after (added draw.db_now session draw.token_family_id refl new)
          (revised (keeps.dispatch (login_event host sign_in draw who session) _)))

  challenge_or_authenticate-Effect :
      (who : Identified) (a : Assurance) (actions : List RequiredActionKind) (before after : Db)
      (outcome : PasswordFlowOutcome)
      → has_family draw.token_family_id before.sessions ≡ false
      → challenge_or_authenticate host req draw sign_in who a actions before ≡ (ok outcome, after)
      → Effect before.sessions after.sessions
  unfolding challenge_or_authenticate create_challenge
  challenge_or_authenticate-Effect who a [] before after outcome new h =
      authenticate-Effect who a before after outcome new h
  challenge_or_authenticate-Effect who a (action ∷ actions) before after outcome new h =
      let (challenge, mid, made, h) =
        >>=-eq-ok (create_challenge host req draw sign_in who (action ∷ actions)) _ before after
          h in
      let (token, drawn, made) = reads_then (λ s. sign_in.action_token) _ before mid made in
      let (_, next, written, made) = >>=-eq-ok (writes _) _ before mid made in
      subst (λ d. Effect before.sessions d.sessions)
        (ap (λ p. p.1) written ∙ ap (λ p. p.1) made ∙ ap (λ p. p.1) h) (revised unchanged)

  conclude-Effect :
      (who : Identified) (factor : Factor) (before after : Db) (outcome : PasswordFlowOutcome)
      → has_family draw.token_family_id before.sessions ≡ false
      → conclude host req draw sign_in who factor before ≡ (ok outcome, after)
      → Effect before.sessions after.sessions
  unfolding conclude
  conclude-Effect who rejected before after outcome new h =
      subst (λ d. Effect before.sessions d.sessions) (ap (λ p. p.1) h) (revised unchanged)
  conclude-Effect who (challenged challenge) before after outcome new h =
      subst (λ d. Effect before.sessions d.sessions) (ap (λ p. p.1) h) (revised unchanged)
  conclude-Effect who (assured found) before after outcome new h =
      challenge_or_authenticate-Effect who
        (record { acr = found.acr; amr = with_federation who.federation_amr found.amr })
        (actions_of host req draw sign_in who before) before after outcome new h

  sign_in_body-Effect :
      (db db' : Db) (outcome : PasswordFlowOutcome)
      → has_family draw.token_family_id db.sessions ≡ false
      → sign_in_body host req draw sign_in db ≡ (ok outcome, db')
      → Effect db.sessions db'.sessions
  unfolding sign_in_body
  sign_in_body-Effect db db' outcome new h =
      let (who, found, known, h) = >>=-eq-ok (identify host req sign_in draw.db_now) _ db db' h in
      let (factor, proved, checked, h) =
        >>=-eq-ok (check_factor host req draw sign_in who) _ found db' h in
      let revision =
        Revision-after (identify-Revision host req keeps sign_in draw.db_now db found who known)
          (check_factor-Revision who found proved factor checked) in
      then_after (revised revision) (
        conclude-Effect who factor proved db' outcome
          (has_family-Revision draw.token_family_id revision ∙ new) h)

  -- A sign-in adds one session of a new family at most, and revokes others at most.
  pub execute-Effect :
      (db : Db)
      → has_family draw.token_family_id db.sessions ≡ false
      → Effect db.sessions (execute host req draw sign_in db).1.sessions
  unfolding execute
  execute-Effect db new = elim (Result-cases (check_input req)) [
    | inl (u, checked) ↦
        rw (execute, checked)
          (connected_keeps (λ d. Effect db.sessions d.sessions) draw.link
            (λ before. settled (sign_in_body host req draw sign_in before)) db (revised unchanged)
            (λ outcome db' h.
              sign_in_body-Effect db db' outcome new
                (settled-ok (sign_in_body host req draw sign_in db) db' h)))
    | inr (e, refused) ↦ rw (execute, refused) (revised unchanged)
  ]
