-- ===== src/Endpoints/CibaDecision/Soundness.antt =====
-- Who may approve a backchannel request, and what the approval gives.
use open_id_connect_wasi_hub.Prelude.{
  ℕ, ◌≡◌, ap, subst, String, Option, some, true, ◌==◌, ◌||◌, not, arith, eq_iff, string_eq, nat_eq,
  ltb, inl, inr,
}
use open_id_connect_wasi_hub.Error.{
  ok, ok_or, guard, >>=-eq-ok, invalid_input, ok_or-eq-ok, Result-cases, not_found,
}
use open_id_connect_wasi_hub.Models.{CibaAuthenticationRequest, AuditEvent}
use open_id_connect_wasi_hub.Db.Tables.{Db}
use open_id_connect_wasi_hub.Db.Ciba.{find_user_request, decide}
use open_id_connect_wasi_hub.Db.Audit.{create_event}
use open_id_connect_wasi_hub.Flows.State.{OidcState}
use open_id_connect_wasi_hub.Endpoints.Account.{AccountContext, current_account}
use open_id_connect_wasi_hub.Endpoints.CibaDecision.{
  CibaHost, DecisionDraw, Answer, check_decision, check_request, is_strong_enough, status_of,
  consent_to, announce, audit, decision_event, notify, apply_decision, decide_request,
}

module _ (st : OidcState) (host : CibaHost) (token : Option String) (id : ℕ) (draw : DecisionDraw)
    (db : Db) where
  -- What an accepted decision has checked.
  pub record MayDecide (decision : String) (account : AccountContext)
      (request : CibaAuthenticationRequest) : Type 0 where
    pub signed_in : current_account st token draw.db_now db ≡ ok account
    pub own : find_user_request id account.user.id db.ciba_authentication_requests ≡ some request
    pub pending : request.status ≡ "pending"
    pub unexpired : ltb draw.checked_at request.expires_at ≡ true
    pub strong :
        (not (decision == "approve") || is_strong_enough account.session.acr request) ≡ true

  check_request_sound :
      (decision : String) (account : AccountContext) (request : CibaAuthenticationRequest)
      → check_request decision draw account request ≡ ok tt
      → (request.status ≡ "pending")
        × (ltb draw.checked_at request.expires_at ≡ true)
        × ((not (decision == "approve") || is_strong_enough account.session.acr request) ≡ true)
  unfolding check_request
  check_request_sound decision account request h =
      ground (arith, eq_iff request.status "pending", eq_iff decision "approve")

  check_decision_sound :
      (decision : String) (account : AccountContext) (request : CibaAuthenticationRequest)
      → check_decision st token id decision draw db ≡ ok (account, request)
      → MayDecide decision account request
  unfolding check_decision
  check_decision_sound decision account request h =
      let (_, known, h) =
        >>=-eq-ok
          (guard (decision == "approve" || decision == "deny")
            (invalid_input "decision must be approve or deny"))
          _ h in
      let (who, signed_in, h) = >>=-eq-ok (current_account st token draw.db_now db) _ h in
      let (found, own, h) =
        >>=-eq-ok
          (ok_or (find_user_request id who.user.id db.ciba_authentication_requests)
            (not_found "CIBA request"))
          _ h in
      let (_, checked, h) = >>=-eq-ok (check_request decision draw who found) _ h in
      let (pending, unexpired, strong) = check_request_sound decision who found checked in
      let same : ◌≡◌ {A = AccountContext × CibaAuthenticationRequest} (who, found)
          (account, request) =
        ground arith in
      subst (λ p. MayDecide decision p.0 p.1) same
        (record {
          signed_in = signed_in;
          own =
              ok_or-eq-ok (find_user_request id who.user.id db.ciba_authentication_requests) _ own;
          pending = pending;
          unexpired = unexpired;
          strong = strong;
        })

  pub consent_to_keeps :
      (status : String) (account : AccountContext) (request : CibaAuthenticationRequest)
      → (consent_to status draw account request db).ciba_authentication_requests
        ≡ db.ciba_authentication_requests
  unfolding consent_to
  consent_to_keeps status account request = ground arith

  module _
      (keeps : (e : AuditEvent) (d : Db)
        → (host.dispatch_event e d).ciba_authentication_requests ≡ d.ciba_authentication_requests)
      (account : AccountContext) (request : CibaAuthenticationRequest) (status : String) where
    announce_keeps :
        (before after : Db) (answer : Answer)
        → announce st host draw account request status before ≡ (ok answer, after)
        → after.ciba_authentication_requests ≡ before.ciba_authentication_requests
    unfolding announce audit
    announce_keeps before after answer h = elim (Result-cases (notify host request)) [
      | inl (delivered, e) ↦
          let done = rw (announce, e) at h in
          let given : Answer = record { status = status; notification_delivered = delivered } in
          let event = decision_event st draw account request given in
          subst (λ d. d.ciba_authentication_requests ≡ before.ciba_authentication_requests)
            (ap (λ p. p.1) done)
            (keeps event (record before { audit_events = create_event event before.audit_events }))
      | inr (e, failed) ↦ ground (arith, failed)
    ]

    apply_decision_changes :
        (before after : Db) (answer : Answer)
        → apply_decision st host draw account request id status before ≡ (ok answer, after)
        → after.ciba_authentication_requests
          ≡ (decide id account.user.id status draw.decided_at account.session.acr
              account.session.amr draw.db_now before.ciba_authentication_requests).0
    unfolding apply_decision
    apply_decision_changes before after answer h =
        let (rows, changed) =
          decide id account.user.id status draw.decided_at account.session.acr account.session.amr
            draw.db_now before.ciba_authentication_requests in
        ground (
          arith,
          announce_keeps (record before { ciba_authentication_requests = rows }) after answer,
        )

  -- A decision is accepted only from the signed-in user whom the request asks for, while the request
  -- is pending and unexpired; an approval also needs a session whose level satisfies one of the
  -- requested levels, if any is requested. In the table of requests it changes the rows that
  -- `decide` selects and no other, where workflows leave that table alone.
  pub decide_request_sound :
      (decision : String) (answer : Answer) (db' : Db)
      → ((e : AuditEvent) (d : Db)
          → (host.dispatch_event e d).ciba_authentication_requests ≡ d.ciba_authentication_requests)
      → decide_request st host token id decision draw db ≡ (ok answer, db')
      → (account : AccountContext) × (request : CibaAuthenticationRequest) × MayDecide decision
          account request
        × (db'.ciba_authentication_requests
            ≡ (decide id account.user.id
                (status_of decision)
                draw.decided_at
                account.session.acr
                account.session.amr
                draw.db_now
                db.ciba_authentication_requests).0)
  unfolding decide_request
  decide_request_sound decision answer db' keeps h =
      elim (Result-cases (check_decision st token id decision draw db)) [
        | inl ((account, request), e) ↦
            let done = rw (decide_request, e) at h in
            let status = status_of decision in
            (
              account,
              request,
              check_decision_sound decision account request e,
              rw⁻¹ (consent_to_keeps status account request) (
                  apply_decision_changes keeps account request status
                    (consent_to status draw account request db) db' answer done),
            )
        | inr (e, failed) ↦ absurd (ground (arith, failed))
      ]
