-- ===== src/Endpoints/CibaDecision/Spent.antt =====
-- A digest of a backchannel request that is spent stays spent, whatever a poll or a decision does.
use open_id_connect_wasi_hub.Prelude.{
  ℕ, ◌≡◌, ◌≢◌, refl, sym, ◌∙◌, subst, String, List, [], ◌∷◌, Option, some, true, ◌==◌, inl, inr,
  Bool-cases, arith, eq_iff, string_eq, nat_eq, leb, min, ◌+◌,
}
use open_id_connect_wasi_hub.Error.{ok, ok_or, expired_token, >>=-eq-ok, Result-cases}
use open_id_connect_wasi_hub.Models.{CibaAuthenticationRequest, AuditEvent, Client}
use open_id_connect_wasi_hub.Db.Tables.{Db}
use open_id_connect_wasi_hub.Db.Ciba.{
  create_request, decide, expire, consume, record_poll, cleanup_expired_requests, is_stale,
}
use open_id_connect_wasi_hub.Db.Ciba.Laws.{IsFinal, AllSpent, All-update_where}
use open_id_connect_wasi_hub.Db.Transaction.{connected_keeps}
use open_id_connect_wasi_hub.Flows.State.{OidcState, Draw}
use open_id_connect_wasi_hub.Flows.Ciba
use open_id_connect_wasi_hub.Flows.Ciba.{
  CibaPoll, CibaOutcome, Clocks, Standing, is_pending, is_approved, is_refused, standing_of,
  proceed, poll_pending_request, exchange, check_client, answer_request, ciba_body, is_too_early,
}
use open_id_connect_wasi_hub.Flows.Ciba.Polling.{request_named, exchange_sound, answer_request_live}
use open_id_connect_wasi_hub.Endpoints.CibaDecision.{
  CibaHost, DecisionDraw, Answer, check_decision, consent_to, status_of, announce, audit, notify,
  decision_event, apply_decision, decide_request,
}
use open_id_connect_wasi_hub.Endpoints.CibaDecision.Soundness.{consent_to_keeps}
use open_id_connect_wasi_hub.Endpoints.Account.{AccountContext}
use open_id_connect_wasi_hub.Db.Audit.{create_event}

not_pending : (status : String) → (status == "pending") ≡ true → ¬ (IsFinal status)
not_pending status h final = ground (
  arith,
  eq_iff status "pending",
  eq_iff "pending" "denied",
  eq_iff "pending" "consumed",
  eq_iff "pending" "expired",
)

pub not_approved : (status : String) → status ≡ "approved" → ¬ (IsFinal status)
not_approved status h final =
    ground
      (arith, eq_iff "approved" "denied", eq_iff "approved" "consumed", eq_iff "approved" "expired")

module _ (hash : String) where
  AllSpent-expire :
      (id now : ℕ) (t : List CibaAuthenticationRequest)
      → AllSpent hash t
      → AllSpent hash (expire id now t)
  unfolding expire
  AllSpent-expire id now t =
      All-update_where hash _ (λ r. record r { status = "expired"; updated_at = now })
        (λ x _ _ _. inr (inr refl)) t

  AllSpent-consumed :
      (id now : ℕ) (t : List CibaAuthenticationRequest)
      → AllSpent hash t
      → AllSpent hash (consume id now t)
  unfolding consume
  AllSpent-consumed id now t =
      All-update_where hash _ (λ r. record r { status = "consumed"; updated_at = now })
        (λ x _ _ _. inr (inl refl)) t

  AllSpent-record_poll :
      (id interval now : ℕ) (t : List CibaAuthenticationRequest)
      → AllSpent hash t
      → AllSpent hash (record_poll id interval now t)
  unfolding record_poll
  AllSpent-record_poll id interval now t =
      All-update_where hash _
        (λ r. record r { last_polled_at = some now; interval_seconds = interval; updated_at = now })
        (λ x _ kept same. kept same) t

  AllSpent-decide :
      (id user_id : ℕ) (status : String) (at : ℕ) (acr : String) (amr : List String) (now : ℕ)
      (t : List CibaAuthenticationRequest)
      → AllSpent hash t
      → AllSpent hash (decide id user_id status at acr amr now t).0
  unfolding decide
  AllSpent-decide id user_id status at acr amr now t =
      All-update_where hash _
        (λ r. record r {
          status = status;
          auth_time = some at;
          acr = some acr;
          amr = amr;
          updated_at = now;
        })
        (λ x chosen kept same. absurd (not_pending x.status (ground (arith, chosen)) (kept same))) t

  pub AllSpent-cleanup :
      (now : ℕ) (t : List CibaAuthenticationRequest)
      → AllSpent hash t
      → AllSpent hash (cleanup_expired_requests now t).0
  unfolding cleanup_expired_requests
  AllSpent-cleanup now [] a = tt
  AllSpent-cleanup now (x ∷ t) (a, rest) = elim (Bool-cases (is_stale now x)) [
    | inl stale ↦ rw stale (AllSpent-cleanup now t rest)
    | inr fresh ↦ rw fresh (a, AllSpent-cleanup now t rest)
  ]

  pub AllSpent-create_request :
      (r : CibaAuthenticationRequest) (t : List CibaAuthenticationRequest)
      → r.auth_req_id_hash ≢ hash
      → AllSpent hash t
      → AllSpent hash (create_request r t)
  unfolding create_request
  AllSpent-create_request r [] other a = ((λ e. absurd (other e)), tt)
  AllSpent-create_request r (x ∷ t) other (a, rest) = (a, AllSpent-create_request r t other rest)

  unfoldable pub IsSpent : Db → Type 0
  IsSpent db = AllSpent hash db.ciba_authentication_requests

  module _ (st : OidcState) (req : CibaPoll) (draw : Draw) (db : Db) where
    poll_pending_request-IsSpent :
        (now : ℕ) (request : CibaAuthenticationRequest)
        → IsSpent db
        → IsSpent (poll_pending_request request now draw.db_now db).1
    unfolding poll_pending_request IsSpent
    poll_pending_request-IsSpent now request spent =
        elim (Bool-cases (is_too_early request.last_polled_at request.interval_seconds now)) [
          | inl early ↦ rw early (
              AllSpent-record_poll request.id (min (request.interval_seconds + 5) 60) draw.db_now
                db.ciba_authentication_requests spent)
          | inr in_time ↦ rw in_time (
              AllSpent-record_poll request.id request.interval_seconds draw.db_now
                db.ciba_authentication_requests spent)
        ]

    proceed-IsSpent :
        (standing : Standing) (now : ℕ) (request : CibaAuthenticationRequest) (client : Client)
        (outcome : CibaOutcome) (db' : Db)
        → IsSpent db
        → proceed standing st req now draw request client db ≡ ok (outcome, db')
        → IsSpent db'
    unfolding proceed IsSpent
    proceed-IsSpent is_pending now request client outcome db' spent h =
        let same : (poll_pending_request request now draw.db_now db).1 ≡ db' = ground arith in
        subst IsSpent same (poll_pending_request-IsSpent now request spent)
    proceed-IsSpent is_approved now request client outcome db' spent h =
        let (user, known, exchanged) = exchange_sound st req draw db db' request client outcome h in
        rw exchanged.consumed
          (AllSpent-consumed request.id draw.db_now db.ciba_authentication_requests spent)
    proceed-IsSpent (is_refused e) now request client outcome db' spent h = cc

    answer_request-IsSpent :
        (clocks : Clocks) (request : CibaAuthenticationRequest) (outcome : CibaOutcome) (db' : Db)
        → IsSpent db
        → answer_request st req clocks draw request db ≡ ok (outcome, db')
        → IsSpent db'
    unfolding IsSpent answer_request
    answer_request-IsSpent clocks request outcome db' spent h =
        elim (Bool-cases (leb request.expires_at clocks.at_expiry)) [
          | inl late ↦
              let done = rw (answer_request, late) at h in
              let same : record db {
                ciba_authentication_requests =
                    expire request.id draw.db_now db.ciba_authentication_requests;
              }
                  ≡ db' =
                ground arith in
              subst IsSpent same
                (AllSpent-expire request.id draw.db_now db.ciba_authentication_requests spent)
          | inr live ↦
              let (client, checked, h) =
                >>=-eq-ok (check_client req request db) _
                  (sym (answer_request_live st req clocks draw request db live) ∙ h) in
              proceed-IsSpent (standing_of request.status) clocks.at_interval request client outcome
                db' spent h
        ]

    ciba_body-IsSpent :
        (clocks : Clocks) (outcome : CibaOutcome) (db' : Db)
        → IsSpent db
        → ciba_body st req clocks draw db ≡ ok (outcome, db')
        → IsSpent db'
    unfolding ciba_body
    ciba_body-IsSpent clocks outcome db' spent h =
        let (request, found, h) = >>=-eq-ok (ok_or (request_named st req db) expired_token) _ h in
        answer_request-IsSpent clocks request outcome db' spent h

    pub execute-IsSpent :
        (clocks : Clocks) → IsSpent db → IsSpent (Ciba.execute st req clocks draw db).1
    unfolding Ciba.execute
    execute-IsSpent clocks spent =
        connected_keeps IsSpent draw.link (ciba_body st req clocks draw) db spent
          (λ outcome db' h. ciba_body-IsSpent clocks outcome db' spent h)

  module _ (st : OidcState) (host : CibaHost) (draw : DecisionDraw)
      (keeps : (e : AuditEvent) (d : Db)
        → (host.dispatch_event e d).ciba_authentication_requests
          ≡ d.ciba_authentication_requests) where
    announce-IsSpent :
        (account : AccountContext) (request : CibaAuthenticationRequest) (status : String) (db : Db)
        → IsSpent db
        → IsSpent (announce st host draw account request status db).1
    unfolding announce IsSpent audit
    announce-IsSpent account request status db spent = elim (Result-cases (notify host request)) [
      | inl (delivered, e) ↦
          let given : Answer = record { status = status; notification_delivered = delivered } in
          let event = decision_event st draw account request given in
          rw (announce, e)
            (subst (AllSpent hash)
              (sym (keeps event (record db { audit_events = create_event event db.audit_events })))
              spent)
      | inr (e, failed) ↦ rw (announce, failed) spent
    ]

    apply_decision-IsSpent :
        (account : AccountContext) (request : CibaAuthenticationRequest) (id : ℕ) (status : String)
        (db : Db)
        → IsSpent db
        → IsSpent (apply_decision st host draw account request id status db).1
    unfolding apply_decision IsSpent
    apply_decision-IsSpent account request id status db spent =
        let (rows, changed) =
          decide id account.user.id status draw.decided_at account.session.acr account.session.amr
            draw.db_now db.ciba_authentication_requests in
        elim (Bool-cases (changed == 0)) [
          | inl handled ↦ rw handled spent
          | inr open_still ↦ rw open_still (
              announce-IsSpent account request status
                (record db { ciba_authentication_requests = rows })
                (AllSpent-decide id account.user.id status draw.decided_at account.session.acr
                  account.session.amr draw.db_now db.ciba_authentication_requests spent))
        ]

    pub decide_request-IsSpent :
        (token : Option String) (id : ℕ) (decision : String) (db : Db)
        → IsSpent db
        → IsSpent (decide_request st host token id decision draw db).1
    unfolding decide_request IsSpent
    decide_request-IsSpent token id decision db spent =
        elim (Result-cases (check_decision st token id decision draw db)) [
          | inl ((account, request), e) ↦
              rw (decide_request, e)
                (apply_decision-IsSpent account request id (status_of decision)
                  (consent_to (status_of decision) draw account request db)
                  (subst (AllSpent hash)
                    (sym (
                      consent_to_keeps st host token id draw db (status_of decision) account
                        request))
                    spent))
          | inr (e, failed) ↦ rw (decide_request, failed) spent
        ]
