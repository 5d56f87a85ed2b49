-- ===== src/Endpoints/CibaDecision.antt =====
-- `decide_request`, `audit` and `acr_satisfies` of crates/oidc-oidc/src/endpoints/ciba.rs: the user's
-- answer to a backchannel request. The handler has no transaction.
pub mod Soundness
pub mod EndToEnd
pub mod Spent
pub mod Lifecycle
use open_id_connect_wasi_hub.Prelude.{
  ℕ, String, List, [], ◌∷◌, Option, none, some, Bool, true, false, not, ◌==◌, ◌&&◌, ◌||◌, string_eq,
  nat_eq, if◌then◌else◌, ltb, any, is_empty,
}
use open_id_connect_wasi_hub.Error.{
  Result, ok, err, ok_or, guard, ◌>>=◌, ◌>>◌, not_found, invalid_input, conflict,
  authorization_denied, internal,
}
use open_id_connect_wasi_hub.Acr.{acr_bronze, acr_silver}
use open_id_connect_wasi_hub.Models.{CibaAuthenticationRequest, AuditEvent, ActorType}
use open_id_connect_wasi_hub.Db.Tables.{Db}
use open_id_connect_wasi_hub.Db.Ciba.{find_user_request, decide}
use open_id_connect_wasi_hub.Db.Consents.{grant}
use open_id_connect_wasi_hub.Db.Audit.{create_event}
use open_id_connect_wasi_hub.Flows.State.{OidcState, text, flag}
use open_id_connect_wasi_hub.Endpoints.Account.{AccountContext, current_account}

-- What the handler calls: decryption, the request to the client's endpoint, and the workflows that an
-- audit event starts.
pub record CibaHost : Type 0 where
  pub decrypt_sensitive_string : String → Result String
  pub send_ping : String → String → String → Bool
  pub dispatch_event : AuditEvent → Db → Db

-- New identifiers and the clock where the source reads it; `db_now` is `NOW()`.
pub record DecisionDraw : Type 0 where
  pub consent_id : ℕ
  pub event_id : ℕ
  pub db_now : ℕ
  pub checked_at : ℕ
  pub decided_at : ℕ
  pub logged_at : ℕ

pub record Answer : Type 0 where
  pub status : String
  pub notification_delivered : Bool

unfoldable pub acr_satisfies : String → String → Bool
acr_satisfies actual requested =
    actual == requested || (actual == acr_silver && requested == acr_bronze)

unfoldable pub is_strong_enough : String → CibaAuthenticationRequest → Bool
unfolding acr_satisfies
is_strong_enough acr request =
    is_empty request.requested_acr || any (acr_satisfies acr) request.requested_acr

-- The checks of the request.
unfoldable pub check_request :
    String → DecisionDraw → AccountContext → CibaAuthenticationRequest → Result (Unit {0})
check_request decision draw account request = do
  guard (request.status == "pending" && ltb draw.checked_at request.expires_at)
      (conflict "This request is no longer pending")
  guard (not (decision == "approve") || is_strong_enough account.session.acr request) (
      authorization_denied
        "Sign in with a stronger authentication method before approving this request")

-- The checks, in the order of the source. Nothing is written here.
unfoldable pub check_decision :
    OidcState
    → Option String
    → ℕ
    → String
    → DecisionDraw
    → Db
    → Result (AccountContext × CibaAuthenticationRequest)
check_decision st token id decision draw db = do
  guard (decision == "approve" || decision == "deny")
      (invalid_input "decision must be approve or deny")
  account ← current_account st token draw.db_now db
  request ←
      ok_or (find_user_request id account.user.id db.ciba_authentication_requests)
        (not_found "CIBA request")
  check_request decision draw account request
  ok (account, request)

unfoldable pub status_of : String → String
status_of decision = if decision == "approve" then "approved" else "denied"

unfoldable pub audit : OidcState → CibaHost → AuditEvent → Db → Db
audit st host event db =
    host.dispatch_event event (record db { audit_events = create_event event db.audit_events })

unfoldable pub decision_event :
    OidcState → DecisionDraw → AccountContext → CibaAuthenticationRequest → Answer → AuditEvent
decision_event st draw account request answer = record {
  id = draw.event_id;
  realm_id = some request.realm_id;
  event_type =
      if answer.status == "approved" then "CIBA_REQUEST_APPROVED" else "CIBA_REQUEST_DENIED";
  actor_id = some account.user.id;
  actor_type = ActorType.user;
  target_type = some "ciba_request";
  target_id = some request.id;
  details = st.json_object (
      ("client_id", text (st.external.uuid_text request.client_id))
      ∷ ("notification_delivered", flag answer.notification_delivered)
      ∷ []);
  ip_address = none;
  user_agent = none;
  created_at = draw.logged_at;
}

-- The notification of a client in ping mode; a failed delivery is only logged.
unfoldable pub notify : CibaHost → CibaAuthenticationRequest → Result Bool
notify host request =
    if request.delivery_mode == "ping"
    then (do
      uri ← ok_or request.client_notification_endpoint (internal "ping endpoint missing")
      encrypted ←
          ok_or request.client_notification_token_encrypted (internal "notification token missing")
      token ← host.decrypt_sensitive_string encrypted
      auth_req_id ← host.decrypt_sensitive_string request.auth_req_id_encrypted
      ok (host.send_ping uri token auth_req_id))
    else ok true

-- The consent, granted only for an approval.
unfoldable pub consent_to :
    String → DecisionDraw → AccountContext → CibaAuthenticationRequest → Db → Db
consent_to status draw account request db =
    if status == "approved"
    then record db {
      user_consents =
          grant draw.consent_id draw.db_now account.user.id account.user.realm_id request.client_id
            request.scope db.user_consents;
    }
    else db

-- The rest of the handler once the row is changed.
unfoldable pub announce :
    OidcState
    → CibaHost
    → DecisionDraw
    → AccountContext
    → CibaAuthenticationRequest
    → String
    → Db
    → Result Answer × Db
unfolding audit decision_event
announce st host draw account request status db = elim (notify host request) [
  | err e ↦ (err e, db)
  | ok delivered ↦
      let answer : Answer = record { status = status; notification_delivered = delivered } in
      (ok answer, audit st host (decision_event st draw account request answer) db)
]

-- The `UPDATE` changes no row when the request was handled meanwhile.
unfoldable pub apply_decision :
    OidcState
    → CibaHost
    → DecisionDraw
    → AccountContext
    → CibaAuthenticationRequest
    → ℕ
    → String
    → Db
    → Result Answer × Db
apply_decision st host draw account request id status db =
    let (rows, changed) =
      decide id account.user.id status draw.decided_at account.session.acr account.session.amr
        draw.db_now db.ciba_authentication_requests in
    if changed == 0
    then (err (conflict "This request was already handled"), db)
    else announce st host draw account request status
        (record db { ciba_authentication_requests = rows })

unfoldable pub decide_request :
    OidcState → CibaHost → Option String → ℕ → String → DecisionDraw → Db → Result Answer × Db
unfolding apply_decision consent_to
decide_request st host token id decision draw db =
    elim (check_decision st token id decision draw db) [
      | err e ↦ (err e, db)
      | ok (account, request) ↦
          apply_decision st host draw account request id (status_of decision)
            (consent_to (status_of decision) draw account request db)
    ]
