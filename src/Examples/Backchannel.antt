-- ===== src/Examples/Backchannel.antt =====
-- Backchannel authentication on the realm of Fixture: the user of the session approves, and the client
-- polls.
use open_id_connect_wasi_hub.Prelude.{
  ◌≡◌, ◌||◌, refl, [], ◌∷◌, none, some, true, string_eq, contains, String,
}
use open_id_connect_wasi_hub.Error.{ok, err, OidcError}
use open_id_connect_wasi_hub.Models.{Client, User, CibaAuthenticationRequest}
use open_id_connect_wasi_hub.Db.Tables.{Db}
use open_id_connect_wasi_hub.Db.Ciba.{
  decide, find_for_update, find_user_request, cleanup_expired_requests,
}
use open_id_connect_wasi_hub.Db.Consents.{grant}
use open_id_connect_wasi_hub.Db.Consents.Laws.{consented, contains-grant}
use open_id_connect_wasi_hub.Db.Transaction.{with_transaction}
use open_id_connect_wasi_hub.Flows.State.{TokenResponse}
use open_id_connect_wasi_hub.Flows.Ciba
use open_id_connect_wasi_hub.Flows.Ciba.{CibaPoll, Clocks, Issued, issue, response_of, ciba_body}
use open_id_connect_wasi_hub.Flows.Ciba.Polling.{
  request_named, ciba_sound, ciba_complete, IsGranted, IsExchanged,
}
use open_id_connect_wasi_hub.Endpoints.Account.{AccountContext, current_account}
use open_id_connect_wasi_hub.Endpoints.CibaDecision.{
  CibaHost, DecisionDraw, Answer, decide_request, status_of, announce, check_decision,
  check_request, is_strong_enough, notify,
}
use open_id_connect_wasi_hub.Endpoints.CibaDecision.Soundness.{decide_request_sound, MayDecide}
use open_id_connect_wasi_hub.Endpoints.CibaDecision.EndToEnd.{approved_by, approved-execute}
use open_id_connect_wasi_hub.Endpoints.CibaDecision.Lifecycle.{
  here, then_step, cleaned, Reach-refused,
}
use open_id_connect_wasi_hub.Examples.Fixture.{
  state, client, user, session, database, draw_at, link-IsUp,
}
use open_id_connect_wasi_hub.Db.Sessions.{find_by_access_token_hash}
use open_id_connect_wasi_hub.Token.{sha2_256_hex}
use open_id_connect_wasi_hub.Db.Directory.{find_client_by_id, find_user_by_id}
use open_id_connect_wasi_hub.Flows.Claims.{token_type_of}

abbrev request : CibaAuthenticationRequest
request = record {
  id = 8;
  auth_req_id_hash = "xxxxx";
  auth_req_id_encrypted = "";
  client_id = 1;
  realm_id = 5;
  user_id = 2;
  scope = "openid" ∷ [];
  binding_message = none;
  request_context = none;
  client_notification_token_encrypted = none;
  delivery_mode = "poll";
  client_notification_endpoint = none;
  status = "pending";
  interval_seconds = 58;
  last_polled_at = some 10;
  requested_acr = "urn" ∷ [];
  auth_time = none;
  acr = none;
  amr = [];
  expires_at = 200;
  created_at = 0;
  updated_at = 0;
}

abbrev asked : Db
asked = record database { ciba_authentication_requests = request ∷ [] }

abbrev host : CibaHost
host = record {
  decrypt_sensitive_string = λ s. ok s;
  send_ping = λ uri token id. true;
  dispatch_event = λ event db. db;
}

abbrev deciding : DecisionDraw
deciding = record {
  consent_id = 50;
  event_id = 51;
  db_now = 20;
  checked_at = 20;
  decided_at = 21;
  logged_at = 22;
}

abbrev account : AccountContext
account = record { user = user; session = session }

signed_in : current_account state (some "to") 20 asked ≡ ok account
unfolding current_account find_by_access_token_hash sha2_256_hex find_user_by_id
signed_in = refl

abbrev approved : Db
approved = (decide_request state host (some "to") 8 "approve" deciding asked).1

abbrev given : Answer
given = record { status = "approved"; notification_delivered = true }

approval : decide_request state host (some "to") 8 "approve" deciding asked ≡ (ok given, approved)
unfolding decide_request check_decision current_account find_by_access_token_hash sha2_256_hex
    find_user_by_id find_user_request check_request is_strong_enough decide status_of announce
    notify
approval = refl

decide_request_sound_example :
    (a : AccountContext) × (r : CibaAuthenticationRequest) × MayDecide state host
      (some "to")
      8
      deciding
      asked
      "approve"
      a
      r
    × (approved.ciba_authentication_requests
        ≡ (decide 8 a.user.id
            (status_of "approve")
            21
            a.session.acr
            a.session.amr
            20
            asked.ciba_authentication_requests).0)
decide_request_sound_example =
    decide_request_sound state host (some "to") 8 deciding asked "approve" given approved
      (λ event db. refl) approval

abbrev poll : CibaPoll
poll = record { auth_req_id = "req-1"; client_id = "client"; dpop_jkt = none }

abbrev clocks : Clocks
clocks = record { at_expiry = 30; at_interval = 30 }

abbrev issued : Issued
issued = record {
  access_token = "access";
  id_token = "identity";
  refresh_token = "fresh-token";
  sid = "sid";
}

named : request_named state poll asked ≡ some request
unfolding find_for_update sha2_256_hex
named = refl

abbrev accepted : CibaAuthenticationRequest
accepted = approved_by deciding account request

issues : issue state poll (draw_at 40 30) accepted user client approved ≡ ok issued
unfolding issue
issues = refl

approved-execute_example :
    (Ciba.execute state poll clocks (draw_at 40 30) approved).0
    ≡ ok (response_of poll accepted issued)
unfolding find_client_by_id decide_request check_decision current_account find_by_access_token_hash
    sha2_256_hex find_user_by_id find_user_request check_request is_strong_enough decide status_of
    announce notify
approved-execute_example =
    approved-execute state host (some "to") 8 deciding asked account poll request given approved
      clocks (draw_at 40 30) client user issued (tt, tt) (λ event db. refl) named refl refl
      signed_in approval refl refl refl refl refl refl issues link-IsUp

-- The tables once the user has approved.
abbrev ready : Db
ready = record database { ciba_authentication_requests = accepted ∷ [] }

named_accepted : request_named state poll ready ≡ some accepted
unfolding find_for_update sha2_256_hex
named_accepted = refl

issues_ready : issue state poll (draw_at 40 30) accepted user client ready ≡ ok issued
unfolding issue
issues_ready = refl

ciba_complete_example :
    (Ciba.execute state poll clocks (draw_at 40 30) ready).0 ≡ ok (response_of poll accepted issued)
unfolding find_client_by_id find_user_by_id
ciba_complete_example =
    ciba_complete state poll clocks (draw_at 40 30) ready accepted client named_accepted refl refl
      refl refl user issued refl refl refl issues_ready link-IsUp

abbrev answer : TokenResponse
answer = record {
  access_token = "access";
  token_type = "Bearer";
  expires_in = 900;
  refresh_token = "fresh-token";
  id_token = "identity";
  scope = "openid";
}

abbrev exchanged : Db
exchanged = (Ciba.execute state poll clocks (draw_at 40 30) ready).1

polled : Ciba.execute state poll clocks (draw_at 40 30) ready ≡ (ok answer, exchanged)
unfolding Ciba.execute with_transaction ciba_body find_for_update sha2_256_hex Ciba.check_client
    find_client_by_id Ciba.proceed Ciba.standing_of Ciba.exchange Ciba.enabled_user_only
    find_user_by_id issue token_type_of
polled = refl

ciba_sound_example :
    (r : CibaAuthenticationRequest) × (c : Client) × (u : User) × IsGranted state poll clocks ready
      r c u
    × IsExchanged state poll (draw_at 40 30) ready exchanged r c u
ciba_sound_example = ciba_sound state poll clocks (draw_at 40 30) ready exchanged answer polled

-- A clean-up between the two polls.
abbrev cleaned_up : Db
cleaned_up = record exchanged {
  ciba_authentication_requests =
      (cleanup_expired_requests 45 exchanged.ciba_authentication_requests).0;
}

abbrev later : Clocks
later = record { at_expiry = 50; at_interval = 50 }

Reach-refused_example :
    (e : OidcError) × ((Ciba.execute state poll later (draw_at 41 50) cleaned_up).0 ≡ err e)
Reach-refused_example =
    Reach-refused state host poll poll clocks later (draw_at 40 30) (draw_at 41 50) ready exchanged
      cleaned_up answer (λ event db. refl) (tt, tt) polled
      (then_step exchanged exchanged cleaned_up (here exchanged) (cleaned 45 exchanged)) refl

contains-grant_example :
    contains {A = String} (consented 2 1 (grant 9 5 2 5 1 ("b" ∷ "a" ∷ []) [])) "a"
    ≡ (contains {A = String} (consented 2 1 []) "a" || contains {A = String} ("b" ∷ "a" ∷ []) "a")
contains-grant_example = contains-grant 9 5 2 5 1 ("b" ∷ "a" ∷ []) [] "a"
