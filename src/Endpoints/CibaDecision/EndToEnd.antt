-- ===== src/Endpoints/CibaDecision/EndToEnd.antt =====
-- From the user's approval of a backchannel request to the tokens.
use open_id_connect_wasi_hub.Prelude.{
  ℕ, ◌≡◌, refl, ap, sym, ◌∙◌, String, List, Option, some, true, false, arith, eq_iff, nat_beq_iff,
  string_eq, nat_eq, ltb, leb,
}
use open_id_connect_wasi_hub.Error.{ok}
use open_id_connect_wasi_hub.Token.{sha2_256_hex}
use open_id_connect_wasi_hub.Models.{CibaAuthenticationRequest, AuditEvent, Client, User}
use open_id_connect_wasi_hub.Db.Tables.{Db}
use open_id_connect_wasi_hub.Db.Directory.{find_client_by_id, find_user_by_id}
use open_id_connect_wasi_hub.Db.Ciba.{find_for_update, decide, awaits_decision}
use open_id_connect_wasi_hub.Db.Ciba.Laws.{
  DistinctRequests, find_for_update-update_where, find_user_request-find_for_update,
  find_user_request-id,
}
use open_id_connect_wasi_hub.Db.Transaction.{IsUp}
use open_id_connect_wasi_hub.Flows.State.{OidcState, Draw}
use open_id_connect_wasi_hub.Flows.Ciba
use open_id_connect_wasi_hub.Flows.Ciba.{CibaPoll, Clocks, Issued, issue, response_of}
use open_id_connect_wasi_hub.Flows.Ciba.Polling.{ciba_complete, request_named}
use open_id_connect_wasi_hub.Endpoints.Account.{AccountContext, current_account}
use open_id_connect_wasi_hub.Endpoints.CibaDecision.{
  CibaHost, DecisionDraw, Answer, status_of, decide_request,
}
use open_id_connect_wasi_hub.Endpoints.CibaDecision.Soundness.{decide_request_sound}

-- The row after an approval.
abbrev pub approved_by :
    DecisionDraw → AccountContext → CibaAuthenticationRequest → CibaAuthenticationRequest
approved_by draw account r = record r {
  status = "approved";
  auth_time = some draw.decided_at;
  acr = some account.session.acr;
  amr = account.session.amr;
  updated_at = draw.db_now;
}

find_for_update-decide :
    (hash : String) (id user_id : ℕ) (draw : DecisionDraw) (account : AccountContext)
    (t : List CibaAuthenticationRequest) (r : CibaAuthenticationRequest)
    → find_for_update hash t ≡ some r
    → r.id ≡ id
    → r.user_id ≡ user_id
    → r.status ≡ "pending"
    → ltb draw.db_now r.expires_at ≡ true
    → find_for_update hash
        (decide id user_id "approved" draw.decided_at account.session.acr account.session.amr
          draw.db_now t).0
      ≡ some (approved_by draw account r)
unfolding decide
find_for_update-decide hash id user_id draw account t r found named own pending live =
    let selected : awaits_decision id user_id draw.db_now r ≡ true =
      ground
        (arith, nat_beq_iff r.id id, nat_beq_iff r.user_id user_id, eq_iff r.status "pending") in
    find_for_update-update_where hash (awaits_decision id user_id draw.db_now)
      (approved_by draw account) (λ x. refl) t r found
    ∙ rw selected refl

module _ (st : OidcState) (host : CibaHost) (token : Option String) (id : ℕ) (draw : DecisionDraw)
    (db : Db) (account : AccountContext) where
  pub approval_stored :
      (hash : String) (r : CibaAuthenticationRequest) (answer : Answer) (db' : Db)
      → DistinctRequests db.ciba_authentication_requests
      → ((e : AuditEvent) (d : Db)
          → (host.dispatch_event e d).ciba_authentication_requests ≡ d.ciba_authentication_requests)
      → find_for_update hash db.ciba_authentication_requests ≡ some r
      → r.id ≡ id
      → ltb draw.db_now r.expires_at ≡ true
      → current_account st token draw.db_now db ≡ ok account
      → decide_request st host token id "approve" draw db ≡ (ok answer, db')
      → find_for_update hash db'.ciba_authentication_requests ≡ some (approved_by draw account r)
  unfolding status_of
  approval_stored hash r answer db' distinct keeps found named live signed_in done =
      let (who, request, may, changed) =
        decide_request_sound st host token id draw db "approve" answer db' keeps done in
      let same_account : who ≡ account = ground (arith, may.signed_in) in
      let same_request =
        find_user_request-find_for_update hash id who.user.id db.ciba_authentication_requests r
          request distinct found named may.own in
      let (named_id, of_user) =
        find_user_request-id id who.user.id db.ciba_authentication_requests request may.own in
      let own : r.user_id ≡ who.user.id = ap (λ x. x.user_id) (sym same_request) ∙ of_user in
      let pending : r.status ≡ "pending" = ap (λ x. x.status) (sym same_request) ∙ may.pending in
      ap (find_for_update hash) changed
      ∙ find_for_update-decide hash id who.user.id draw who db.ciba_authentication_requests r found
          named own pending live
      ∙ ap (λ a. some (approved_by draw a r)) same_account

  -- An approval leads to tokens: when the signed-in user has approved a stored request that has not
  -- expired, the enabled client that made it polls before it expires, the user is enabled, the services
  -- issue tokens and the connection has no fault, then the poll is answered with the tokens, issued for
  -- the request with the time, level and methods of the approval. No two stored requests may have the
  -- same identifier, and workflows must leave the table of requests alone.
  pub approved-execute :
      (req : CibaPoll) (r : CibaAuthenticationRequest) (answer : Answer) (db' : Db)
      (clocks : Clocks) (next : Draw) (client : Client) (user : User) (issued : Issued)
      → DistinctRequests db.ciba_authentication_requests
      → ((e : AuditEvent) (d : Db)
          → (host.dispatch_event e d).ciba_authentication_requests ≡ d.ciba_authentication_requests)
      → request_named st req db ≡ some r
      → r.id ≡ id
      → ltb draw.db_now r.expires_at ≡ true
      → current_account st token draw.db_now db ≡ ok account
      → decide_request st host token id "approve" draw db ≡ (ok answer, db')
      → leb r.expires_at clocks.at_expiry ≡ false
      → find_client_by_id r.client_id db' ≡ some client
      → client.enabled ≡ true
      → client.client_id ≡ req.client_id
      → find_user_by_id r.user_id db' ≡ some user
      → user.enabled ≡ true
      → issue st req next (approved_by draw account r) user client db' ≡ ok issued
      → IsUp next.link
      → (Ciba.execute st req clocks next db').0
        ≡ ok (response_of req (approved_by draw account r) issued)
  approved-execute req r answer db' clocks next client user issued distinct keeps found named live
        signed_in done later known on same there active tokens up =
      ciba_complete st req clocks next db' (approved_by draw account r) client
        (approval_stored (sha2_256_hex st.external req.auth_req_id) r answer db' distinct keeps
          found named live signed_in done)
        later known on same user issued refl there active tokens up
