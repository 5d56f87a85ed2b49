-- ===== src/Endpoints/CibaDecision/Lifecycle.antt =====
-- Backchannel requests under any sequence of polls, decisions, new requests, clean-ups and other
-- requests of the hub: an `auth_req_id` gives tokens once.
use open_id_connect_wasi_hub.Prelude.{ℕ, ◌≡◌, ◌≢◌, ap, sym, subst, String, Option, inl, inr}
use open_id_connect_wasi_hub.Error.{ok, err, OidcError, Result-cases}
use open_id_connect_wasi_hub.Token.{sha2_256_hex}
use open_id_connect_wasi_hub.Models.{CibaAuthenticationRequest, AuditEvent}
use open_id_connect_wasi_hub.Db.Tables.{Db}
use open_id_connect_wasi_hub.Db.Ciba.{create_request, cleanup_expired_requests}
use open_id_connect_wasi_hub.Db.Ciba.Laws.{
  AllSpent, DistinctDigests, find_for_update-AllSpent, consume-AllSpent,
}
use open_id_connect_wasi_hub.Flows.State.{OidcState, Draw, TokenResponse}
use open_id_connect_wasi_hub.Flows.Ciba
use open_id_connect_wasi_hub.Flows.Ciba.{CibaPoll, Clocks}
use open_id_connect_wasi_hub.Flows.Ciba.Polling.{ciba_sound}
use open_id_connect_wasi_hub.Endpoints.CibaDecision.{CibaHost, DecisionDraw, decide_request}
use open_id_connect_wasi_hub.Endpoints.CibaDecision.Spent.{
  IsSpent, execute-IsSpent, decide_request-IsSpent, AllSpent-cleanup, AllSpent-create_request,
  not_approved,
}

-- One request of the hub, for the requests with the digest `hash`: a poll, a decision, a clean-up, a
-- new backchannel request with another digest, or anything that leaves the table alone.
pub data Step (st : OidcState) (host : CibaHost) (hash : String) : Db → Db → Type 0 where
  polled :
      (req : CibaPoll) (clocks : Clocks) (draw : Draw) (db : Db)
      → Step st host hash db (Ciba.execute st req clocks draw db).1
  decided :
      (token : Option String) (id : ℕ) (decision : String) (draw : DecisionDraw) (db : Db)
      → Step st host hash db (decide_request st host token id decision draw db).1
  cleaned :
      (now : ℕ) (db : Db)
      → Step st host hash db (record db {
        ciba_authentication_requests =
            (cleanup_expired_requests now db.ciba_authentication_requests).0;
      })
  requested :
      (r : CibaAuthenticationRequest) (db : Db)
      → r.auth_req_id_hash ≢ hash
      → Step st host hash db (record db {
        ciba_authentication_requests = create_request r db.ciba_authentication_requests;
      })
  elsewhere :
      (db db' : Db)
      → db'.ciba_authentication_requests ≡ db.ciba_authentication_requests
      → Step st host hash db db'

pub data Reach (st : OidcState) (host : CibaHost) (hash : String) : Db → Db → Type 0 where
  here : (db : Db) → Reach st host hash db db
  then_step :
      (db mid db' : Db)
      → Reach st host hash db mid
      → Step st host hash mid db'
      → Reach st host hash db db'

module _ (st : OidcState) (host : CibaHost) (hash : String)
    (keeps : (e : AuditEvent) (d : Db)
      → (host.dispatch_event e d).ciba_authentication_requests
        ≡ d.ciba_authentication_requests) where
  Step-IsSpent : (db db' : Db) → Step st host hash db db' → IsSpent hash db → IsSpent hash db'
  unfolding IsSpent
  Step-IsSpent db _ (polled req clocks draw _) spent =
      execute-IsSpent hash st req draw db clocks spent
  Step-IsSpent db _ (decided token id decision draw _) spent =
      decide_request-IsSpent hash st host draw keeps token id decision db spent
  Step-IsSpent db _ (cleaned now _) spent =
      AllSpent-cleanup hash now db.ciba_authentication_requests spent
  Step-IsSpent db _ (requested r _ other) spent =
      AllSpent-create_request hash r db.ciba_authentication_requests other spent
  Step-IsSpent db db' (elsewhere _ _ same) spent = subst (AllSpent hash) (sym same) spent

  Reach-IsSpent : (db db' : Db) → Reach st host hash db db' → IsSpent hash db → IsSpent hash db'
  Reach-IsSpent db _ (here _) spent = spent
  Reach-IsSpent db db' (then_step _ mid _ before step) spent =
      Step-IsSpent mid db' step (Reach-IsSpent db mid before spent)

  spent_refused :
      (req : CibaPoll) (clocks : Clocks) (draw : Draw) (db : Db)
      → sha2_256_hex st.external req.auth_req_id ≡ hash
      → IsSpent hash db
      → (e : OidcError) × ((Ciba.execute st req clocks draw db).0 ≡ err e)
  unfolding IsSpent
  spent_refused req clocks draw db same spent =
      elim (Result-cases (Ciba.execute st req clocks draw db).0) [
        | inr failed ↦ failed
        | inl (r, done) ↦
            let db' = (Ciba.execute st req clocks draw db).1 in
            let (request, client, user, granted, exchanged) =
              ciba_sound st req clocks draw db db' r (λ i. (done i, db')) in
            absurd (
              not_approved request.status granted.approved (
                find_for_update-AllSpent (sha2_256_hex st.external req.auth_req_id)
                  db.ciba_authentication_requests request
                  (subst (λ h. AllSpent h db.ciba_authentication_requests) (sym same) spent)
                  granted.found))
      ]

-- An `auth_req_id` gives tokens once: after a success, and after any number of further polls,
-- decisions, clean-ups, backchannel requests with other digests and requests that leave the table
-- alone, each poll with it, by whatever client, is answered with an error. No two stored requests may
-- have the same digest, and workflows must leave the table of requests alone.
pub Reach-refused :
    (st : OidcState) (host : CibaHost) (req again : CibaPoll) (clocks later : Clocks)
    (draw next : Draw) (db db' last : Db) (r : TokenResponse)
    → ((e : AuditEvent) (d : Db)
        → (host.dispatch_event e d).ciba_authentication_requests ≡ d.ciba_authentication_requests)
    → DistinctDigests db.ciba_authentication_requests
    → Ciba.execute st req clocks draw db ≡ (ok r, db')
    → Reach st host (sha2_256_hex st.external req.auth_req_id) db' last
    → again.auth_req_id ≡ req.auth_req_id
    → (e : OidcError) × ((Ciba.execute st again later next last).0 ≡ err e)
unfolding IsSpent
Reach-refused st host req again clocks later draw next db db' last r keeps distinct done reach
      same =
    let hash = sha2_256_hex st.external req.auth_req_id in
    let (request, client, user, granted, exchanged) = ciba_sound st req clocks draw db db' r done in
    let consumed : IsSpent hash db' = rw exchanged.consumed (
      consume-AllSpent hash draw.db_now db.ciba_authentication_requests request distinct
        granted.found) in
    spent_refused st host hash keeps again later next last (ap (sha2_256_hex st.external) same)
      (Reach-IsSpent st host hash keeps db' last reach consumed)
