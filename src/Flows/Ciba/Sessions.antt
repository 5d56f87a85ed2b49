-- ===== src/Flows/Ciba/Sessions.antt =====
-- What a poll of a backchannel request does to the sessions.
use open_id_connect_wasi_hub.Prelude.{
  ℕ, ◌≡◌, sym, ◌∙◌, subst, false, leb, arith, Bool-cases, inl, inr,
}
use open_id_connect_wasi_hub.Error.{ok, ok_or, expired_token, >>=-eq-ok}
use open_id_connect_wasi_hub.Models.{CibaAuthenticationRequest, Client}
use open_id_connect_wasi_hub.Db.Tables.{Db}
use open_id_connect_wasi_hub.Db.Transaction.{connected_keeps}
use open_id_connect_wasi_hub.Db.Sessions.Families.{unchanged, has_family}
use open_id_connect_wasi_hub.Db.Sessions.Effects.{Effect, revised, added}
use open_id_connect_wasi_hub.Flows.State.{OidcState, Draw}
use open_id_connect_wasi_hub.Flows.Ciba
use open_id_connect_wasi_hub.Flows.Ciba.{
  CibaPoll, CibaOutcome, Clocks, Standing, is_pending, is_approved, is_refused, standing_of,
  proceed, poll_pending_request, check_client, answer_request, ciba_body, is_too_early,
}
use open_id_connect_wasi_hub.Flows.Ciba.Polling.{request_named, exchange_sound, answer_request_live}

module _ (st : OidcState) (req : CibaPoll) (clocks : Clocks) (draw : Draw) (db : Db)
    (new : has_family draw.token_family_id db.sessions ≡ false) where
  abbrev DbEffect : Db → Type 0
  DbEffect db' = Effect db.sessions db'.sessions

  poll_pending_request-Effect :
      (now : ℕ) (request : CibaAuthenticationRequest)
      → DbEffect (poll_pending_request request now draw.db_now db).1
  unfolding poll_pending_request
  poll_pending_request-Effect now request =
      elim (Bool-cases (is_too_early request.last_polled_at request.interval_seconds now)) [
        | inl early ↦ rw early (revised unchanged)
        | inr in_time ↦ rw in_time (revised unchanged)
      ]

  proceed-Effect :
      (standing : Standing) (now : ℕ) (request : CibaAuthenticationRequest) (client : Client)
      (outcome : CibaOutcome) (db' : Db)
      → proceed standing st req now draw request client db ≡ ok (outcome, db')
      → DbEffect db'
  unfolding proceed
  proceed-Effect is_pending now request client outcome db' h =
      let same : (poll_pending_request request now draw.db_now db).1 ≡ db' = ground arith in
      subst DbEffect same (poll_pending_request-Effect now request)
  proceed-Effect is_approved now request client outcome db' h =
      let (user, known, exchanged) = exchange_sound st req draw db db' request client outcome h in
      subst DbEffect (sym exchanged.consumed)
        (added draw.db_now exchanged.session draw.token_family_id exchanged.in_family new)
  proceed-Effect (is_refused e) now request client outcome db' h = cc

  ciba_body-Effect :
      (outcome : CibaOutcome) (db' : Db)
      → ciba_body st req clocks draw db ≡ ok (outcome, db')
      → DbEffect db'
  unfolding ciba_body answer_request
  ciba_body-Effect outcome db' h =
      let (request, found, h) = >>=-eq-ok (ok_or (request_named st req db) expired_token) _ h in
      elim (Bool-cases (leb request.expires_at clocks.at_expiry)) [
        | inl late ↦
            let done = rw (answer_request, late) at h in
            let same : db.sessions ≡ db'.sessions = ground (arith, done) in
            subst (Effect db.sessions) same (revised unchanged)
        | inr live ↦
            let (client, checked, h) =
              >>=-eq-ok (check_client req request db) _
                (sym (answer_request_live st req clocks draw request db live) ∙ h) in
            proceed-Effect (standing_of request.status) clocks.at_interval request client outcome
              db' h
      ]

  -- A poll adds one session of a new family, or leaves the sessions alone.
  pub execute-Effect : DbEffect (Ciba.execute st req clocks draw db).1
  unfolding Ciba.execute
  execute-Effect =
      connected_keeps DbEffect draw.link (ciba_body st req clocks draw) db (revised unchanged)
        ciba_body-Effect
