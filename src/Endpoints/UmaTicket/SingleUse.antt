-- ===== src/Endpoints/UmaTicket/SingleUse.antt =====
-- A ticket is decided on once, and only permissions that the policies grant become a token.
use open_id_connect_wasi_hub.Prelude.{
  ℕ, ◌≤◌, ◌≡◌, refl, sym, ap, ◌∙◌, arith, String, List, Option, none, some, Bool, true, false, not,
  ◌==◌, nat_eq, nat_beq_iff, length, is_null, Bool-cases, inl, inr,
}
use open_id_connect_wasi_hub.Error.{ok, >>=-eq-ok, Result-cases}
use open_id_connect_wasi_hub.Models.{Json, Client, RptGrant}
use open_id_connect_wasi_hub.Db.Tables.{Db, StoredTicket}
use open_id_connect_wasi_hub.Db.Authorization.{consume_ticket}
use open_id_connect_wasi_hub.Db.Authorization.Tickets.{consume_ticket_twice}
use open_id_connect_wasi_hub.Flows.State.{OidcState}
use open_id_connect_wasi_hub.Endpoints.Permissions.Granted.{
  PermittedInTurn, evaluate_requests_complete,
}
use open_id_connect_wasi_hub.Endpoints.UmaTicket.{
  UmaHost, UmaDraw, UmaRequest, RptResponse, Approved, GrantedPermission, issue_rpt, use_up, merged,
  replaced, exchange_ticket, granted_to, requester_of, sign_rpt, decide_grant, check_ticket_grant,
  uma_ticket_grant,
}

abbrev tickets_of : Db → List StoredTicket
tickets_of db = db.authorization_permission_tickets

module _ (st : OidcState) (host : UmaHost) where
  issue_rpt_keeps :
      (client : Client) (server_id subject_id : ℕ) (permissions : List Json)
      (dpop_jkt : Option String) (upgraded : Bool) (draw : UmaDraw) (db db' : Db)
      (response : RptResponse)
      → issue_rpt st host client server_id subject_id permissions dpop_jkt upgraded draw db
        ≡ ok (response, db')
      → db'.authorization_permission_tickets ≡ db.authorization_permission_tickets
  unfolding issue_rpt
  issue_rpt_keeps client server_id subject_id permissions dpop_jkt upgraded draw db db' response h =
      let (token, signed, h) =
        >>=-eq-ok (sign_rpt st host client server_id subject_id permissions dpop_jkt draw db) _ h in
      ground (arith, h)

  replaced_keeps :
      (previous : Option RptGrant) (db : Db)
      → (replaced st host previous db).authorization_permission_tickets
        ≡ db.authorization_permission_tickets
  unfolding replaced
  replaced_keeps none db = refl
  replaced_keeps (some previous) db = refl

  exchange_ticket_keeps :
      (client : Client) (approved : Approved) (granted : List GrantedPermission)
      (dpop_jkt : Option String) (draw : UmaDraw) (db : Db)
      → tickets_of (exchange_ticket st host client approved granted dpop_jkt draw db).1
        ≡ db.authorization_permission_tickets
  unfolding exchange_ticket
  exchange_ticket_keeps client approved granted dpop_jkt draw db =
      elim (Result-cases (
        issue_rpt st host client approved.selection.resource_server_id approved.user.id
          (merged st host granted approved.previous) dpop_jkt (not (is_null approved.previous)) draw
          db)) [
            | inr (e, failed) ↦ rw (exchange_ticket, failed) refl
            | inl ((response, issued), e) ↦
                rw (exchange_ticket, e)
                  (replaced_keeps approved.previous issued
                    ∙ issue_rpt_keeps client _ _ _ dpop_jkt _ draw db issued response e)
          ]

  -- A decision uses the ticket up, whether the permission is granted or denied.
  decide_grant_consumes :
      (client : Client) (approved : Approved) (dpop_jkt : Option String) (draw : UmaDraw) (db : Db)
      → (granted : Bool) × (tickets_of (decide_grant st host client approved dpop_jkt draw db).1
          ≡ tickets_of (use_up st host approved.selection.ticket_id granted draw db).1)
  unfolding decide_grant
  decide_grant_consumes client approved dpop_jkt draw db =
      elim (Bool-cases (
        length (granted_to st host client approved draw db)
        == length approved.selection.requested)) [
          | inr fewer ↦ (false, rw (decide_grant, fewer) refl)
          | inl enough ↦
              elim (Bool-cases (use_up st host approved.selection.ticket_id true draw db).0) [
                | inr gone ↦ (true, rw (decide_grant, enough, gone) refl)
                | inl once ↦ (
                  true,
                  rw (decide_grant, enough, once)
                      (exchange_ticket_keeps client approved
                        (granted_to st host client approved draw db) dpop_jkt draw
                        (use_up st host approved.selection.ticket_id true draw db).1),
                )
              ]
        ]

  -- A token that is issued stands for permissions that were asked for and are all permitted, and the
  -- ticket, if there is one, was not used up before.
  decide_grant_sound :
      (client : Client) (approved : Approved) (dpop_jkt : Option String) (draw : UmaDraw)
      (db db' : Db) (response : RptResponse)
      → decide_grant st host client approved dpop_jkt draw db ≡ (ok response, db')
      → ((use_up st host approved.selection.ticket_id true draw db).0 ≡ true)
        × PermittedInTurn host.json approved.selection.resource_server_id
            (requester_of st host client approved db)
            db
            draw.clock
            0
            approved.selection.requested
  unfolding decide_grant granted_to
  decide_grant_sound client approved dpop_jkt draw db db' response h =
      elim (Bool-cases (
        length (granted_to st host client approved draw db)
        == length approved.selection.requested)) [
          | inr fewer ↦ absurd (ground (arith, rw (decide_grant, fewer) at h))
          | inl enough ↦
              let equal : length (granted_to st host client approved draw db)
                  ≡ length approved.selection.requested =
                ground (
                  arith,
                  nat_beq_iff (length (granted_to st host client approved draw db))
                      (length approved.selection.requested),
                ) in
              elim (Bool-cases (use_up st host approved.selection.ticket_id true draw db).0) [
                | inr gone ↦ absurd (ground (arith, rw (decide_grant, enough, gone) at h))
                | inl once ↦ (
                  once,
                  evaluate_requests_complete host.json approved.selection.resource_server_id
                      (requester_of st host client approved db) db draw.clock 0
                      approved.selection.requested equal,
                )
              ]
        ]

  -- A grant that succeeds passed the checks, and each request that was selected is
  -- permitted at the time that the clock gives in its turn: its
  -- resource belongs to the server and has the scopes, and a permission of the server that covers it
  -- is carried by its policies. A ticket that was named was not used up before.
  pub uma_ticket_grant_sound :
      (client : Client) (req : UmaRequest) (dpop_jkt : Option String) (draw : UmaDraw) (db db' : Db)
      (response : RptResponse)
      → uma_ticket_grant st host client req dpop_jkt draw db ≡ (ok response, db')
      → (approved : Approved) × (check_ticket_grant st host client req draw db ≡ ok approved)
        × ((use_up st host approved.selection.ticket_id true draw db).0 ≡ true)
        × PermittedInTurn host.json approved.selection.resource_server_id
            (requester_of st host client approved db)
            db
            draw.clock
            0
            approved.selection.requested
  unfolding uma_ticket_grant
  uma_ticket_grant_sound client req dpop_jkt draw db db' response h =
      elim (Result-cases (check_ticket_grant st host client req draw db)) [
        | inr (e, failed) ↦ absurd (ground (arith, rw (uma_ticket_grant, failed) at h))
        | inl (approved, e) ↦
            let (once, permitted) =
              decide_grant_sound client approved dpop_jkt draw db db' response
                (rw (uma_ticket_grant, e) at h) in
            (approved, e, once, permitted)
      ]

  -- Of two requests with the same ticket, both checked beforehand, the one that is decided later is
  -- refused, whatever the answer to the first.
  pub ticket_twice :
      (client client' : Client) (approved approved' : Approved) (dpop_jkt dpop_jkt' : Option String)
      (draw draw' : UmaDraw) (db db' : Db) (id : ℕ) (response : RptResponse)
      → approved.selection.ticket_id ≡ some id
      → approved'.selection.ticket_id ≡ some id
      → draw.consumed_at ≤ draw'.consumed_at
      → ¬ (
          decide_grant st host client' approved' dpop_jkt' draw'
            (decide_grant st host client approved dpop_jkt draw db).1
          ≡ (ok response, db'))
  unfolding use_up
  ticket_twice client client' approved approved' dpop_jkt dpop_jkt' draw draw' db db' id response
        named named' later h =
      let after = (decide_grant st host client approved dpop_jkt draw db).1 in
      let (granted, same) = decide_grant_consumes client approved dpop_jkt draw db in
      let (once, permitted) =
        decide_grant_sound client' approved' dpop_jkt' draw' after db' response h in
      let consumed : tickets_of after
          ≡ (consume_ticket id granted draw.consumed_at (tickets_of db)).1 =
        same ∙ ap (λ t. tickets_of (use_up st host t granted draw db).1) named in
      let again : (consume_ticket id true draw'.consumed_at (tickets_of after)).0 ≡ true =
        ap (λ t. (use_up st host t true draw' after).0) (sym named') ∙ once in
      let spent =
        consume_ticket_twice id draw.consumed_at draw'.consumed_at granted later true
          (tickets_of db) in
      let clash : true ≡ false =
        sym again ∙ ap (λ ts. (consume_ticket id true draw'.consumed_at ts).0) consumed ∙ spent in
      ground (arith, clash)
