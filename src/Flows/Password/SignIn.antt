-- ===== src/Flows/Password/SignIn.antt =====
-- The whole of `PasswordFlow::execute`: the second factor, the required actions and the outcome.
use open_id_connect_wasi_hub.Prelude.{
  ◌+◌, String, List, [], ◌∷◌, ◌++◌, map, Option, none, some, Bool, not, ◌==◌, ◌&&◌, ◌||◌, string_eq,
  filter, any, contains, is_empty, if◌then◌else◌,
}
use open_id_connect_wasi_hub.Error.{Result, ok, err}
use open_id_connect_wasi_hub.Acr.{acr_bronze, acr_silver}
use open_id_connect_wasi_hub.Token.{sha2_256_hex}
use open_id_connect_wasi_hub.Models.{Json, Client}
use open_id_connect_wasi_hub.Actions.{
  RequiredActionKind, configure_mfa, accept_terms, kind_eq, as_str, AuthenticationFlowConfig,
}
use open_id_connect_wasi_hub.Actions.Store.{RequiredActionSession, create_action_session, has_mfa}
use open_id_connect_wasi_hub.Actions.Pending.{pending_actions}
use open_id_connect_wasi_hub.Db.Tables.{Db}
use open_id_connect_wasi_hub.Db.Attempt.{Attempt, ◌>>=◌, ◌>>◌, reads, writes, settled}
use open_id_connect_wasi_hub.Db.Transaction.{with_transaction, begin_with}
use open_id_connect_wasi_hub.Flows.State.{Draw}
use open_id_connect_wasi_hub.Flows.Password.Setting.{
  SignInRequest, SignInHost, SignInDraw, RequiredActionChallenge, PasswordFlowOutcome,
  authenticated, mfa_required, required_actions, mfa_rejected,
}
use open_id_connect_wasi_hub.Flows.Password.Credentials.{Identified, check_input, identify}
use open_id_connect_wasi_hub.Flows.Password.Tokens.{Assurance, issue, store, result_of}

-- `if let Some(method) = federation_amr { methods.push(method); }`
unfoldable pub password_methods : Option String → List String
password_methods none = "pwd" ∷ []
password_methods (some method) = "pwd" ∷ method ∷ []

without_password : String → List String → List String
without_password method amr =
    if method == "kerberos" then filter (λ value. not (value == "pwd")) amr else amr

unfoldable pub with_federation : Option String → List String → List String
unfolding without_password
with_federation none amr = amr
with_federation (some method) amr =
    let kept = without_password method amr in
    if contains kept method then kept else kept ++ method ∷ []

-- The outcome of the second factor: an assurance, a proof that is wrong, or a challenge.
pub data Factor : Type 0 where
  assured : Assurance → Factor
  rejected : Factor
  challenged : Json → Factor

unfoldable pub factor_of : Option (List String) → Factor
factor_of none = rejected
factor_of (some amr) = assured (record { acr = acr_silver; amr = amr })

module _ (host : SignInHost) (req : SignInRequest) (draw : Draw) (sign_in : SignInDraw) where
  unfoldable pub second_factor : Identified → Option Json → Attempt Db Factor
  unfolding factor_of
  second_factor who none =
      host.begin_login who.user.id who.realm.id who.client.id
      >>= (λ challenge. reads (λ s. ok (challenged challenge)))
  second_factor who (some proof) =
      host.verify_login who.user.id who.realm.id who.client.id proof
      >>= (λ verified. reads (λ s. ok (factor_of verified)))

  unfoldable pub check_factor : Identified → Attempt Db Factor
  unfolding second_factor
  check_factor who db =
      if has_mfa who.user.id db.actions then second_factor who req.mfa_proof db else (
        ok (assured (record { acr = acr_bronze; amr = password_methods who.federation_amr })),
        db,
      )

  unfoldable pub steps_up : AuthenticationFlowConfig → Client → Bool
  steps_up flow client =
      contains req.requested_acr_values acr_silver
      || flow.enabled
        && flow.step_up.enabled
        && (is_empty flow.step_up.client_ids || contains flow.step_up.client_ids client.client_id)
        && (is_empty flow.step_up.scopes
            || any (λ v. contains req.requested_scopes v) flow.step_up.scopes)

  unfoldable pub actions_of : Identified → Db → List RequiredActionKind
  unfolding steps_up
  actions_of who db =
      let flow = host.flow_of_config who.realm.config in
      let actions = pending_actions flow who.user db.actions in
      if steps_up flow who.client
        && not (has_mfa who.user.id db.actions)
        && not (contains actions configure_mfa)
      then actions ++ configure_mfa ∷ []
      else actions

  challenge_of : Identified → List RequiredActionKind → String → RequiredActionChallenge
  challenge_of who actions token =
      let flow = host.flow_of_config who.realm.config in
      record {
        required_actions = map as_str actions;
        action_token = token;
        expires_in = 600;
        terms =
            if contains actions accept_terms
            then some (record { version = flow.terms.version; text = flow.terms.text })
            else none;
        user_email = who.user.email;
        realm = who.realm.name;
      }

  new_action_session : Identified → String → RequiredActionSession
  new_action_session who token = record {
    id = sign_in.challenge_id;
    token_hash = sha2_256_hex host.state.external token;
    user_id = who.user.id;
    realm_id = who.realm.id;
    client_id = who.client.id;
    expires_at = draw.now + 600;
    used_at = none;
  }

  -- `create_challenge` of crates/oidc-oidc/src/endpoints/required_actions.rs
  unfoldable pub create_challenge :
      Identified → List RequiredActionKind → Attempt Db RequiredActionChallenge
  unfolding challenge_of new_action_session
  create_challenge who actions = do
    token ← reads (λ s. sign_in.action_token)
    writes (λ s. record s {
      actions = record s.actions {
        action_sessions =
            create_action_session (new_action_session who token) s.actions.action_sessions;
      };
    })
    reads (λ s. ok (challenge_of who actions token))

  unfoldable pub authenticate : Identified → Assurance → Attempt Db PasswordFlowOutcome
  authenticate who assurance = do
    issued ← reads (issue host.state req draw who assurance)
    writes (store host sign_in draw who assurance issued)
    reads (λ s. ok (authenticated (result_of req draw who.user issued)))

  unfoldable pub challenge_or_authenticate :
      Identified → Assurance → List RequiredActionKind → Attempt Db PasswordFlowOutcome
  challenge_or_authenticate who assurance [] = authenticate who assurance
  challenge_or_authenticate who assurance (action ∷ actions) =
      create_challenge who (action ∷ actions)
      >>= (λ challenge. reads (λ s. ok (required_actions challenge)))

  unfoldable pub conclude : Identified → Factor → Attempt Db PasswordFlowOutcome
  unfolding actions_of challenge_or_authenticate
  conclude who rejected db = (ok mfa_rejected, db)
  conclude who (challenged challenge) db = (ok (mfa_required challenge), db)
  conclude who (assured found) db =
      let assurance : Assurance = record {
        acr = found.acr;
        amr = with_federation who.federation_amr found.amr;
      } in
      challenge_or_authenticate who assurance (actions_of who db) db

  unfoldable pub sign_in_body : Attempt Db PasswordFlowOutcome
  unfolding check_factor conclude
  sign_in_body =
      identify host req sign_in draw.db_now
      >>= (λ who. check_factor who >>= (λ factor. conclude who factor))

  -- `PasswordFlow::execute`
  unfoldable pub execute : Db → Result PasswordFlowOutcome × Db
  unfolding sign_in_body
  execute db = elim (check_input req) [
    | err e ↦ (err e, db)
    | ok _ ↦
        begin_with draw.link.connect db
          (with_transaction draw.link (λ before. settled (sign_in_body before)) db)
  ]
