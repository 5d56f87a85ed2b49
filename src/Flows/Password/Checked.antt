-- ===== src/Flows/Password/Checked.antt =====
-- What the steps of a sign-in have checked when they succeed.
use open_id_connect_wasi_hub.Prelude.{
  ℕ, ◌≡◌, ◌<◌, refl, ap, sym, ◌∙◌, subst, String, List, Option, none, some, Bool, true, false,
  arith, inl, inr, Option-cases, Bool-cases,
}
use open_id_connect_wasi_hub.Error.{Result, ok, err}
use open_id_connect_wasi_hub.Models.{Json, Client, Realm, User, AuditEvent}
use open_id_connect_wasi_hub.Acr.{acr_bronze, acr_silver}
use open_id_connect_wasi_hub.Actions.Store.{has_mfa}
use open_id_connect_wasi_hub.Db.Tables.{Db}
use open_id_connect_wasi_hub.Db.Directory.{
  find_realm_by_name, find_client_by_client_id_in_realm, is_managed_user_blocked,
}
use open_id_connect_wasi_hub.Db.Audit.{count_recent_failures}
use open_id_connect_wasi_hub.Db.Attempt.{reads, writes, >>=-eq-ok, reads_then}
use open_id_connect_wasi_hub.Flows.State.{Draw}
use open_id_connect_wasi_hub.Flows.Password.Setting.{SignInRequest, SignInHost, SignInDraw}
use open_id_connect_wasi_hub.Flows.Password.Credentials.{
  Identified, realm_of, failure_count, check_failures, resolve_user, check_user, is_valid,
  failure_event, refuse_unless, log_event, invalid_credentials, client_of, admit, identify, text_or,
}
use open_id_connect_wasi_hub.Flows.Password.Vouched.{IsVouched, with_ticket-IsVouched}
use open_id_connect_wasi_hub.Flows.Password.Tokens.{Assurance}
use open_id_connect_wasi_hub.Flows.Password.SignIn.{
  assured, factor_of, password_methods, second_factor, check_factor,
}

module _ (host : SignInHost) (req : SignInRequest) where
  realm_of_sound :
      (db : Db) (realm : Realm)
      → realm_of req db ≡ ok realm
      → (find_realm_by_name (text_or req.realm_name "master") db ≡ some realm)
        × (realm.enabled ≡ true)
  unfolding realm_of
  realm_of_sound db realm h =
      elim (Option-cases (find_realm_by_name (text_or req.realm_name "master") db)) [
        | inl absent ↦ absurd (ground (arith, absent))
        | inr (found, there) ↦ ground (arith, there)
      ]

  check_failures_sound :
      (realm : Realm) (now : ℕ) (db : Db)
      → check_failures req realm now db ≡ ok tt
      → req.kerberos_token ≡ none
      → count_recent_failures req.email realm.id now db.users db.audit_events < 5
  unfolding check_failures failure_count
  check_failures_sound realm now db h plain = ground arith

  check_user_sound :
      (user : User) (db : Db)
      → check_user user db ≡ ok tt
      → (user.enabled ≡ true) × (is_managed_user_blocked user.id db ≡ false)
  unfolding check_user
  check_user_sound user db h = ground arith

  client_of_sound :
      (realm : Realm) (db : Db) (client : Client)
      → client_of req realm db ≡ ok client
      → (find_client_by_client_id_in_realm (text_or req.client_id "admin-ui") realm.id db
          ≡ some client)
        × (client.enabled ≡ true)
  unfolding client_of
  client_of_sound realm db client h =
      elim (Option-cases
        (find_client_by_client_id_in_realm (text_or req.client_id "admin-ui") realm.id db)) [
          | inl absent ↦ absurd (ground (arith, absent))
          | inr (found, there) ↦ ground (arith, there)
        ]

  -- Who signs in, for tables `before` and those that a directory's import leaves.
  pub record IsIdentified (now : ℕ) (before after : Db) (who : Identified) : Type 0 where
    pub of_realm : find_realm_by_name (text_or req.realm_name "master") before ≡ some who.realm
    pub realm_enabled : who.realm.enabled ≡ true
    pub few_failures :
        req.kerberos_token ≡ none
        → count_recent_failures req.email who.realm.id now before.users before.audit_events < 5
    pub vouched : IsVouched host req before after who
    pub user_enabled : who.user.enabled ≡ true
    pub unblocked : is_managed_user_blocked who.user.id after ≡ false
    pub of_client :
        find_client_by_client_id_in_realm (text_or req.client_id "admin-ui") who.realm.id after
        ≡ some who.client
    pub client_enabled : who.client.enabled ≡ true

  identified_with :
      (now : ℕ) (before after : Db) (who : Identified) (realm : Realm) (user : User)
      (amr : Option String)
      → realm_of req before ≡ ok realm
      → check_failures req realm now before ≡ ok tt
      → resolve_user host req realm before ≡ (ok (user, amr), after)
      → check_user user after ≡ ok tt
      → is_valid host req user amr ≡ ok true
      → client_of req realm after ≡ ok who.client
      → who ≡ record { realm = realm; user = user; federation_amr = amr; client = who.client }
      → IsIdentified now before after who
  unfolding resolve_user
  identified_with now before after who realm user amr of_realm few resolved checked valid of_client
        is_who =
      let (there, realm_enabled) = realm_of_sound before realm of_realm in
      let (user_enabled, unblocked) = check_user_sound user after checked in
      let (registered, client_enabled) = client_of_sound realm after who.client of_client in
      subst (IsIdentified now before after) (sym is_who) (record {
        of_realm = there;
        realm_enabled = realm_enabled;
        few_failures = check_failures_sound realm now before few;
        vouched =
            with_ticket-IsVouched host req req.kerberos_token before after
              (record { realm = realm; user = user; federation_amr = amr; client = who.client })
              refl resolved valid;
        user_enabled = user_enabled;
        unblocked = unblocked;
        of_client = registered;
        client_enabled = client_enabled;
      })

  err-ok : ¬ (◌≡◌ {A = Result (Unit {0})} (err invalid_credentials) (ok tt))
  err-ok h = ground arith

  refuse_unless_sound :
      (event : AuditEvent) (valid : Bool) (s s' : Db)
      → refuse_unless host event valid s ≡ (ok tt, s')
      → (valid ≡ true) × (s ≡ s')
  unfolding refuse_unless
  refuse_unless_sound event true s s' h = (refl, ap (λ p. p.1) h)
  refuse_unless_sound event false s s' h =
      let (_, mid, written, h) =
        >>=-eq-ok (writes (log_event host event)) (λ _. reads (λ t. err invalid_credentials)) s s'
          h in
      absurd (err-ok (ap (λ p. p.0) h))

  pub admit_sound :
      (sign_in : SignInDraw) (realm : Realm) (user : User) (amr : Option String) (mid after : Db)
      (who : Identified)
      → admit host req sign_in realm user amr mid ≡ (ok who, after)
      → (check_user user mid ≡ ok tt)
        × (is_valid host req user amr ≡ ok true)
        × (mid ≡ after)
        × (client_of req realm mid ≡ ok who.client)
        × (who ≡ record { realm = realm; user = user; federation_amr = amr; client = who.client })
  unfolding admit
  admit_sound sign_in realm user amr mid after who h =
      let (_, checked, h) = reads_then (check_user user) _ mid after h in
      let (valid, verified, h) = reads_then (λ s. is_valid host req user amr) _ mid after h in
      let (_, next, refused, h) =
        >>=-eq-ok (refuse_unless host (failure_event host sign_in req realm) valid) _ mid after h in
      let (accepted, same) =
        refuse_unless_sound (failure_event host sign_in req realm) valid mid next refused in
      let (client, of_client, h) = reads_then (client_of req realm) _ next after h in
      let found : Identified = record {
        realm = realm;
        user = user;
        federation_amr = amr;
        client = client;
      } in
      let is_who : found ≡ who = ground (arith, ap (λ p. p.0) h) in
      let client_is : client ≡ who.client = ap (λ w. w.client) is_who in
      (
        checked,
        verified ∙ ap ok accepted,
        same ∙ ap (λ p. p.1) h,
        subst (λ t. client_of req realm t ≡ ok who.client) (sym same) (of_client ∙ ap ok client_is),
        sym is_who ∙ (λ i. record {
          realm = realm;
          user = user;
          federation_amr = amr;
          client = client_is i;
        }),
      )

  pub identify_sound :
      (sign_in : SignInDraw) (now : ℕ) (before after : Db) (who : Identified)
      → identify host req sign_in now before ≡ (ok who, after)
      → IsIdentified now before after who
  unfolding identify
  identify_sound sign_in now before after who h =
      let (realm, of_realm, h) = reads_then (realm_of req) _ before after h in
      let (_, few, h) = reads_then (check_failures req realm now) _ before after h in
      let (found, mid, resolved, h) = >>=-eq-ok (resolve_user host req realm) _ before after h in
      let (checked, valid, same, of_client, is_who) =
        admit_sound sign_in realm found.0 found.1 mid after who h in
      identified_with now before after who realm found.0 found.1 of_realm few
        (resolved ∙ (λ i. (ok found, same i)))
        (subst (λ t. check_user found.0 t ≡ ok tt) same checked) valid
        (subst (λ t. client_of req realm t ≡ ok who.client) same of_client) is_who

module _ (host : SignInHost) (req : SignInRequest) (draw : Draw) (sign_in : SignInDraw) where
  -- A user without a second factor, or a proof of it that was verified.
  pub data IsProved (who : Identified) (before after : Db) : Assurance → Type 0 where
    without_factor :
        has_mfa who.user.id before.actions ≡ false
        → before ≡ after
        → IsProved who before after
            (record { acr = acr_bronze; amr = password_methods who.federation_amr })
    with_proof :
        (proof : Json) (amr : List String)
        → req.mfa_proof ≡ some proof
        → host.verify_login who.user.id who.realm.id who.client.id proof before
          ≡ (ok (some amr), after)
        → IsProved who before after (record { acr = acr_silver; amr = amr })

  factor_of_assured :
      (verified : Option (List String)) (a : Assurance)
      → factor_of verified ≡ assured a
      → (amr : List String) × (verified ≡ some amr) × (record { acr = acr_silver; amr = amr } ≡ a)
  unfolding factor_of
  factor_of_assured none a h = absurd (ground arith)
  factor_of_assured (some amr) a h = (amr, refl, ground arith)

  second_factor_sound :
      (who : Identified) (given : Option Json) (before after : Db) (a : Assurance)
      → req.mfa_proof ≡ given
      → second_factor host req draw sign_in who given before ≡ (ok (assured a), after)
      → IsProved who before after a
  unfolding second_factor
  second_factor_sound who none before after a g h =
      let (challenge, mid, begun, h) =
        >>=-eq-ok (host.begin_login who.user.id who.realm.id who.client.id) _ before after h in
      absurd (ground (arith, ap (λ p. p.0) h))
  second_factor_sound who (some proof) before after a g h =
      let (verified, mid, checked, h) =
        >>=-eq-ok (host.verify_login who.user.id who.realm.id who.client.id proof) _ before after
          h in
      let done : factor_of verified ≡ assured a = ground (arith, ap (λ p. p.0) h) in
      let (amr, right, is_a) = factor_of_assured verified a done in
      subst (IsProved who before after) is_a
        (with_proof proof amr g (checked ∙ (λ i. (ok (right i), (h i).1))))

  pub check_factor_sound :
      (who : Identified) (before after : Db) (a : Assurance)
      → check_factor host req draw sign_in who before ≡ (ok (assured a), after)
      → IsProved who before after a
  unfolding check_factor
  check_factor_sound who before after a h = elim (Bool-cases (has_mfa who.user.id before.actions)) [
    | inl protected ↦
        second_factor_sound who req.mfa_proof before after a refl
          (rw (check_factor, protected) at h)
    | inr plain ↦
        let done = rw (check_factor, plain) at h in
        let is_a : ◌≡◌ {A = Assurance}
            (record { acr = acr_bronze; amr = password_methods who.federation_amr }) a =
          ground (arith, ap (λ p. p.0) done) in
        subst (IsProved who before after) is_a (without_factor plain (ap (λ p. p.1) done))
  ]
