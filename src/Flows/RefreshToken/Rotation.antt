-- ===== src/Flows/RefreshToken/Rotation.antt =====
-- What a successful rotation has checked and changed.
use open_id_connect_wasi_hub.Prelude.{
  ℕ, ◌+◌, ◌≤◌, ◌≡◌, refl, String, Option, none, some, true, false, arith, nat_eq, nat_beq_iff, ℤ,
  Option-cases, min, add_seconds, inl, inr,
}
use open_id_connect_wasi_hub.Error.{Result, ok, err, OidcError, >>=-eq-ok}
use open_id_connect_wasi_hub.Token.{sha2_256_hex}
use open_id_connect_wasi_hub.Models.{Client, Session, User, OfflineSessionPolicy}
use open_id_connect_wasi_hub.Db.Tables.{Db}
use open_id_connect_wasi_hub.Db.Directory.{
  find_client_by_id, find_user_by_id, is_managed_user_blocked,
}
use open_id_connect_wasi_hub.Db.Sessions.{create, mark_rotated, find_by_refresh_token_hash}
use open_id_connect_wasi_hub.Db.Transaction.{connected-ok, connected-err}
use open_id_connect_wasi_hub.Flows.State.{OidcState, Draw, TokenResponse}
use open_id_connect_wasi_hub.Flows.Claims.{refresh_seconds, offline_policy_for}
use open_id_connect_wasi_hub.Flows.RefreshToken.{
  Refresh, Issued, refreshable, issue, next_expiry, successor, rotate_body, rotate, is_expired,
  issue_tokens,
}

module _ (st : OidcState) (req : Refresh) where
  -- What phase 2 establishes before it issues tokens.
  pub record IsRefreshable (now : ℕ) (db : Db) (s : Session) (user_id : ℕ) (user : User)
      (client : Client) : Type 0 where
    pub found :
        find_by_refresh_token_hash (sha2_256_hex st.external req.refresh_token) db.sessions ≡ some s
    pub owner : s.client_id ≡ req.client_id
    pub alive : (s.revoked ≡ false) × (s.family_revoked ≡ false) × (s.rotated_at ≡ none)
    pub unexpired : is_expired s now ≡ false
    pub of_user : s.user_id ≡ some user_id
    pub known : find_user_by_id user_id db ≡ some user
    pub allowed : (user.enabled ≡ true) × (is_managed_user_blocked user.id db ≡ false)
    pub registered : find_client_by_id s.client_id db ≡ some client
    pub enabled : client.enabled ≡ true

  pub refreshable-IsRefreshable :
      (now : ℕ) (db : Db) (s : Session) (user_id : ℕ) (user : User) (client : Client)
      → refreshable st req now db ≡ ok (s, user_id, user, client)
      → IsRefreshable now db s user_id user client
  unfolding refreshable
  refreshable-IsRefreshable now db s user_id user client h =
      ground (arith, nat_beq_iff s.client_id req.client_id)

  -- The expiry of the new refresh token: seven days, or never beyond the family's absolute expiry.
  abbrev pub ExpiryFits : Draw → Session → Option ℕ → Type 0
  ExpiryFits draw s expiry =
      (e : ℕ) × (expiry ≡ some e)
      × (s.offline_session ≡ false → e ≡ draw.now + refresh_seconds)
      × (s.offline_session ≡ true → (m : ℕ) × (s.offline_max_expires_at ≡ some m) × (e ≤ m))

  next_expiry-ExpiryFits :
      (draw : Draw) (s : Session) (db : Db) (policy : Option OfflineSessionPolicy)
      (expiry : Option ℕ)
      → offline_policy_for st s.offline_session s.realm_id db ≡ ok policy
      → next_expiry draw.now policy s.offline_max_expires_at ≡ ok expiry
      → ExpiryFits draw s expiry
  unfolding offline_policy_for next_expiry
  next_expiry-ExpiryFits draw s db none expiry p h =
      (draw.now + refresh_seconds, ground arith, λ online. refl, λ offline. absurd (ground arith))
  next_expiry-ExpiryFits draw s db (some policy) expiry p h =
      elim (Option-cases s.offline_max_expires_at) [
        | inl missing ↦ absurd (ground arith)
        | inr (m, e) ↦ (
          min (add_seconds draw.now policy.idle_seconds) m,
          ground arith,
          λ online. absurd (ground arith),
          λ offline. (m, e, omega arith),
        )
      ]

  -- What a successful rotation leaves: the old session is marked as rotated, and one new session of
  -- the same family, client, user, realm, scope and absolute expiry follows it. All else is as it was.
  pub record IsRotated (draw : Draw) (db db' : Db) (s : Session) (user_id : ℕ) : Type 0 where
    pub next : Session
    pub stored : db' ≡ record db {
      sessions = mark_rotated s.id draw.db_now (create draw.db_now next db.sessions);
    }
    pub same_family : next.token_family_id ≡ s.token_family_id
    pub same_client : next.client_id ≡ s.client_id
    pub same_user : next.user_id ≡ some user_id
    pub same_realm : next.realm_id ≡ s.realm_id
    pub same_scope : next.scope ≡ s.scope
    pub same_assurance : (next.acr ≡ s.acr) × (next.amr ≡ s.amr)
    pub chained : next.previous_session_id ≡ some s.id
    pub fresh : (next.revoked ≡ false) × (next.family_revoked ≡ false) × (next.rotated_at ≡ none)
    pub same_offline :
        (next.offline_session ≡ s.offline_session)
        × (next.offline_max_expires_at ≡ s.offline_max_expires_at)
    pub expiry : ExpiryFits draw s next.refresh_expires_at

  issue-ExpiryFits :
      (draw : Draw) (s : Session) (user : User) (client : Client) (user_id : ℕ) (db : Db)
      (issued : Issued)
      → issue st req draw s user client user_id db ≡ ok issued
      → ExpiryFits draw s issued.refresh_expires_at
  unfolding issue
  issue-ExpiryFits draw s user client user_id db issued h =
      let (policy, p, h) = >>=-eq-ok (offline_policy_for st s.offline_session s.realm_id db) _ h in
      let (tokens, _, h) = >>=-eq-ok (issue_tokens st req draw s user client user_id db) _ h in
      let (expiry, e, h) = >>=-eq-ok (next_expiry draw.now policy s.offline_max_expires_at) _ h in
      rw (← same_expiry h) (next_expiry-ExpiryFits draw s db policy expiry p e)
    where
      same_expiry :
          {a b c : String} {e : Option ℕ}
          → Result.ok
              (record { access_token = a; id_token = b; refresh_token = c; refresh_expires_at = e })
            ≡ ok issued
          → e ≡ issued.refresh_expires_at
      same_expiry h = ground arith

  rotate_body_sound :
      (now : ℕ) (draw : Draw) (db db' : Db) (r : TokenResponse × Option ℤ)
      → rotate_body st req now draw db ≡ ok (r, db')
      → (s : Session) × (user_id : ℕ) × (user : User) × (client : Client) × IsRefreshable now db s
          user_id user client
        × IsRotated draw db db' s user_id
  unfolding rotate_body
  rotate_body_sound now draw db db' r h =
      let ((s, user_id, user, client), checked, h) = >>=-eq-ok (refreshable st req now db) _ h in
      let (issued, e, h) = >>=-eq-ok (issue st req draw s user client user_id db) _ h in
      (
        s,
        user_id,
        user,
        client,
        refreshable-IsRefreshable now db s user_id user client checked,
        record {
          next = successor st draw s user_id issued;
          stored = ground arith;
          same_family = refl;
          same_client = refl;
          same_user = refl;
          same_realm = refl;
          same_scope = refl;
          same_assurance = (refl, refl);
          chained = refl;
          fresh = (refl, refl, refl);
          same_offline = (refl, refl);
          expiry = issue-ExpiryFits draw s user client user_id db issued e;
        },
      )

  -- A rotation succeeds only for a live, unexpired, not yet rotated session of the authenticated
  -- client, whose user is enabled and not blocked and whose client is enabled. It marks that session
  -- as rotated and adds one successor in the same family, of the same client, user, realm, scope and
  -- assurance, whose refresh token never outlives the family's absolute expiry if it is offline.
  pub rotate_sound :
      (now : ℕ) (draw : Draw) (db db' : Db) (r : TokenResponse × Option ℤ)
      → rotate st req now draw db ≡ (ok r, db')
      → (s : Session) × (user_id : ℕ) × (user : User) × (client : Client) × IsRefreshable now db s
          user_id user client
        × IsRotated draw db db' s user_id
  unfolding rotate
  rotate_sound now draw db db' r h =
      rotate_body_sound now draw db db' r
        (connected-ok draw.link (rotate_body st req now draw) db db' r h)

  -- A rotation that fails leaves the database as it was.
  pub rotate-err :
      (now : ℕ) (draw : Draw) (db db' : Db) (e : OidcError)
      → rotate st req now draw db ≡ (err e, db')
      → db' ≡ db
  unfolding rotate
  rotate-err now draw db db' e h = connected-err draw.link (rotate_body st req now draw) db db' e h
