-- ===== src/Endpoints/TokenState/Revoked.antt =====
-- What a revocation ends, and what introspection then answers.
use open_id_connect_wasi_hub.Prelude.{
  ℕ, ◌≡◌, ◌≢◌, refl, ◌∙◌, subst, String, List, [], ◌∷◌, Option, none, some, Bool, true, ◌==◌, ◌⊎◌,
  inl, inr, All, string_eq, nat_eq, option_eq, arith, eq_iff, nat_beq_iff, option_beq_iff,
  Bool-cases, Option-cases, update_where,
}
use open_id_connect_wasi_hub.Error.{ok, Result-cases}
use open_id_connect_wasi_hub.Token.{sha2_256_hex}
use open_id_connect_wasi_hub.Models.{Client, Session, RptGrant}
use open_id_connect_wasi_hub.Db.Tables.{Db}
use open_id_connect_wasi_hub.Db.Rpts.{find_active_rpt}
use open_id_connect_wasi_hub.Db.Sessions.{
  find_by_access_token_hash, find_by_refresh_token_hash, revoke, revoke_family, set_revoked,
}
use open_id_connect_wasi_hub.Endpoints.TokenState.{
  Inspector, AccessTokenClaims, ActiveToken, inactive, active, rpt_text, rpt_named, revoke_owned,
  revoke_found, revoke_session, revoke_grant, revoke_token, active_grant, is_backed, introspect,
  may_use, uuid_of,
}

-- Access tokens are drawn apart: no two sessions hold the same digest.
abbrev pub DistinctAccess : List Session → Type 0
DistinctAccess [] = Unit
DistinctAccess (x ∷ xs) =
    All (λ y. y.access_token_hash ≢ x.access_token_hash) xs × DistinctAccess xs

module _ (hash : String) (p : Session → Bool) (change : Session → Session)
    (revokes : (x : Session) → (change x).revoked ≡ true)
    (same : (x : Session) → (change x).access_token_hash ≡ x.access_token_hash) where
  absent_after :
      (now : ℕ) (t : List Session)
      → All (λ y. y.access_token_hash ≢ hash) t
      → find_by_access_token_hash hash now (update_where p change t) ≡ none
  unfolding find_by_access_token_hash
  absent_after now [] a = refl
  absent_after now (x ∷ t) (a, rest) = ground (
    arith,
    same x,
    eq_iff x.access_token_hash hash,
    eq_iff (change x).access_token_hash hash,
    absent_after now t rest,
  )

  absent_before :
      (now : ℕ) (t : List Session)
      → All (λ y. y.access_token_hash ≢ hash) t
      → find_by_access_token_hash hash now t ≡ none
  unfolding find_by_access_token_hash
  absent_before now [] a = refl
  absent_before now (x ∷ t) (a, rest) =
      ground (arith, eq_iff x.access_token_hash hash, absent_before now t rest)

  -- An UPDATE that revokes the session found leaves nothing to be found.
  find_by_access_token_hash-update_where :
      (now later : ℕ) (t : List Session) (s : Session)
      → DistinctAccess t
      → find_by_access_token_hash hash now t ≡ some s
      → p s ≡ true
      → find_by_access_token_hash hash later (update_where p change t) ≡ none
  unfolding find_by_access_token_hash
  find_by_access_token_hash-update_where now later [] s d h chosen = cc
  find_by_access_token_hash-update_where now later (x ∷ t) s (d, ds) h chosen =
      elim (Bool-cases (x.access_token_hash == hash)) [
        | inl hit ↦
            let at = (eq_iff x.access_token_hash hash).0 hit in
            let others = subst (λ c. All (λ z. z.access_token_hash ≢ c) t) at d in
            ground
              (arith, revokes x, revokes s, absent_after later t others, absent_before now t others)
        | inr miss ↦ ground (
          arith,
          same x,
          eq_iff x.access_token_hash hash,
          eq_iff (change x).access_token_hash hash,
          find_by_access_token_hash-update_where now later t s ds,
        )
      ]

module _ (ins : Inspector) where
  -- The client's own session is gone, with its family where it has one.
  revoke_owned_ends :
      (client : Client) (hash : String) (now later : ℕ) (db : Db) (s : Session)
      → DistinctAccess db.sessions
      → find_by_access_token_hash hash now db.sessions ≡ some s
      → s.client_id ≡ client.id
      → find_by_access_token_hash hash later (revoke_owned ins client s db).sessions ≡ none
  unfolding revoke_owned revoke revoke_family
  revoke_owned_ends client hash now later db s distinct found own =
      let mine : (s.client_id == client.id) ≡ true = (nat_beq_iff s.client_id client.id).1 own in
      elim (Option-cases s.token_family_id) [
        | inl alone ↦
            rw (mine, alone)
              (find_by_access_token_hash-update_where hash (λ x. x.id == s.id) set_revoked
                (λ x. refl) (λ x. refl) now later db.sessions s distinct found
                ((nat_beq_iff s.id s.id).1 refl))
        | inr (family, member) ↦
            rw (mine, member)
              (find_by_access_token_hash-update_where hash (λ x. x.token_family_id == some family)
                (λ x. record x { revoked = true; family_revoked = true }) (λ x. refl) (λ x. refl)
                now later db.sessions s distinct found
                ((option_beq_iff nat_eq s.token_family_id (some family)).1 member))
      ]

  introspect_unbacked :
      (client : Client) (token : String) (now : ℕ) (db : Db)
      → rpt_named ins token ≡ none
      → find_by_access_token_hash (sha2_256_hex ins.external token) now db.sessions ≡ none
      → introspect ins client token now db ≡ inactive
  unfolding introspect is_backed rpt_named uuid_of active_grant
  introspect_unbacked client token now db plain absent =
      elim (Result-cases (ins.verify_access_token_with_claims token)) [
        | inr (e, failed) ↦ rw (introspect, failed) refl
        | inl (claims, valid) ↦ elim (Option-cases (rpt_text ins claims)) [
          | inl no_rpt ↦ rw (introspect, valid, is_backed, no_rpt, absent) refl
          | inr (text, of_rpt) ↦
              let no_uuid = rw (rpt_named, valid, of_rpt, uuid_of) at plain in
              rw (introspect, valid, is_backed, of_rpt, no_uuid, active_grant) refl
        ]
      ]

  module _ (client : Client) (token : String) (hint : Option String) (now : ℕ) (db : Db)
      (plain : rpt_named ins token ≡ none)
      (no_refresh : find_by_refresh_token_hash (sha2_256_hex ins.external token) db.sessions
        ≡ none) where
    revoke_token-revoke_owned :
        (s : Session)
        → find_by_access_token_hash (sha2_256_hex ins.external token) now db.sessions ≡ some s
        → revoke_token ins client token hint now db ≡ revoke_owned ins client s db
    unfolding revoke_token revoke_session revoke_found revoke_grant active_grant
    revoke_token-revoke_owned s found = elim (Bool-cases (hint == some "refresh_token")) [
      | inl hinted ↦ rw (plain, hinted, no_refresh, found) refl
      | inr other ↦ rw (plain, other, found) refl
    ]

    -- A client that revokes an access token of its own ends it: introspection, at any later time and
    -- by any client, answers that the token is inactive. The token is none of a permission ticket and
    -- no refresh token, and no two sessions may hold the same access token.
    pub introspect-revoke_token :
        (asking : Client) (later : ℕ) (s : Session)
        → DistinctAccess db.sessions
        → find_by_access_token_hash (sha2_256_hex ins.external token) now db.sessions ≡ some s
        → s.client_id ≡ client.id
        → introspect ins asking token later (revoke_token ins client token hint now db) ≡ inactive
    introspect-revoke_token asking later s distinct found own =
        introspect_unbacked asking token later (revoke_token ins client token hint now db) plain (
          rw (revoke_token-revoke_owned s found) (
            revoke_owned_ends client (sha2_256_hex ins.external token) now later db s distinct found
              own))

    -- A client that presents the access token of another client changes nothing.
    pub revoke_token-other :
        (s : Session)
        → find_by_access_token_hash (sha2_256_hex ins.external token) now db.sessions ≡ some s
        → s.client_id ≢ client.id
        → revoke_token ins client token hint now db ≡ db
    unfolding revoke_owned
    revoke_token-other s found other =
        rw (revoke_token-revoke_owned s found) (ground (arith, nat_beq_iff s.client_id client.id))

  -- What stands behind a token that is reported as active to a client.
  unfoldable pub IsBacked : Client → String → ℕ → Db → Type 0
  IsBacked client token now db =
      ((s : Session) × (find_by_access_token_hash (sha2_256_hex ins.external token) now db.sessions
          ≡ some s)
        × (s.client_id ≡ client.id))
      ⊎ ((id : ℕ) × (g : RptGrant) × (rpt_named ins token ≡ some id)
          × (find_active_rpt id now db.authorization_rpt_grants ≡ some g)
          × ((g.client_id ≡ client.id) ⊎ (g.resource_server_id ≡ client.id)))

  may_use_sound :
      (client : Client) (g : RptGrant)
      → may_use ins client g ≡ true
      → (g.client_id ≡ client.id) ⊎ (g.resource_server_id ≡ client.id)
  unfolding may_use
  may_use_sound client g h =
      ground (arith, nat_beq_iff g.client_id client.id, nat_beq_iff g.resource_server_id client.id)

  find_by_access_token_hash-IsBacked :
      (client : Client) (claims : AccessTokenClaims) (token : String) (now : ℕ) (db : Db)
      → rpt_text ins claims ≡ none
      → is_backed ins client claims token now db ≡ true
      → IsBacked client token now db
  unfolding is_backed IsBacked
  find_by_access_token_hash-IsBacked client claims token now db plain h =
      elim (Option-cases
        (find_by_access_token_hash (sha2_256_hex ins.external token) now db.sessions)) [
          | inl absent ↦ absurd (ground (arith, plain, absent))
          | inr (s, found) ↦
              inl (s, found, ground (arith, plain, found, nat_beq_iff s.client_id client.id))
        ]

  rpt_named-text :
      (token text : String) (claims : AccessTokenClaims)
      → ins.verify_access_token_with_claims token ≡ ok claims
      → rpt_text ins claims ≡ some text
      → rpt_named ins token ≡ ins.parse_uuid text
  unfolding rpt_named uuid_of
  rpt_named-text token text claims valid of_rpt = rw (rpt_named, valid, of_rpt, uuid_of) refl

  active_grant-IsBacked :
      (client : Client) (claims : AccessTokenClaims) (token text : String) (now : ℕ) (db : Db)
      → ins.verify_access_token_with_claims token ≡ ok claims
      → rpt_text ins claims ≡ some text
      → is_backed ins client claims token now db ≡ true
      → IsBacked client token now db
  unfolding is_backed IsBacked active_grant
  active_grant-IsBacked client claims token text now db valid of_rpt h =
      elim (Option-cases (ins.parse_uuid text)) [
        | inl no_uuid ↦ absurd (ground (arith, of_rpt, no_uuid))
        | inr (id, uuid) ↦
            elim (Option-cases (find_active_rpt id now db.authorization_rpt_grants)) [
              | inl absent ↦ absurd (ground (arith, of_rpt, uuid, absent))
              | inr (g, found) ↦ inr (
                id,
                g,
                rpt_named-text token text claims valid of_rpt ∙ uuid,
                found,
                may_use_sound client g (ground (arith, of_rpt, uuid, found)),
              )
            ]
      ]

  -- A token is reported as active only to a client whose own session, live and unrevoked, holds its
  -- digest, or, for the token of a permission ticket, to the client or the resource server of its
  -- live grant.
  pub introspect_sound :
      (client : Client) (token : String) (now : ℕ) (db : Db) (a : ActiveToken)
      → introspect ins client token now db ≡ active a
      → IsBacked client token now db
  unfolding introspect
  introspect_sound client token now db a h =
      elim (Result-cases (ins.verify_access_token_with_claims token)) [
        | inr (e, failed) ↦ absurd (ground (arith, failed))
        | inl (claims, valid) ↦
            let backed : is_backed ins client claims token now db ≡ true = ground (arith, valid) in
            elim (Option-cases (rpt_text ins claims)) [
              | inl plain ↦
                  find_by_access_token_hash-IsBacked client claims token now db plain backed
              | inr (text, of_rpt) ↦
                  active_grant-IsBacked client claims token text now db valid of_rpt backed
            ]
      ]
