-- ===== src/Db/Consents/Laws.antt =====
-- What a grant of consent stores: the scopes approved before, and the new ones.
use open_id_connect_wasi_hub.Prelude.{
  ℕ, ◌≡◌, refl, String, List, [], ◌∷◌, ◌++◌, true, false, ◌||◌, ◌==◌, string_eq, nat_eq, Bool-cases,
  inl, inr, contains, arith, eq_iff, nat_beq_iff, any, update_where, if◌then◌else◌,
}
use open_id_connect_wasi_hub.Models.{UserConsent}
use open_id_connect_wasi_hub.Db.Consents.{
  sort_scopes, insert_scope, combine_scopes, find_consent, scopes_or_empty, grant, is_consent_of,
}

module _ (v : String) where
  contains-insert_scope :
      (s : String) (xs : List String) → contains (insert_scope s xs) v ≡ (s == v || contains xs v)
  unfolding insert_scope
  contains-insert_scope s [] = refl
  contains-insert_scope s (x ∷ xs) = ground (arith, contains-insert_scope s xs)

  contains-sort_scopes : (xs : List String) → contains (sort_scopes xs) v ≡ contains xs v
  unfolding sort_scopes
  contains-sort_scopes [] = refl
  contains-sort_scopes (x ∷ xs) =
      ground (arith, contains-insert_scope x (sort_scopes xs), contains-sort_scopes xs)

  pub contains-append :
      (xs ys : List String) → contains (xs ++ ys) v ≡ (contains xs v || contains ys v)
  contains-append [] ys = refl
  contains-append (x ∷ xs) ys = ground (arith, contains-append xs ys)

  contains-combine_scopes :
      (combined ss : List String)
      → contains (combine_scopes combined ss) v ≡ (contains combined v || contains ss v)
  unfolding combine_scopes
  contains-combine_scopes combined [] = ground arith
  contains-combine_scopes combined (s ∷ ss) = ground (
    arith,
    contains-append combined (s ∷ []),
    contains-combine_scopes (if contains combined s then combined else combined ++ s ∷ []) ss,
    eq_iff s v,
  )

-- The scopes that a user has approved for a client.
unfoldable pub consented : ℕ → ℕ → List UserConsent → List String
consented user_id client_id t = scopes_or_empty (find_consent user_id client_id t)

module _ (user_id client_id now : ℕ) (combined : List String) where
  replaced : UserConsent → UserConsent
  replaced c = record c { scopes = combined; updated_at = now }

  consented-update_where :
      (t : List UserConsent)
      → any (is_consent_of user_id client_id) t ≡ true
      → consented user_id client_id (update_where (is_consent_of user_id client_id) replaced t)
        ≡ combined
  unfolding consented find_consent replaced
  consented-update_where [] h = cc
  consented-update_where (c ∷ t) h = ground (arith, consented-update_where t)

  consented-append :
      (c : UserConsent) (t : List UserConsent)
      → any (is_consent_of user_id client_id) t ≡ false
      → is_consent_of user_id client_id c ≡ true
      → consented user_id client_id (t ++ c ∷ []) ≡ c.scopes
  unfolding consented find_consent
  consented-append c [] none_there h = ground arith
  consented-append c (d ∷ t) none_there h = ground (arith, consented-append c t)

module _ (id now user_id realm_id client_id : ℕ) (scopes : List String) (t : List UserConsent) where
  consented-grant :
      consented user_id client_id (grant id now user_id realm_id client_id scopes t)
      ≡ sort_scopes (combine_scopes (consented user_id client_id t) scopes)
  unfolding grant consented replaced
  consented-grant =
      let combined = sort_scopes (combine_scopes (consented user_id client_id t) scopes) in
      elim (Bool-cases (any (is_consent_of user_id client_id) t)) [
        | inl there ↦ rw there (consented-update_where user_id client_id now combined t there)
        | inr absent ↦ rw absent (
            consented-append user_id client_id now combined
              (record {
                id = id;
                user_id = user_id;
                realm_id = realm_id;
                client_id = client_id;
                scopes = combined;
                created_at = now;
                updated_at = now;
              })
              t absent
              (ground (arith, nat_beq_iff user_id user_id, nat_beq_iff client_id client_id)))
      ]

  -- After a grant the user has approved for the client exactly the scopes approved before and those
  -- granted; the order of the list is forgotten.
  pub contains-grant :
      (v : String)
      → contains (consented user_id client_id (grant id now user_id realm_id client_id scopes t)) v
        ≡ (contains (consented user_id client_id t) v || contains scopes v)
  contains-grant v =
      rw
        (
          consented-grant,
          contains-sort_scopes v (combine_scopes (consented user_id client_id t) scopes),
        )
        (contains-combine_scopes v (consented user_id client_id t) scopes)
