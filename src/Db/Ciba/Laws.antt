-- ===== src/Db/Ciba/Laws.antt =====
-- Laws of the table of backchannel requests: an UPDATE by id finds the row again, changed.
use open_id_connect_wasi_hub.Prelude.{
  ℕ, ◌≡◌, ◌≢◌, String, none, List, [], ◌∷◌, some, Bool, true, ◌==◌, nat_eq, string_eq, Bool-cases,
  inl, inr, update_where, arith, nat_beq_iff, eq_iff, refl, ap, ◌&&◌, if◌then◌else◌, subst, ◌⊎◌,
  All,
}
use open_id_connect_wasi_hub.Models.{CibaAuthenticationRequest}
use open_id_connect_wasi_hub.Db.Ciba.{find_for_update, find_user_request, consume}

pub find_for_update_sound :
    (hash : String) (t : List CibaAuthenticationRequest) (r : CibaAuthenticationRequest)
    → find_for_update hash t ≡ some r
    → r.auth_req_id_hash ≡ hash
unfolding find_for_update
find_for_update_sound hash [] r h = cc
find_for_update_sound hash (x ∷ t) r h =
    ground (arith, eq_iff x.auth_req_id_hash hash, find_for_update_sound hash t r)

-- An UPDATE that keeps the digests finds the same row, changed where the condition holds of it.
pub find_for_update-update_where :
    (hash : String) (p : CibaAuthenticationRequest → Bool)
    (change : CibaAuthenticationRequest → CibaAuthenticationRequest)
    (same : (x : CibaAuthenticationRequest) → (change x).auth_req_id_hash ≡ x.auth_req_id_hash)
    (t : List CibaAuthenticationRequest) (r : CibaAuthenticationRequest)
    → find_for_update hash t ≡ some r
    → find_for_update hash (update_where p change t) ≡ some (if p r then change r else r)
unfolding find_for_update
find_for_update-update_where hash p change same [] r h = cc
find_for_update-update_where hash p change same (x ∷ t) r h =
    elim (Bool-cases (x.auth_req_id_hash == hash)) [
      | inl hit ↦ ground (
        arith,
        same x,
        eq_iff x.auth_req_id_hash hash,
        eq_iff (change x).auth_req_id_hash hash,
        eq_iff (if p x then change x else x).auth_req_id_hash hash,
      )
      | inr miss ↦ ground (
        arith,
        same x,
        eq_iff (change x).auth_req_id_hash hash,
        eq_iff x.auth_req_id_hash hash,
        find_for_update-update_where hash p change same t r,
      )
    ]

-- The status of a request from which no token is issued any more.
abbrev pub IsFinal : String → Type 0
IsFinal status = (status ≡ "denied") ⊎ (status ≡ "consumed") ⊎ (status ≡ "expired")

-- Every stored request with the digest is in such a status.
abbrev pub AllSpent : String → List CibaAuthenticationRequest → Type 0
AllSpent hash t = All (λ r. r.auth_req_id_hash ≡ hash → IsFinal r.status) t

-- An UPDATE that sets a final status, or leaves a final status alone, keeps a digest spent.
pub All-update_where :
    (hash : String) (p : CibaAuthenticationRequest → Bool)
    (change : CibaAuthenticationRequest → CibaAuthenticationRequest)
    (kept : (x : CibaAuthenticationRequest)
      → p x ≡ true
      → (x.auth_req_id_hash ≡ hash → IsFinal x.status)
      → (change x).auth_req_id_hash ≡ hash
      → IsFinal (change x).status)
    (t : List CibaAuthenticationRequest)
    → AllSpent hash t
    → AllSpent hash (update_where p change t)
All-update_where hash p change kept [] a = tt
All-update_where hash p change kept (x ∷ t) (a, rest) = (
  elim (Bool-cases (p x)) [ inl hit ↦ rw hit (kept x hit a) | inr miss ↦ rw miss a ],
  All-update_where hash p change kept t rest,
)

pub find_for_update-AllSpent :
    (hash : String) (t : List CibaAuthenticationRequest) (r : CibaAuthenticationRequest)
    → AllSpent hash t
    → find_for_update hash t ≡ some r
    → IsFinal r.status
unfolding find_for_update
find_for_update-AllSpent hash [] r a h = cc
find_for_update-AllSpent hash (x ∷ t) r (a, rest) h =
    elim (Bool-cases (x.auth_req_id_hash == hash)) [
      | inl hit ↦
          let found : x ≡ r = ground (arith, hit) in
          subst (λ y. IsFinal y.status) found (a ((eq_iff x.auth_req_id_hash hash).0 hit))
      | inr miss ↦ find_for_update-AllSpent hash t r rest (ground (arith, miss))
    ]

-- Identifiers are drawn at random: no two requests have the same.
abbrev pub DistinctRequests : List CibaAuthenticationRequest → Type 0
DistinctRequests [] = Unit
DistinctRequests (x ∷ xs) = All (λ y. y.id ≢ x.id) xs × DistinctRequests xs

find_for_update-id :
    (hash : String) (id : ℕ) (t : List CibaAuthenticationRequest) (r : CibaAuthenticationRequest)
    → All (λ y. y.id ≢ id) t
    → find_for_update hash t ≡ some r
    → r.id ≢ id
unfolding find_for_update
find_for_update-id hash id [] r a h = cc
find_for_update-id hash id (x ∷ t) r (a, rest) h = elim (Bool-cases (x.auth_req_id_hash == hash)) [
  | inl hit ↦ let found : x ≡ r = ground (arith, hit) in subst (λ y. y.id ≢ id) found a
  | inr miss ↦ find_for_update-id hash id t r rest (ground (arith, miss))
]

pub find_user_request-id :
    (id user_id : ℕ) (t : List CibaAuthenticationRequest) (r : CibaAuthenticationRequest)
    → find_user_request id user_id t ≡ some r
    → (r.id ≡ id) × (r.user_id ≡ user_id)
unfolding find_user_request
find_user_request-id id user_id [] r h = cc
find_user_request-id id user_id (x ∷ t) r h =
    elim (Bool-cases (x.id == id && x.user_id == user_id)) [
      | inl hit ↦
          let found : x ≡ r = ground (arith, hit) in
          subst (λ y. (y.id ≡ id) × (y.user_id ≡ user_id)) found
            (ground (arith, nat_beq_iff x.id id, nat_beq_iff x.user_id user_id))
      | inr miss ↦ find_user_request-id id user_id t r (ground (arith, miss))
    ]

find_user_request-absent :
    (id user_id : ℕ) (t : List CibaAuthenticationRequest)
    → All (λ y. y.id ≢ id) t
    → find_user_request id user_id t ≡ none
unfolding find_user_request
find_user_request-absent id user_id [] a = refl
find_user_request-absent id user_id (x ∷ t) (a, rest) =
    ground (arith, nat_beq_iff x.id id, find_user_request-absent id user_id t rest)

-- A digest and an identifier that name the same request find the same row.
pub find_user_request-find_for_update :
    (hash : String) (id user_id : ℕ) (t : List CibaAuthenticationRequest)
    (r x : CibaAuthenticationRequest)
    → DistinctRequests t
    → find_for_update hash t ≡ some r
    → r.id ≡ id
    → find_user_request id user_id t ≡ some x
    → x ≡ r
unfolding find_for_update find_user_request
find_user_request-find_for_update hash id user_id [] r x d h e k = cc
find_user_request-find_for_update hash id user_id (y ∷ t) r x (d, ds) h e k =
    elim (Bool-cases (y.id == id)) [
      | inl same ↦
          let at : y.id ≡ id = (nat_beq_iff y.id id).0 same in
          let others = subst (λ i. All (λ z. z.id ≢ i) t) at d in
          ground (
            arith,
            same,
            find_user_request-absent id user_id t others,
            find_for_update-id hash id t r others,
          )
      | inr other ↦ ground (
        arith,
        nat_beq_iff y.id id,
        other,
        find_user_request-find_for_update hash id user_id t r x ds,
      )
    ]

-- Digests of random tokens: no two stored requests have the same.
abbrev pub DistinctDigests : List CibaAuthenticationRequest → Type 0
DistinctDigests [] = Unit
DistinctDigests (x ∷ xs) =
    All (λ y. y.auth_req_id_hash ≢ x.auth_req_id_hash) xs × DistinctDigests xs

AllSpent-consume :
    (hash : String) (id now : ℕ) (t : List CibaAuthenticationRequest)
    → All (λ y. y.auth_req_id_hash ≢ hash) t
    → AllSpent hash (consume id now t)
unfolding consume
AllSpent-consume hash id now [] a = tt
AllSpent-consume hash id now (x ∷ t) (a, rest) = (
  elim (Bool-cases (x.id == id)) [
    | inl hit ↦ rw hit (λ e. absurd (a e))
    | inr miss ↦ rw miss (λ e. absurd (a e))
  ],
  AllSpent-consume hash id now t rest,
)

-- Once the request with a digest is consumed the digest is spent.
pub consume-AllSpent :
    (hash : String) (now : ℕ) (t : List CibaAuthenticationRequest) (r : CibaAuthenticationRequest)
    → DistinctDigests t
    → find_for_update hash t ≡ some r
    → AllSpent hash (consume r.id now t)
unfolding find_for_update consume
consume-AllSpent hash now [] r d h = tt
consume-AllSpent hash now (x ∷ t) r (d, ds) h = elim (Bool-cases (x.auth_req_id_hash == hash)) [
  | inl hit ↦
      let found : x ≡ r = ground (arith, hit) in
      let at = (eq_iff x.auth_req_id_hash hash).0 hit in
      let others = subst (λ i. All (λ z. z.auth_req_id_hash ≢ i) t) at d in
      let same : (x.id == r.id) ≡ true = (nat_beq_iff x.id r.id).1 (ap (λ y. y.id) found) in
      (rw same (λ _. inr (inl refl)), AllSpent-consume hash r.id now t others)
  | inr miss ↦
      let other : x.auth_req_id_hash ≢ hash = ground (arith, eq_iff x.auth_req_id_hash hash) in
      (
        elim (Bool-cases (x.id == r.id)) [
          | inl same ↦ rw same (λ e. absurd (other e))
          | inr elsewhere ↦ rw elsewhere (λ e. absurd (other e))
        ],
        consume-AllSpent hash now t r ds (ground (arith, miss)),
      )
]
