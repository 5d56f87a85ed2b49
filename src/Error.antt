-- ===== src/Error.antt =====
-- crates/oidc-core/src/errors.rs: the error type of the hub and its HTTP status, and `Result`.
use open_id_connect_wasi_hub.Prelude.{
  ℕ, ◌≡◌, refl, String, Option, none, some, Bool, true, false, ◌⊎◌, inl, inr,
}

pub data OidcError : Type 0 where
  authentication_failed authorization_denied invalid_input not_found conflict : String → OidcError
  token_expired invalid_token_signature invalid_request invalid_client : OidcError
  unsupported_grant_type unauthorized_client : OidcError
  invalid_scope invalid_request_object invalid_client_assertion : String → OidcError
  invalid_dpop_proof : String → OidcError
  authorization_pending slow_down expired_token : OidcError
  invalid_subject_token invalid_actor_token login_required : String → OidcError
  account_selection_required internal : String → OidcError

pub data Result {ℓ} (A : Type ℓ) : Type ℓ where
  ok : A → Result A
  err : OidcError → Result A

-- `if !b { return Err(e); }`
abbrev pub guard : Bool → OidcError → Result (Unit {0})
guard holds e = elim holds [ false ↦ err e | true ↦ ok tt ]

-- `?`
infixl 5 ◌>>=◌ ◌>>◌
abbrev pub ◌>>=◌ {ℓ κ} : {A : Type ℓ} {B : Type κ} → Result A → (A → Result B) → Result B
err e >>= next = err e
ok value >>= next = next value

-- `Option::ok_or`
abbrev pub ok_or {ℓ} : {A : Type ℓ} → Option A → OidcError → Result A
ok_or none e = err e
ok_or (some a) e = ok a

abbrev pub ◌>>◌ {ℓ} : {B : Type ℓ} → Result (Unit {0}) → Result B → Result B
m >> k = m >>= λ _. k

pub >>=-eq-ok {ℓ κ} :
    {A : Type ℓ} {B : Type κ} (m : Result A) (next : A → Result B) {b : B}
    → (m >>= next) ≡ ok b
    → (value : A) × (m ≡ ok value) × (next value ≡ ok b)
>>=-eq-ok (err e) next h = cc
>>=-eq-ok (ok value) next h = (value, refl, h)

pub ok_or-eq-ok {ℓ} :
    {A : Type ℓ} (o : Option A) (e : OidcError) {a : A} → ok_or o e ≡ ok a → o ≡ some a
ok_or-eq-ok none e h = cc
ok_or-eq-ok (some a) e h = cc

pub Result-cases {ℓ} :
    {A : Type ℓ} (r : Result A) → ((a : A) × (r ≡ ok a)) ⊎ ((e : OidcError) × (r ≡ err e))
Result-cases (ok a) = inl (a, refl)
Result-cases (err e) = inr (e, refl)

-- `OidcError::http_status`
unfoldable pub http_status : OidcError → ℕ
http_status (authentication_failed _) = 401
http_status invalid_token_signature = 401
http_status token_expired = 401
http_status invalid_client = 401
http_status (authorization_denied _) = 403
http_status (invalid_scope _) = 403
http_status (not_found _) = 404
http_status (conflict _) = 409
http_status (internal _) = 500
http_status _ = 400
