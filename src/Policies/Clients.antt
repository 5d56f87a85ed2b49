-- ===== src/Policies/Clients.antt =====
-- crates/oidc-core/src/models/client_policy.rs: the policies that a client must satisfy when it is
-- registered or changed.
pub mod Evaluation
pub mod Enforcement
use Prim.Native.String.{compare}
use Prim.Native.Nat.{lt, eq, gt}
use mathlib.Core.Option
use open_id_connect_wasi_hub.Prelude.{
  ℕ, zero, ℤ, leb_ℤ, ltb_ℤ, String, List, [], ◌∷◌, ◌++◌, Option, none, some, Bool, true, false, not,
  ◌&&◌, ◌||◌, ◌==◌, nat_eq, string_eq, contains, any, all, find, filter, is_empty, is_blank, length,
  ltb, concat, if◌then◌else◌,
}
use open_id_connect_wasi_hub.Error.{Result, ok, err, guard, ◌>>◌, ◌>>=◌, invalid_input}
use open_id_connect_wasi_hub.External.{External, Url}
use open_id_connect_wasi_hub.Models.{Client, ClientType, confidential, public}
use open_id_connect_wasi_hub.Policies.Globs.{glob_matches}

pub data ClientRegistrationContext : Type 0 where
  admin dynamic : ClientRegistrationContext

pub data MatchMode : Type 0 where
  match_any match_all : MatchMode

pub data ClientPolicyCondition : Type 0 where
  always : ClientPolicyCondition
  registration_context : List ClientRegistrationContext → ClientPolicyCondition
  of_client_type : ClientType → ClientPolicyCondition
  of_client_id : String → ClientPolicyCondition
  grant_types scopes : List String → MatchMode → ClientPolicyCondition

pub data ClientPolicyExecutor : Type 0 where
  require_pkce : ClientPolicyExecutor
  secure_redirect_uris : Bool → ClientPolicyExecutor
  allowed_grant_types allowed_scopes : List String → ClientPolicyExecutor
  allowed_client_auth_methods : List String → ClientPolicyExecutor
  require_client_type : ClientType → ClientPolicyExecutor
  maximum_redirect_uris : ℕ → ClientPolicyExecutor
  require_pairwise_subject : ClientPolicyExecutor

pub record ClientPolicyProfile : Type 0 where
  pub id : ℕ
  pub realm_id : ℕ
  pub name : String
  pub description : Option String
  pub executors : List ClientPolicyExecutor
  pub created_at : ℕ
  pub updated_at : ℕ

pub record ClientPolicy : Type 0 where
  pub id : ℕ
  pub realm_id : ℕ
  pub name : String
  pub description : Option String
  pub enabled : Bool
  pub priority : ℤ
  pub conditions : List ClientPolicyCondition
  pub profile_ids : List ℕ
  pub created_at : ℕ
  pub updated_at : ℕ

pub record ClientPolicyViolation : Type 0 where
  pub policy : String
  pub profile : String
  pub executor : String
  pub message : String

pub record ClientPolicyEvaluation : Type 0 where
  pub allowed : Bool
  pub matched_policies : List String
  pub matched_profiles : List String
  pub violations : List ClientPolicyViolation

abbrev same_type : ClientType → ClientType → Bool
same_type confidential confidential = true
same_type public public = true
same_type confidential public = false
same_type public confidential = false

abbrev same_context : ClientRegistrationContext → ClientRegistrationContext → Bool
same_context admin admin = true
same_context dynamic dynamic = true
same_context admin dynamic = false
same_context dynamic admin = false

-- `executor` has an empty list of what it allows, or a maximum of zero.
unfoldable pub executor_error : ClientPolicyExecutor → Option String
executor_error (allowed_grant_types []) = some "executor allow-list must not be empty"
executor_error (allowed_scopes []) = some "executor allow-list must not be empty"
executor_error (allowed_client_auth_methods []) = some "executor allow-list must not be empty"
executor_error (maximum_redirect_uris zero) = some "maximum redirect URIs must be greater than zero"
executor_error e = none

unfoldable pub condition_error : ClientPolicyCondition → Option String
condition_error (registration_context []) = some "registration context condition must not be empty"
condition_error (of_client_id pattern) =
    if is_blank pattern then some "client ID pattern must not be empty" else none
condition_error (grant_types [] mode) = some "condition values must not be empty"
condition_error (scopes [] mode) = some "condition values must not be empty"
condition_error c = none

-- The first error of a list of parts.
abbrev pub first_error : {A : Type 0} → (A → Option String) → List A → Result (Unit {0})
first_error f [] = ok tt
first_error f (x ∷ xs) =
    let rest = first_error f xs in
    elim (f x) [ none ↦ rest | some message ↦ err (invalid_input message) ]

unfoldable pub validate_profile : ClientPolicyProfile → Result (Unit {0})
unfolding executor_error
validate_profile p = do
  guard (not (is_blank p.name)) (invalid_input "profile name is required")
  guard (not (is_empty p.executors)) (invalid_input "a profile needs at least one executor")
  first_error executor_error p.executors

unfoldable pub validate_policy : ClientPolicy → Result (Unit {0})
unfolding condition_error
validate_policy p = do
  guard (not (is_blank p.name)) (invalid_input "policy name is required")
  guard (not (is_empty p.conditions)) (invalid_input "a policy needs at least one condition")
  guard (not (is_empty p.profile_ids)) (invalid_input "a policy needs at least one profile")
  first_error condition_error p.conditions

unfoldable pub matches_values : List String → List String → MatchMode → Bool
matches_values expected actual match_any = any (λ v. contains actual v) expected
matches_values expected actual match_all = all (λ v. contains actual v) expected

abbrev is_match : Option Bool → Bool
is_match none = false
is_match (some b) = b

unfoldable pub condition_matches : ClientPolicyCondition → Client → ClientRegistrationContext → Bool
condition_matches always client context = true
condition_matches (registration_context contexts) client context =
    any (same_context context) contexts
condition_matches (of_client_type t) client context = same_type t client.client_type
condition_matches (of_client_id pattern) client context =
    is_match (glob_matches pattern client.client_id)
condition_matches (grant_types values mode) client context =
    matches_values values client.allowed_grant_types mode
condition_matches (scopes values mode) client context =
    matches_values values client.allowed_scopes mode

module _ (ext : External) where
  -- The scheme and the host that a redirect URI must not have.
  abbrev is_loopback : Option String → Bool
  is_loopback none = false
  is_loopback (some host) = host == "localhost" || host == "127.0.0.1" || host == "::1"

  abbrev is_secure : Bool → Url → Bool
  is_secure allow_loopback_http u =
      u.scheme == "https" || (allow_loopback_http && is_loopback u.host_str && u.scheme == "http")

  unfoldable pub uri_violation : Bool → String → Option String
  uri_violation allow_loopback_http uri = elim (ext.parse_url uri) [
    | none ↦ some (concat ("redirect URI '" ∷ uri ∷ "' is not a valid absolute URL" ∷ []))
    | some u ↦
        if is_secure allow_loopback_http u
        then none
        else some (concat ("redirect URI '" ∷ uri ∷ "' must use HTTPS" ∷ []))
  ]

  -- `find_map`
  abbrev find_map : (String → Option String) → List String → Option String
  find_map f [] = none
  find_map f (x ∷ xs) = let rest = find_map f xs in elim (f x) [ none ↦ rest | some y ↦ some y ]

  abbrev type_text : ClientType → String
  type_text confidential = "confidential"
  type_text public = "public"

  -- The kind of the executor and the message, where the client violates it.
  unfoldable pub executor_violation : ClientPolicyExecutor → Client → Option (String × String)
  unfolding uri_violation
  executor_violation require_pkce client =
      if client.pkce_required then none else some ("require_pkce", "PKCE must be required")
  executor_violation (secure_redirect_uris allow_loopback_http) client =
      Option.map (λ message. ("secure_redirect_uris", message))
        (find_map (uri_violation allow_loopback_http) client.redirect_uris)
  executor_violation (allowed_grant_types values) client =
      Option.map
        (λ v. ("allowed_grant_types", concat ("grant type '" ∷ v ∷ "' is not allowed" ∷ [])))
        (find (λ v. not (contains values v)) client.allowed_grant_types)
  executor_violation (allowed_scopes values) client =
      Option.map (λ v. ("allowed_scopes", concat ("scope '" ∷ v ∷ "' is not allowed" ∷ [])))
        (find (λ v. not (contains values v)) client.allowed_scopes)
  executor_violation (allowed_client_auth_methods values) client =
      if contains values client.token_endpoint_auth_method
      then none
      else some (
        "allowed_client_auth_methods",
        concat (
            "client authentication method '" ∷ client.token_endpoint_auth_method
            ∷ "' is not allowed" ∷ []),
      )
  executor_violation (require_client_type t) client =
      if same_type t client.client_type
      then none
      else some ("require_client_type", concat ("client type must be " ∷ type_text t ∷ []))
  executor_violation (maximum_redirect_uris maximum) client =
      if ltb maximum (length client.redirect_uris)
      then some (
        "maximum_redirect_uris",
        concat ("at most " ∷ ext.decimal maximum ∷ " redirect URIs are allowed" ∷ []),
      )
      else none
  executor_violation require_pairwise_subject client =
      if client.subject_type == "pairwise"
      then none
      else some ("require_pairwise_subject", "pairwise subject identifiers are required")
