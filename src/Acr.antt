-- ===== src/Acr.antt =====
-- crates/oidc-core/src/utils/acr.rs: the assurance level (ACR) and methods (AMR) of an
-- authentication, and the choice of a locale.
pub mod Resolution
use text.Mathlib.Text.{starts_with}
use open_id_connect_wasi_hub.Prelude.{
  ℕ, String, List, [], ◌∷◌, Bool, ◌&&◌, ◌||◌, ◌==◌, string_eq, contains, is_empty, leb,
  if◌then◌else◌, concat, Option, none, some, find,
}

abbrev pub acr_bronze : String
acr_bronze = "urn:mace:incommon:iap:bronze"

abbrev pub acr_silver : String
acr_silver = "urn:mace:incommon:iap:silver"

abbrev pub supported_acr_values : List String
supported_acr_values = acr_bronze ∷ acr_silver ∷ []

pub record ResolvedAcrAmr : Type 0 where
  pub acr : String
  pub amr : List String

-- `Result<ResolvedAcrAmr, String>`; the parts of the message stand in place of its text.
pub data AcrResolution : Type 0 where
  satisfied : ResolvedAcrAmr → AcrResolution
  cannot_satisfy : List String → String → AcrResolution

unfoldable pub acr_level : String → ℕ
acr_level acr = if acr == acr_bronze then 1 else if acr == acr_silver then 2 else 0

unfoldable pub achieved_acr : String → String
achieved_acr auth_method = if auth_method == "mfa" then acr_silver else acr_bronze

unfoldable pub methods_of : String → List String
methods_of auth_method =
    if auth_method == "mfa"
    then "mfa" ∷ "pwd" ∷ []
    else if auth_method == "otp"
        || auth_method == "sms"
        || auth_method == "device_code"
        || auth_method == "token_exchange"
        || auth_method == "social"
    then auth_method ∷ []
    else "pwd" ∷ []

-- An achieved level satisfies a supported value of the same or a lower level.
unfoldable pub satisfies : String → String → Bool
unfolding acr_level
satisfies achieved requested =
    contains supported_acr_values requested && leb (acr_level requested) (acr_level achieved)

-- The loop over the requested values.
unfoldable pub resolve_requested : String → List String → List String → List String → AcrResolution
resolve_requested achieved amr all_requested [] = cannot_satisfy all_requested achieved
resolve_requested achieved amr all_requested (requested ∷ rest) =
    let later = resolve_requested achieved amr all_requested rest in
    if satisfies achieved requested
    then satisfied (record { acr = requested; amr = amr })
    else later

unfoldable pub resolve_acr_amr : String → List String → AcrResolution
unfolding resolve_requested achieved_acr methods_of satisfies
resolve_acr_amr auth_method requested =
    if is_empty requested
    then satisfied (record { acr = achieved_acr auth_method; amr = methods_of auth_method })
    else resolve_requested (achieved_acr auth_method) (methods_of auth_method) requested requested

-- `s.starts_with(&format!("{}-", prefix))`
abbrev pub extends_locale : String → String → Bool
extends_locale s prefix = starts_with s (concat (prefix ∷ "-" ∷ []))

abbrev first_or : List String → String → String
first_or [] d = d
first_or (x ∷ xs) d = x

abbrev or_else : Option String → String → String
or_else none d = d
or_else (some x) d = x

unfoldable pub resolve_locale : String → List String → String
resolve_locale user_locale claims_locales =
    elim (find (λ requested. user_locale == requested || extends_locale user_locale requested)
      claims_locales) [
        | some _ ↦ user_locale
        | none ↦
            or_else (find (λ requested. extends_locale requested user_locale) claims_locales)
              (first_or claims_locales user_locale)
      ]
