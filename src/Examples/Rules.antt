-- ===== src/Examples/Rules.antt =====
-- Assurance levels, response types and password policies on examples.
use open_id_connect_wasi_hub.Prelude.{
  List, ◌∷◌, ◌≡◌, ◌≢◌, ◌↔◌, ◌⊎◌, refl, String, [], ◌∷◌, true, false, some, All,
}
use open_id_connect_wasi_hub.Models.{ResponseType}
use open_id_connect_wasi_hub.Acr.{
  ResolvedAcrAmr, satisfied, cannot_satisfy, achieved_acr, methods_of, satisfies, resolve_acr_amr,
  acr_silver,
}
use open_id_connect_wasi_hub.Acr.Resolution.{
  IsFirstSatisfied, resolve_acr_amr_sound, resolve_acr_amr_fails_iff,
}
use open_id_connect_wasi_hub.Requests.ResponseTypes.{parse, parsed, as_str, split_on_space}
use open_id_connect_wasi_hub.Requests.ResponseTypes.RoundTrip.{parse_canonical}
use open_id_connect_wasi_hub.Requests.ResponseTypes.Words.{Component, spelt, named, parse_words_iff}
use open_id_connect_wasi_hub.Policies.Passwords.{accepted, default_policy, validate_password}
use open_id_connect_wasi_hub.Policies.Passwords.Acceptance.{IsAcceptable, validate_password_iff}

-- Multi-factor authentication, with an unknown level and then the silver one requested.
abbrev silver : ResolvedAcrAmr
silver = record { acr = acr_silver; amr = "mfa" ∷ "pwd" ∷ [] }

resolved : resolve_acr_amr "mfa" ("gold" ∷ acr_silver ∷ []) ≡ satisfied silver
unfolding resolve_acr_amr
resolved = refl

resolve_acr_amr_sound_example :
    (silver.amr ≡ methods_of "mfa")
    × (((("gold" ∷ acr_silver ∷ []) ≡ []) × (silver.acr ≡ achieved_acr "mfa"))
        ⊎ IsFirstSatisfied (achieved_acr "mfa") ("gold" ∷ acr_silver ∷ []) silver.acr)
resolve_acr_amr_sound_example =
    resolve_acr_amr_sound "mfa" ("gold" ∷ acr_silver ∷ []) silver resolved

resolve_acr_amr_fails_iff_example :
    (resolve_acr_amr "pwd" (acr_silver ∷ [])
      ≡ cannot_satisfy (acr_silver ∷ []) (achieved_acr "pwd"))
    ↔ (((acr_silver ∷ []) ≢ [])
        × All (λ a. satisfies (achieved_acr "pwd") a ≡ false) (acr_silver ∷ []))
resolve_acr_amr_fails_iff_example = resolve_acr_amr_fails_iff "pwd" (acr_silver ∷ [])

abbrev hybrid : ResponseType
hybrid = record { code = true; token = false; id_token = true }

parsed_hybrid : parse "id_token code" ≡ parsed hybrid
unfolding parse split_on_space
parsed_hybrid = refl

parse_canonical_example : (t : String) × (as_str hybrid ≡ some t) × (parse t ≡ parsed hybrid)
parse_canonical_example = parse_canonical "id_token code" hybrid parsed_hybrid

parse_words_iff_example : (parse "id_token code" ≡ parsed hybrid) ↔ (
    (c : Component) × (cs : List Component) × ("id_token code" ≡ spelt c cs)
    × (hybrid ≡ named (c ∷ cs)))
parse_words_iff_example = parse_words_iff "id_token code" hybrid

validate_password_iff_example :
    (validate_password (λ s. s) default_policy "Passw0rd" ≡ accepted)
    ↔ IsAcceptable (λ s. s) default_policy "Passw0rd"
validate_password_iff_example = validate_password_iff (λ s. s) default_policy "Passw0rd"
