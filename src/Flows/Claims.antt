-- ===== src/Flows/Claims.antt =====
-- The steps that the grants of crates/oidc-oidc/src/flows share: the subject, the claims, the policy
-- of an offline session, the tokens and the client's response.
use open_id_connect_wasi_hub.Prelude.{
  ℕ, String, List, Option, none, some, Bool, true, false, ◌==◌, string_eq, if◌then◌else◌, contains,
}
use open_id_connect_wasi_hub.Error.{Result, ok, err, ok_or, ◌>>=◌, not_found}
use open_id_connect_wasi_hub.Token.{extract_sector_identifier, compute_pairwise_sub}
use open_id_connect_wasi_hub.Models.{Json, Client, OfflineSessionPolicy}
use open_id_connect_wasi_hub.Db.Tables.{Db}
use open_id_connect_wasi_hub.Db.Directory.{find_realm_by_id}
use open_id_connect_wasi_hub.Flows.State.{
  OidcState, AccessTokenExtraClaims, TokenRoleClaims, MappedClaims,
}

-- `unwrap_or_default` on a text.
abbrev pub text_or_empty : Option String → String
text_or_empty none = ""
text_or_empty (some s) = s

abbrev pub ok_or_empty : Result String → String
ok_or_empty (ok s) = s
ok_or_empty (err e) = ""

-- A pairwise subject where the client asks for one, else the user's identifier.
unfoldable pub subject_for : OidcState → Client → ℕ → String
subject_for st client user_id =
    if client.subject_type == "pairwise"
    then compute_pairwise_sub st.external (st.external.uuid_text user_id)
        (text_or_empty
          (extract_sector_identifier st.external client.sector_identifier_uri client.redirect_uris))
        st.pairwise_salt
    else st.external.uuid_text user_id

-- The realm's policy, read only for an offline session.
unfoldable pub offline_policy_for : OidcState → Bool → ℕ → Db → Result (Option OfflineSessionPolicy)
offline_policy_for st false realm_id db = ok none
offline_policy_for st true realm_id db = do
  realm ← ok_or (find_realm_by_id realm_id db) (not_found "realm")
  ok (some (st.offline_policy_of_config realm.config))

-- `include.then(|| claim).flatten()`
abbrev pub when_included {ℓ} : {A : Type ℓ} → Bool → Option A → Option A
when_included true claim = claim
when_included false claim = none

unfoldable pub access_extra :
    MappedClaims → Option Json → TokenRoleClaims → List String → AccessTokenExtraClaims
access_extra mapped organization roles scopes = record {
  custom_claims = mapped.access_token;
  additional_audiences = mapped.access_audiences;
  organization = organization;
  realm_access = when_included (contains scopes "roles") roles.realm_access;
  resource_access = when_included (contains scopes "roles") roles.resource_access;
}

-- `dpop_jkt.is_some()` decides the kind of token.
unfoldable pub token_type_of : Option String → String
token_type_of none = "Bearer"
token_type_of (some jkt) = "DPoP"

-- `Duration::minutes(15)` and `Duration::days(7)`, in seconds.
abbrev pub access_seconds : ℕ
access_seconds = 900

abbrev pub refresh_seconds : ℕ
refresh_seconds = 604800
