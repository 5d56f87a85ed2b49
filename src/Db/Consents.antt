-- ===== src/Db/Consents.antt =====
-- crates/oidc-repository/src/repositories/user_consent_repo.rs: the scopes that a user has approved.
pub mod Laws
use open_id_connect_wasi_hub.Prelude.{
  ℕ, String, List, [], ◌∷◌, ◌++◌, Option, none, some, Bool, true, false, not, ◌&&◌, ◌||◌, ◌==◌,
  nat_eq, string_eq, find, filter, any, update_where, length, ltb, nat_beq, if◌then◌else◌, contains,
  codes,
}
use open_id_connect_wasi_hub.Models.{UserConsent}

-- `String::cmp`: the order of the bytes of UTF-8 is that of the code points.
codes_le : List ℕ → List ℕ → Bool
codes_le [] ys = true
codes_le (x ∷ xs) [] = false
codes_le (x ∷ xs) (y ∷ ys) = ltb x y || nat_beq x y && codes_le xs ys

insert_scope : String → List String → List String
unfolding codes_le
insert_scope s [] = s ∷ []
insert_scope s (x ∷ xs) =
    let rest = insert_scope s xs in if codes_le (codes s) (codes x) then s ∷ x ∷ xs else x ∷ rest

-- `Vec::sort`
unfoldable pub sort_scopes : List String → List String
unfolding insert_scope
sort_scopes [] = []
sort_scopes (s ∷ ss) = insert_scope s (sort_scopes ss)

-- The loop that pushes each scope that is not there yet.
unfoldable pub combine_scopes : List String → List String → List String
combine_scopes combined [] = combined
combine_scopes combined (s ∷ ss) =
    combine_scopes (if contains combined s then combined else combined ++ s ∷ []) ss

abbrev pub is_consent_of : ℕ → ℕ → UserConsent → Bool
is_consent_of user_id client_id c = c.user_id == user_id && c.client_id == client_id

unfoldable pub find_consent : ℕ → ℕ → List UserConsent → Option UserConsent
find_consent user_id client_id t = find (is_consent_of user_id client_id) t

abbrev pub scopes_or_empty : Option UserConsent → List String
scopes_or_empty none = []
scopes_or_empty (some c) = c.scopes

-- `id` is the identifier drawn for a new row, and `now` the time of the statement.
unfoldable pub grant : ℕ → ℕ → ℕ → ℕ → ℕ → List String → List UserConsent → List UserConsent
unfolding find_consent
grant id now user_id realm_id client_id scopes t =
    let combined =
      sort_scopes (combine_scopes (scopes_or_empty (find_consent user_id client_id t)) scopes) in
    if any (is_consent_of user_id client_id) t
    then update_where (is_consent_of user_id client_id)
        (λ c. record c { scopes = combined; updated_at = now }) t
    else t
      ++ record {
        id = id;
        user_id = user_id;
        realm_id = realm_id;
        client_id = client_id;
        scopes = combined;
        created_at = now;
        updated_at = now;
      }
        ∷ []

-- The rows that stay, and the number deleted.
unfoldable pub revoke_consent : ℕ → ℕ → List UserConsent → List UserConsent × ℕ
revoke_consent user_id client_id t = (
  filter (λ c. not (is_consent_of user_id client_id c)) t,
  length (filter (is_consent_of user_id client_id) t),
)
