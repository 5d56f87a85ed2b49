-- ===== src/Actions/Store.antt =====
-- crates/oidc-repository/src/repositories/required_action_repo.rs, and the look-ups of mfa_repo.rs. The
-- rows of `user_required_actions` stand in the order of `created_at`.
use open_id_connect_wasi_hub.Prelude.{
  is_null, ℕ, String, List, [], ◌∷◌, ◌++◌, Option, none, some, Bool, not, ◌==◌, ◌&&◌, ◌||◌, nat_eq,
  string_eq, filter, find, any, is_empty, update_where, ltb, if◌then◌else◌,
}
use open_id_connect_wasi_hub.Actions.{RequiredActionKind, as_str, from_str}

pub record RequiredActionSession : Type 0 where
  pub id : ℕ
  pub token_hash : String
  pub user_id : ℕ
  pub realm_id : ℕ
  pub client_id : ℕ
  pub expires_at : ℕ
  pub used_at : Option ℕ

pub record ActionRow : Type 0 where
  pub user_id : ℕ
  pub action : String

pub record TermsRow : Type 0 where
  pub user_id : ℕ
  pub version : String

-- The owner of a row of `user_totp_credentials` or `user_webauthn_credentials`.
pub record CredentialRow : Type 0 where
  pub id : ℕ
  pub user_id : ℕ

pub record ActionTables : Type 0 where
  pub required_actions : List ActionRow
  pub terms_acceptances : List TermsRow
  pub action_sessions : List RequiredActionSession
  pub totp_credentials : List CredentialRow
  pub webauthn_credentials : List CredentialRow

-- `filter_map` over the rows of the user: a text that names no action is left out.
unfoldable pub listed : ℕ → List ActionRow → List RequiredActionKind
listed user_id [] = []
listed user_id (row ∷ rows) =
    let rest = listed user_id rows in
    if row.user_id == user_id
    then elim (from_str row.action) [ none ↦ rest | some k ↦ k ∷ rest ]
    else rest

abbrev pub is_row_of : ℕ → RequiredActionKind → ActionRow → Bool
is_row_of user_id action row = row.user_id == user_id && row.action == as_str action

-- `INSERT … ON CONFLICT DO NOTHING`
unfoldable pub insert_action : ℕ → RequiredActionKind → List ActionRow → List ActionRow
insert_action user_id action rows =
    if any (is_row_of user_id action) rows
    then rows
    else rows ++ record { user_id = user_id; action = as_str action } ∷ []

insert_actions : ℕ → List RequiredActionKind → List ActionRow → List ActionRow
insert_actions user_id [] rows = rows
insert_actions user_id (action ∷ actions) rows =
    insert_actions user_id actions (insert_action user_id action rows)

unfoldable pub replace : ℕ → List RequiredActionKind → List ActionRow → List ActionRow
unfolding insert_actions
replace user_id actions rows =
    insert_actions user_id actions (filter (λ row. not (row.user_id == user_id)) rows)

unfoldable pub complete : ℕ → RequiredActionKind → List ActionRow → List ActionRow
complete user_id action rows = filter (λ row. not (is_row_of user_id action row)) rows

unfoldable pub has_accepted_terms : ℕ → String → List TermsRow → Bool
has_accepted_terms user_id version rows =
    any (λ row. row.user_id == user_id && row.version == version) rows

unfoldable pub accept : ℕ → String → List TermsRow → List TermsRow
accept user_id version rows =
    if has_accepted_terms user_id version rows
    then rows
    else rows ++ record { user_id = user_id; version = version } ∷ []

unfoldable pub create_action_session :
    RequiredActionSession → List RequiredActionSession → List RequiredActionSession
create_action_session v rows = rows ++ v ∷ []

unfoldable pub find_action_session :
    String → ℕ → List RequiredActionSession → Option RequiredActionSession
find_action_session token_hash now rows =
    find (λ v. v.token_hash == token_hash && is_null v.used_at && ltb now v.expires_at) rows

unfoldable pub use_action_session : ℕ → ℕ → List RequiredActionSession → List RequiredActionSession
use_action_session id now rows =
    update_where (λ v. v.id == id) (λ v. record v { used_at = some now }) rows

-- `find_totp(…).is_some() || !list_webauthn(…).is_empty()`
unfoldable pub has_mfa : ℕ → ActionTables → Bool
has_mfa user_id tables =
    not (is_null (find (λ c. c.user_id == user_id) tables.totp_credentials))
    || not (is_empty (filter (λ c. c.user_id == user_id) tables.webauthn_credentials))
