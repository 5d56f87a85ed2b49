-- ===== src/Actions/Pending.antt =====
-- `profile_complete`, `pending_actions` and `create_challenge` of
-- crates/oidc-oidc/src/endpoints/required_actions.rs.
use open_id_connect_wasi_hub.Prelude.{
  ℕ, String, List, [], ◌∷◌, ◌++◌, Option, none, some, Bool, true, false, not, ◌==◌, ◌&&◌, nat_eq,
  string_eq, filter, is_blank, leb, if◌then◌else◌, suc,
}
use open_id_connect_wasi_hub.Models.{User}
use open_id_connect_wasi_hub.Actions.{
  RequiredActionKind, update_password, verify_email, update_profile, configure_mfa, accept_terms,
  kind_eq, AuthenticationFlowConfig,
}
use open_id_connect_wasi_hub.Actions.Store.{ActionTables, listed, has_accepted_terms, has_mfa}

-- `is_some_and(|v| !v.trim().is_empty())`
unfoldable pub is_filled : Option String → Bool
is_filled none = false
is_filled (some v) = not (is_blank v)

unfoldable pub profile_complete : User → Bool
unfolding is_filled
profile_complete user = is_filled user.given_name && is_filled user.family_name

-- `flow.terms.enabled && !flow.terms.version.is_empty()`
unfoldable pub has_terms : AuthenticationFlowConfig → Bool
has_terms flow = flow.terms.enabled && not (flow.terms.version == "")

-- The first `retain`.
unfoldable pub is_open : AuthenticationFlowConfig → User → ActionTables → RequiredActionKind → Bool
unfolding has_terms profile_complete
is_open flow user tables update_password = true
is_open flow user tables verify_email = not user.email_verified
is_open flow user tables update_profile = not (profile_complete user)
is_open flow user tables configure_mfa = not (has_mfa user.id tables)
is_open flow user tables accept_terms = has_terms flow

unfoldable pub retained : AuthenticationFlowConfig → User → ActionTables → List RequiredActionKind
unfolding is_open
retained flow user tables =
    let pending = filter (is_open flow user tables) (listed user.id tables.required_actions) in
    if has_terms flow && has_accepted_terms user.id flow.terms.version tables.terms_acceptances
    then filter (λ action. not (action == accept_terms)) pending
    else pending

-- `if condition { pending.push(action); }`
abbrev pub push_when : Bool → RequiredActionKind → List RequiredActionKind → List RequiredActionKind
push_when condition action pending = if condition then pending ++ action ∷ [] else pending

unfoldable pub with_required :
    AuthenticationFlowConfig
    → User
    → ActionTables
    → List RequiredActionKind
    → List RequiredActionKind
unfolding has_terms
with_required flow user tables pending =
    let verified =
      push_when (flow.require_verified_email && not user.email_verified) verify_email pending in
    let profiled =
      push_when (flow.require_complete_profile && not (profile_complete user)) update_profile
        verified in
    let secured =
      push_when (flow.require_mfa && not (has_mfa user.id tables)) configure_mfa profiled in
    push_when
      (has_terms flow
        && not (has_accepted_terms user.id flow.terms.version tables.terms_acceptances))
      accept_terms secured

-- `position(…).unwrap_or(usize::MAX)`: the length of the list stands for the largest key.
unfoldable pub position : List RequiredActionKind → RequiredActionKind → ℕ
position [] action = 0
position (v ∷ vs) action = let rest = position vs action in if v == action then 0 else suc rest

unfoldable pub insert_by :
    (RequiredActionKind → ℕ)
    → RequiredActionKind
    → List RequiredActionKind
    → List RequiredActionKind
insert_by key action [] = action ∷ []
insert_by key action (x ∷ xs) =
    let rest = insert_by key action xs in
    if leb (key action) (key x) then action ∷ x ∷ xs else x ∷ rest

-- `sort_by_key`, which is stable.
unfoldable pub sort_by_key :
    (RequiredActionKind → ℕ) → List RequiredActionKind → List RequiredActionKind
unfolding insert_by
sort_by_key key [] = []
sort_by_key key (x ∷ xs) = insert_by key x (sort_by_key key xs)

unfoldable pub keep_unless_repeated :
    RequiredActionKind → List RequiredActionKind → List RequiredActionKind
keep_unless_repeated x [] = x ∷ []
keep_unless_repeated x (y ∷ ys) = if x == y then y ∷ ys else x ∷ y ∷ ys

-- `Vec::dedup`: of equal neighbours one stays.
unfoldable pub dedup : List RequiredActionKind → List RequiredActionKind
unfolding keep_unless_repeated
dedup [] = []
dedup (x ∷ xs) = keep_unless_repeated x (dedup xs)

unfoldable pub gathered : AuthenticationFlowConfig → User → ActionTables → List RequiredActionKind
unfolding retained with_required
gathered flow user tables =
    let pending = retained flow user tables in
    if flow.enabled then with_required flow user tables pending else pending

unfoldable pub pending_actions :
    AuthenticationFlowConfig → User → ActionTables → List RequiredActionKind
unfolding gathered sort_by_key dedup position
pending_actions flow user tables =
    dedup (sort_by_key (position flow.action_order) (gathered flow user tables))
