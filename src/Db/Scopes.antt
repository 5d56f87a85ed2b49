-- ===== src/Db/Scopes.antt =====
-- crates/oidc-repository/src/repositories/scope_repo.rs: the scopes that a client may ask for, and those
-- that it always gets.
pub mod Resolution
use text.Mathlib.Text.{starts_with}
use open_id_connect_wasi_hub.Prelude.{
  ℕ, String, List, [], ◌∷◌, ◌++◌, map, Bool, ◌&&◌, ◌||◌, ◌==◌, nat_eq, string_eq, filter, any,
  contains, if◌then◌else◌, concat,
}
use open_id_connect_wasi_hub.Error.{Result, ok, err, ◌>>=◌, invalid_scope}
use open_id_connect_wasi_hub.Models.{ScopeAssignment}

-- The rows of `scopes` joined with `client_scopes`, in the order that the query asks for.
unfoldable pub list_by_client : ℕ → List ScopeAssignment → List ScopeAssignment
list_by_client client_id t = filter (λ a. a.client_id == client_id) t

-- An allowed scope, or one that extends an allowed scope after a colon.
unfoldable pub crate_scope_allowed : String → List String → Bool
crate_scope_allowed requested allowed =
    any (λ scope. scope == requested || starts_with requested (concat (scope ∷ ":" ∷ []))) allowed

-- The loop that refuses a name that is not allowed.
unfoldable pub check_names : List String → List String → Result (Unit {0})
check_names allowed [] = ok tt
check_names allowed (name ∷ names) =
    let rest = check_names allowed names in
    if crate_scope_allowed name allowed then rest else err (invalid_scope name)

-- The loop that adds each default that is not there yet.
unfoldable pub add_defaults : List String → List ScopeAssignment → List String
add_defaults resolved [] = resolved
add_defaults resolved (item ∷ items) =
    add_defaults (if contains resolved item.name then resolved else resolved ++ item.name ∷ [])
      items

abbrev pub enabled_names : List ScopeAssignment → List String
enabled_names assignments = map (λ a. a.name) (filter (λ a. a.enabled) assignments)

abbrev pub enabled_defaults : List ScopeAssignment → List ScopeAssignment
enabled_defaults assignments = filter (λ a. a.enabled && a.assignment_type == "default") assignments

unfoldable pub resolve_names_for_client :
    ℕ → List String → List String → List ScopeAssignment → Result (List String)
unfolding check_names add_defaults
resolve_names_for_client client_id requested legacy_allowed t =
    let assignments = list_by_client client_id t in
    check_names (legacy_allowed ++ enabled_names assignments) requested
    >>= (λ _. ok (add_defaults requested (enabled_defaults assignments)))
