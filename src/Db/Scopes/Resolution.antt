-- ===== src/Db/Scopes/Resolution.antt =====
-- Which scopes a request gets.
use open_id_connect_wasi_hub.Prelude.{
  ℕ, ◌≡◌, refl, ap, sym, ◌∙◌, String, List, [], ◌∷◌, ◌++◌, map, true, ◌||◌, string_eq, contains,
  all, arith, eq_iff, if◌then◌else◌,
}
use open_id_connect_wasi_hub.Error.{ok, >>=-eq-ok}
use open_id_connect_wasi_hub.Models.{ScopeAssignment}
use open_id_connect_wasi_hub.Db.Scopes.{
  list_by_client, crate_scope_allowed, check_names, add_defaults, enabled_names, enabled_defaults,
  resolve_names_for_client,
}
use open_id_connect_wasi_hub.Db.Consents.Laws.{contains-append}

check_names_sound :
    (allowed requested : List String)
    → check_names allowed requested ≡ ok tt
    → all (λ name. crate_scope_allowed name allowed) requested ≡ true
unfolding check_names
check_names_sound allowed [] h = refl
check_names_sound allowed (name ∷ names) h = ground (arith, check_names_sound allowed names)

module _ (v : String) where
  contains-add_defaults :
      (resolved : List String) (items : List ScopeAssignment)
      → contains (add_defaults resolved items) v
        ≡ (contains resolved v || contains (map (λ a. a.name) items) v)
  unfolding add_defaults
  contains-add_defaults resolved [] = ground arith
  contains-add_defaults resolved (item ∷ items) = ground (
    arith,
    contains-append v resolved (item.name ∷ []),
    contains-add_defaults
        (if contains resolved item.name then resolved else resolved ++ item.name ∷ []) items,
    eq_iff item.name v,
  )

-- Where the names that a client asks for are resolved, each of them is allowed: it is a scope of the
-- client or an enabled one assigned to it, or extends such a scope after a colon. The client gets
-- exactly the names it asked for and its enabled default scopes.
pub resolve_names_for_client_sound :
    (client_id : ℕ) (requested legacy_allowed resolved : List String) (t : List ScopeAssignment)
    (v : String)
    → resolve_names_for_client client_id requested legacy_allowed t ≡ ok resolved
    → (all
          (λ name.
            crate_scope_allowed name (legacy_allowed ++ enabled_names (list_by_client client_id t)))
          requested
        ≡ true)
      × (contains resolved v ≡ (
          contains requested v
          || contains (map (λ a. a.name) (enabled_defaults (list_by_client client_id t))) v))
unfolding resolve_names_for_client
resolve_names_for_client_sound client_id requested legacy_allowed resolved t v h =
    let assignments = list_by_client client_id t in
    let (_, checked, h) =
      >>=-eq-ok (check_names (legacy_allowed ++ enabled_names assignments) requested) _ h in
    let same : add_defaults requested (enabled_defaults assignments) ≡ resolved = ground arith in
    (
      check_names_sound (legacy_allowed ++ enabled_names assignments) requested checked,
      ap (λ r. contains r v) (sym same)
          ∙ contains-add_defaults v requested (enabled_defaults assignments),
    )
