-- ===== src/Db/Directory.antt =====
-- Look-ups of crates/oidc-repository/src/repositories: user_repo.rs, client_repo.rs, realm_repo.rs,
-- group_repo.rs, user_group_repo.rs and `is_managed_user_blocked` of organization_repo.rs. A row with `deleted_at` set is
-- invisible.
use open_id_connect_wasi_hub.Prelude.{
  ℕ, String, List, map, Option, none, some, Bool, false, not, ◌&&◌, ◌||◌, ◌==◌, nat_eq, string_eq,
  find, filter, any, is_null,
}
use open_id_connect_wasi_hub.Models.{Client, Realm, User}
use open_id_connect_wasi_hub.Db.Tables.{Db, UserGroup}

unfoldable pub find_user_by_id : ℕ → Db → Option User
find_user_by_id id db = find (λ u. u.id == id && is_null u.deleted_at) db.users

unfoldable pub find_client_by_id : ℕ → Db → Option Client
find_client_by_id id db = find (λ c. c.id == id && is_null c.deleted_at) db.clients

unfoldable pub find_client_by_client_id : String → Db → Option Client
find_client_by_client_id client_id db =
    find (λ c. c.client_id == client_id && is_null c.deleted_at) db.clients

unfoldable pub find_realm_by_id : ℕ → Db → Option Realm
find_realm_by_id id db = find (λ r. r.id == id && is_null r.deleted_at) db.realms

unfoldable pub find_group_names_by_user_id : ℕ → Db → List String
find_group_names_by_user_id user_id db =
    map (λ g. g.name) (filter (λ g. g.user_id == user_id && is_null g.deleted_at) db.user_groups)

-- `UserGroupRepo::find_groups_by_user`
unfoldable pub find_groups_by_user : ℕ → Db → List UserGroup
find_groups_by_user user_id db =
    filter (λ g. g.user_id == user_id && is_null g.deleted_at) db.user_groups

-- The `EXISTS (… JOIN …)` of `is_managed_user_blocked`.
unfoldable pub is_managed_user_blocked : ℕ → Db → Bool
is_managed_user_blocked user_id db =
    any
      (λ om.
        any
          (λ o.
            o.id == om.organization_id
            && om.user_id == user_id
            && om.membership_kind == "managed"
            && (not o.enabled || not (is_null o.deleted_at)))
          db.organizations)
      db.memberships

unfoldable pub find_user_by_email : ℕ → String → Db → Option User
find_user_by_email realm_id email db =
    find (λ u. u.realm_id == realm_id && u.email == email && is_null u.deleted_at) db.users

-- A comparison with NULL selects no row. `lower` is `LOWER` of the database.
is_named : (String → String) → String → Option String → Bool
is_named lower username none = false
is_named lower username (some name) = lower name == lower username

unfoldable pub find_user_by_username : (String → String) → ℕ → String → Db → Option User
unfolding is_named
find_user_by_username lower realm_id username db =
    find (λ u. u.realm_id == realm_id && is_named lower username u.username && is_null u.deleted_at)
      db.users

unfoldable pub find_realm_by_name : String → Db → Option Realm
find_realm_by_name name db = find (λ r. r.name == name && is_null r.deleted_at) db.realms

unfoldable pub find_client_by_client_id_in_realm : String → ℕ → Db → Option Client
find_client_by_client_id_in_realm client_id realm_id db =
    find (λ c. c.client_id == client_id && c.realm_id == realm_id && is_null c.deleted_at)
      db.clients
