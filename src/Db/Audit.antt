-- ===== src/Db/Audit.antt =====
-- crates/oidc-repository/src/repositories/audit_event_repo.rs: the events, the newest at the end. The
-- workflows that `create` starts write tables that are left out.
use open_id_connect_wasi_hub.Prelude.{
  ℕ, String, List, [], ◌∷◌, ◌++◌, ◌+◌, Option, none, some, Bool, false, ◌&&◌, ◌==◌, nat_eq,
  string_eq, option_eq, find, filter, length, ltb,
}
use open_id_connect_wasi_hub.Models.{AuditEvent, User}

unfoldable pub create_event : AuditEvent → List AuditEvent → List AuditEvent
create_event e t = t ++ e ∷ []

-- `(SELECT id FROM users WHERE email = $1 AND realm_id = $2 LIMIT 1)`, deleted users included.
unfoldable pub user_of_email : String → ℕ → List User → Option User
user_of_email email realm_id users = find (λ u. u.email == email && u.realm_id == realm_id) users

-- A comparison with NULL selects no row. `INTERVAL '5 minutes'` is 300 seconds.
abbrev pub is_recent_failure : Option User → ℕ → AuditEvent → Bool
is_recent_failure none now e = false
is_recent_failure (some u) now e =
    e.event_type == "LOGIN_FAILURE" && e.actor_id == some u.id && ltb now (e.created_at + 300)

unfoldable pub count_recent_failures : String → ℕ → ℕ → List User → List AuditEvent → ℕ
unfolding user_of_email
count_recent_failures email realm_id now users t =
    length (filter (is_recent_failure (user_of_email email realm_id users) now) t)
