-- ===== src/Db/Sessions.antt =====
-- crates/oidc-repository/src/repositories/session_repo.rs: the table `sessions` as a list of rows.
-- `now` is `NOW()` of the transaction. A comparison with NULL selects no row.
pub mod Laws
pub mod Families
pub mod Effects
pub mod Revocation
use open_id_connect_wasi_hub.Prelude.{
  is_null, ℕ, String, List, [], ◌∷◌, ◌++◌, Option, none, some, Bool, true, false, not, ◌&&◌, ◌||◌,
  ◌==◌, nat_eq, string_eq, option_eq, bool_eq, find, filter, update_where, length, ltb,
}
use open_id_connect_wasi_hub.Models.{Session}

-- `column > NOW()` and `column < NOW()` where the column may be NULL.
abbrev pub after : Option ℕ → ℕ → Bool
after none now = false
after (some t) now = ltb now t

abbrev pub before : Option ℕ → ℕ → Bool
before none now = false
before (some t) now = ltb t now

-- `COALESCE(a, b)`
abbrev pub coalesce : Option ℕ → ℕ → ℕ
coalesce none b = b
coalesce (some a) b = a

unfoldable pub find_by_id : ℕ → List Session → Option Session
find_by_id id t = find (λ s. s.id == id) t

unfoldable pub find_by_access_token_hash : String → ℕ → List Session → Option Session
find_by_access_token_hash hash now t =
    find (λ s. s.access_token_hash == hash && not s.revoked && ltb now s.expires_at) t

-- The `INSERT` leaves out `created_at` and `last_used_at`, which take the column's default.
abbrev pub inserted : ℕ → Session → Session
inserted now entity = record entity { created_at = now; last_used_at = none }

unfoldable pub create : ℕ → Session → List Session → List Session
create now entity t = t ++ inserted now entity ∷ []

unfoldable pub find_by_refresh_token_hash : String → List Session → Option Session
find_by_refresh_token_hash hash t = find (λ s. s.refresh_token_hash == some hash && not s.revoked) t

unfoldable pub find_active_by_refresh_token_hash : String → ℕ → List Session → Option Session
find_active_by_refresh_token_hash hash now t =
    find
      (λ s.
        s.refresh_token_hash == some hash
        && not s.revoked
        && after s.refresh_expires_at now
        && (not s.offline_session || after s.offline_max_expires_at now))
      t

abbrev pub set_revoked : Session → Session
set_revoked s = record s { revoked = true }

unfoldable pub revoke : ℕ → List Session → List Session
revoke id t = update_where (λ s. s.id == id) set_revoked t

unfoldable pub mark_reused : ℕ → ℕ → List Session → List Session
mark_reused id now t = update_where (λ s. s.id == id) (λ s. record s { reused_at = some now }) t

unfoldable pub revoke_by_user_id : ℕ → List Session → List Session
revoke_by_user_id user_id t =
    update_where (λ s. s.user_id == some user_id && not s.revoked) set_revoked t

unfoldable pub revoke_online_by_user_id : ℕ → List Session → List Session
revoke_online_by_user_id user_id t =
    update_where (λ s. s.user_id == some user_id && not s.offline_session && not s.revoked)
      set_revoked t

unfoldable pub revoke_by_user_and_client : ℕ → ℕ → List Session → List Session
revoke_by_user_and_client user_id client_id t =
    update_where (λ s. s.user_id == some user_id && s.client_id == client_id && not s.revoked)
      set_revoked t

unfoldable pub revoke_other_user_sessions : ℕ → ℕ → List Session → List Session
revoke_other_user_sessions user_id current_session_id t =
    update_where
      (λ s.
        s.user_id == some user_id
        && not (s.id == current_session_id)
        && not s.offline_session
        && not s.revoked)
      set_revoked t

unfoldable pub find_active_by_user_id : ℕ → ℕ → List Session → List Session
find_active_by_user_id user_id now t =
    filter
      (λ s.
        s.user_id == some user_id && not s.offline_session && not s.revoked && ltb now s.expires_at)
      t

-- The rows of `find_active_grants_by_user_id`, before `ORDER BY created_at DESC` sorts them.
unfoldable pub find_active_grants_by_user_id : ℕ → ℕ → List Session → List Session
find_active_grants_by_user_id user_id now t =
    filter
      (λ s.
        s.user_id == some user_id
        && not s.revoked
        && is_null s.rotated_at
        && (s.offline_session
              && after s.refresh_expires_at now
              && after s.offline_max_expires_at now
            || not s.offline_session && (ltb now s.expires_at || after s.refresh_expires_at now)))
      t

unfoldable pub find_by_sid : String → List Session → Option Session
find_by_sid sid t = find (λ s. s.sid == sid) t

unfoldable pub mark_rotated : ℕ → ℕ → List Session → List Session
mark_rotated id now t =
    update_where (λ s. s.id == id)
      (λ s. record s { rotated_at = some now; last_used_at = some now }) t

unfoldable pub revoke_family : ℕ → List Session → List Session
revoke_family family_id t =
    update_where (λ s. s.token_family_id == some family_id)
      (λ s. record s { revoked = true; family_revoked = true }) t

-- A filter of `list` and `count`: no clause where the parameter is absent.
abbrev pub clause {ℓ} : {A : Type ℓ} → Option A → (A → Bool) → Bool
clause none p = true
clause (some a) p = p a

unfoldable pub count : Option ℕ → Option ℕ → Option Bool → List Session → ℕ
count user_id realm_id revoked t = length (
    filter
      (λ s.
        clause user_id (λ u. s.user_id == some u)
        && clause realm_id (λ r. s.realm_id == r)
        && clause revoked (λ b. s.revoked == b))
      t)

abbrev pub is_expired : ℕ → Session → Bool
is_expired now s =
    s.offline_session && before s.offline_max_expires_at now
    || not s.offline_session && ltb (coalesce s.refresh_expires_at s.expires_at) now

-- The rows that stay, and the number deleted.
unfoldable pub cleanup_expired : ℕ → List Session → List Session × ℕ
cleanup_expired now t =
    (filter (λ s. not (is_expired now s)) t, length (filter (λ s. is_expired now s) t))
