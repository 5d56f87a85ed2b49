-- ===== src/Db/Ciba.antt =====
-- crates/oidc-repository/src/repositories/ciba_repo.rs, each query as a function on its table. `now` is
-- `NOW()` of the transaction.
pub mod Laws
use open_id_connect_wasi_hub.Prelude.{
  ℕ, String, List, [], ◌∷◌, ◌++◌, ◌+◌, Option, none, some, Bool, not, ◌&&◌, ◌||◌, ◌==◌, nat_eq,
  string_eq, find, filter, update_where, length, ltb, if◌then◌else◌, any,
}
use open_id_connect_wasi_hub.Models.{CibaClientConfig, CibaAuthenticationRequest}

unfoldable pub config : ℕ → List CibaClientConfig → Option CibaClientConfig
config client_id t = find (λ c. c.client_id == client_id) t

-- `INSERT … ON CONFLICT (client_id) DO UPDATE`
unfoldable pub save_config : CibaClientConfig → List CibaClientConfig → List CibaClientConfig
save_config c t =
    if any (λ d. d.client_id == c.client_id) t
    then update_where (λ d. d.client_id == c.client_id) (λ d. c) t
    else t ++ c ∷ []

unfoldable pub create_request :
    CibaAuthenticationRequest → List CibaAuthenticationRequest → List CibaAuthenticationRequest
create_request r t = t ++ r ∷ []

unfoldable pub find_for_update :
    String → List CibaAuthenticationRequest → Option CibaAuthenticationRequest
find_for_update hash t = find (λ r. r.auth_req_id_hash == hash) t

unfoldable pub find_user_request :
    ℕ → ℕ → List CibaAuthenticationRequest → Option CibaAuthenticationRequest
find_user_request id user_id t = find (λ r. r.id == id && r.user_id == user_id) t

abbrev pub awaits_decision : ℕ → ℕ → ℕ → CibaAuthenticationRequest → Bool
awaits_decision id user_id now r =
    r.id == id && r.user_id == user_id && r.status == "pending" && ltb now r.expires_at

-- The rows after the `UPDATE`, and the number of rows changed.
unfoldable pub decide :
    ℕ
    → ℕ
    → String
    → ℕ
    → String
    → List String
    → ℕ
    → List CibaAuthenticationRequest
    → List CibaAuthenticationRequest × ℕ
decide id user_id status auth_time acr amr now t = (
  update_where (awaits_decision id user_id now)
      (λ r. record r {
        status = status;
        auth_time = some auth_time;
        acr = some acr;
        amr = amr;
        updated_at = now;
      })
      t,
  length (filter (awaits_decision id user_id now) t),
)

unfoldable pub record_poll :
    ℕ → ℕ → ℕ → List CibaAuthenticationRequest → List CibaAuthenticationRequest
record_poll id interval now t =
    update_where (λ r. r.id == id)
      (λ r. record r { last_polled_at = some now; interval_seconds = interval; updated_at = now }) t

-- `SET status='consumed'` and `SET status='expired'`.
abbrev pub set_status :
    String → ℕ → ℕ → List CibaAuthenticationRequest → List CibaAuthenticationRequest
set_status status id now t =
    update_where (λ r. r.id == id) (λ r. record r { status = status; updated_at = now }) t

unfoldable pub consume : ℕ → ℕ → List CibaAuthenticationRequest → List CibaAuthenticationRequest
consume id now t = set_status "consumed" id now t

unfoldable pub expire : ℕ → ℕ → List CibaAuthenticationRequest → List CibaAuthenticationRequest
expire id now t = set_status "expired" id now t

-- `INTERVAL '1 day'` is 86400 seconds.
abbrev pub is_stale : ℕ → CibaAuthenticationRequest → Bool
is_stale now r =
    ltb r.expires_at now
    || (r.status == "consumed" || r.status == "denied" || r.status == "expired")
      && ltb (r.updated_at + 86400) now

unfoldable pub cleanup_expired_requests :
    ℕ → List CibaAuthenticationRequest → List CibaAuthenticationRequest × ℕ
cleanup_expired_requests now t =
    (filter (λ r. not (is_stale now r)) t, length (filter (λ r. is_stale now r) t))
