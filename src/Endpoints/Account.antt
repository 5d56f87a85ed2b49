-- ===== src/Endpoints/Account.antt =====
-- `current_account` of crates/oidc-oidc/src/endpoints/account.rs: the session and the user of a bearer
-- token.
use open_id_connect_wasi_hub.Prelude.{ℕ, String, Option}
use open_id_connect_wasi_hub.Error.{Result, ok, ok_or, ◌>>=◌, ◌>>◌, authentication_failed}
use open_id_connect_wasi_hub.Token.{sha2_256_hex}
use open_id_connect_wasi_hub.Models.{User, Session}
use open_id_connect_wasi_hub.Db.Tables.{Db}
use open_id_connect_wasi_hub.Db.Directory.{find_user_by_id}
use open_id_connect_wasi_hub.Db.Sessions.{find_by_access_token_hash}
use open_id_connect_wasi_hub.Flows.State.{OidcState}
use open_id_connect_wasi_hub.Flows.Ciba.{enabled_user_only}

pub record AccountContext : Type 0 where
  pub user : User
  pub session : Session

-- `token` is what follows `Bearer ` in the header, and `now` is `NOW()`.
unfoldable pub current_account : OidcState → Option String → ℕ → Db → Result AccountContext
unfolding enabled_user_only
current_account st token now db = do
  presented ← ok_or token (authentication_failed "Bearer token required")
  st.verify_access_token presented
  session ←
      ok_or (find_by_access_token_hash (sha2_256_hex st.external presented) now db.sessions)
        (authentication_failed "Active session required")
  user_id ← ok_or session.user_id (authentication_failed "User session required")
  user ←
      ok_or (enabled_user_only (find_user_by_id user_id db))
        (authentication_failed "Active user required")
  ok (record { user = user; session = session })
