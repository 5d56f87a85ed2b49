-- ===== src/Flows/AuthorizationCode/Success.antt =====
-- What an exchange of a code answers, and how long it lasts.
use open_id_connect_wasi_hub.Prelude.{
  ℤ, ◌+◌, ◌≡◌, Option, none, some, true, false, contains, string_eq, join_spaces, add_seconds,
  sub_ℕ,
}
use open_id_connect_wasi_hub.Token.{sha2_256_hex}
use open_id_connect_wasi_hub.Models.{AuthCode, Session, Realm, OfflineSessionPolicy}
use open_id_connect_wasi_hub.Db.Tables.{Db}
use open_id_connect_wasi_hub.Db.Codes.{mark_code_used}
use open_id_connect_wasi_hub.Db.Sessions.{create}
use open_id_connect_wasi_hub.Db.Directory.{find_realm_by_id}
use open_id_connect_wasi_hub.Flows.State.{OidcState, Draw, TokenResponse}
use open_id_connect_wasi_hub.Flows.AuthorizationCode.{Exchange}

module _ (st : OidcState) (req : Exchange) where
  -- The policy of the realm for sessions with offline access.
  pub record HasPolicy (auth_code : AuthCode) (db : Db) (policy : OfflineSessionPolicy)
      : Type 0 where
    pub realm : Realm
    pub of_realm : find_realm_by_id auth_code.realm_id db ≡ some realm
    pub of_config : policy ≡ st.offline_policy_of_config realm.config

  -- Fifteen minutes for the access token; for the refresh token seven days, or what the policy of the
  -- realm allows where the scopes have `offline_access`.
  pub data IsLasting (draw : Draw) (auth_code : AuthCode) (db : Db) (session : Session)
      : Option ℤ → Type 0 where
    online :
        contains auth_code.scope "offline_access" ≡ false
        → session.refresh_expires_at ≡ some (draw.now + 604800)
        → session.offline_max_expires_at ≡ none
        → IsLasting draw auth_code db session (some (sub_ℕ (draw.now + 604800) draw.now))
    offline :
        (policy : OfflineSessionPolicy)
        → contains auth_code.scope "offline_access" ≡ true
        → HasPolicy auth_code db policy
        → session.refresh_expires_at ≡ some (add_seconds draw.now policy.idle_seconds)
        → session.offline_max_expires_at ≡ some (add_seconds draw.now policy.max_seconds)
        → IsLasting draw auth_code db session
            (some (sub_ℕ (add_seconds draw.now policy.idle_seconds) draw.now))

  -- The answer and the session that is stored for it.
  pub record IsAnswered (draw : Draw) (db db' : Db) (auth_code : AuthCode)
      (answer : TokenResponse × Option ℤ) : Type 0 where
    pub session : Session
    pub stored : db' ≡ record db {
      auth_codes = mark_code_used auth_code.id db.auth_codes;
      sessions = create draw.db_now session db.sessions;
    }
    pub of_access : session.access_token_hash ≡ sha2_256_hex st.external answer.0.access_token
    pub of_refresh :
        session.refresh_token_hash ≡ some (sha2_256_hex st.external answer.0.refresh_token)
    pub of_scope :
        (session.scope ≡ auth_code.scope) × (answer.0.scope ≡ join_spaces auth_code.scope)
    pub access_lasts : (session.expires_at ≡ draw.now + 900) × (answer.0.expires_in ≡ 900)
    pub refresh_lasts : IsLasting draw auth_code db session answer.1
