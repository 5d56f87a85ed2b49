-- ===== src/Flows/Password/Credentials.antt =====
-- Who signs in: the realm, the limit on failures, the user and the check of the password.
use open_id_connect_wasi_hub.Prelude.{
  ℕ, String, [], ◌∷◌, Option, none, some, Bool, true, false, not, ◌&&◌, ◌||◌, nat_eq, string_eq,
  if◌then◌else◌, ltb, leb, length, codes, utf8_bytes, is_blank, is_null, contains,
}
use open_id_connect_wasi_hub.Error.{
  Result, ok, err, guard, OidcError, authentication_failed, authorization_denied, invalid_client,
}
use open_id_connect_wasi_hub.Models.{Client, Realm, User, AuditEvent, ActorType}
use open_id_connect_wasi_hub.Db.Tables.{Db}
use open_id_connect_wasi_hub.Db.Directory.{
  find_realm_by_name, find_user_by_email, find_user_by_username, is_managed_user_blocked,
  find_client_by_client_id_in_realm,
}
use open_id_connect_wasi_hub.Db.Audit.{create_event, count_recent_failures}
use open_id_connect_wasi_hub.Db.Attempt.{Attempt, ◌>>=◌, ◌>>◌, reads, writes}
use open_id_connect_wasi_hub.Flows.State.{text}
use open_id_connect_wasi_hub.Flows.Password.Setting.{SignInRequest, SignInHost, SignInDraw}

abbrev pub invalid_credentials : OidcError
invalid_credentials = authentication_failed "Invalid credentials"

-- `s.len()`, in bytes.
abbrev pub byte_length : String → ℕ
byte_length s = length (utf8_bytes (codes s))

unfoldable pub check_input : SignInRequest → Result (Unit {0})
check_input req =
    guard
      (not (is_null req.kerberos_token)
        || not (is_blank req.email)
          && leb (byte_length req.email) 320
          && leb 8 (byte_length req.password))
      invalid_credentials

-- `unwrap_or` on a text.
abbrev pub text_or : Option String → String → String
text_or none d = d
text_or (some s) d = s

unfoldable pub realm_of : SignInRequest → Db → Result Realm
realm_of req db = elim (find_realm_by_name (text_or req.realm_name "master") db) [
  | none ↦ err invalid_credentials
  | some realm ↦ if realm.enabled then ok realm else err (authorization_denied "Realm disabled")
]

unfoldable pub failure_count : SignInRequest → Realm → ℕ → Db → ℕ
failure_count req realm db_now db =
    if is_null req.kerberos_token
    then count_recent_failures req.email realm.id db_now db.users db.audit_events
    else 0

unfoldable pub check_failures : SignInRequest → Realm → ℕ → Db → Result (Unit {0})
check_failures req realm db_now db =
    guard (ltb (failure_count req realm db_now db) 5)
      (authorization_denied "Too many failed attempts. Please try again later.")

-- By e-mail address if there is an at sign, code point 64, in it.
unfoldable pub local_user : SignInHost → SignInRequest → Realm → Db → Option User
local_user host req realm db =
    if contains (codes req.email) 64
    then find_user_by_email realm.id req.email db
    else find_user_by_username host.lower realm.id req.email db

-- `user.password_hash.is_some()`
abbrev pub has_password : Option User → Bool
has_password none = false
has_password (some u) = not (is_null u.password_hash)

unfoldable pub kerberos_user : Option User → Result (User × Option String)
kerberos_user none = err invalid_credentials
kerberos_user (some u) = ok (u, some "kerberos")

unfoldable pub directory_user : Option (User × String) → Result (User × Option String)
directory_user none = err invalid_credentials
directory_user (some (u, amr)) = ok (u, some amr)

unfoldable pub known_user : Option User → Result (User × Option String)
known_user none = err invalid_credentials
known_user (some u) = ok (u, none)

module _ (host : SignInHost) (req : SignInRequest) where
  unfoldable pub without_ticket : Realm → Attempt Db (User × Option String)
  unfolding directory_user known_user
  without_ticket realm db =
      if has_password (local_user host req realm db)
      then (known_user (local_user host req realm db), db)
      else (host.authenticate_directory realm.id req.email req.password
            >>= (λ found. reads (λ s. directory_user found)))
          db

  unfoldable pub with_ticket : Realm → Option String → Attempt Db (User × Option String)
  unfolding without_ticket kerberos_user
  with_ticket realm none = without_ticket realm
  with_ticket realm (some token) =
      host.authenticate_kerberos_directory realm.id token
      >>= (λ found. reads (λ s. kerberos_user found))

  -- The user, and the method of the directory that vouches for the user.
  unfoldable pub resolve_user : Realm → Attempt Db (User × Option String)
  unfolding with_ticket
  resolve_user realm = with_ticket realm req.kerberos_token

unfoldable pub check_user : User → Db → Result (Unit {0})
check_user user db =
    if user.enabled
    then guard (not (is_managed_user_blocked user.id db))
        (authorization_denied "Account organization is disabled")
    else err (authorization_denied "Account disabled")

-- The password, unless a directory has verified it.
unfoldable pub is_valid : SignInHost → SignInRequest → User → Option String → Result Bool
is_valid host req user (some amr) = ok true
is_valid host req user none = elim user.password_hash [
  | none ↦ err invalid_credentials
  | some hash ↦ host.verify_password req.password hash
]

-- The event of a failed sign-in.
unfoldable pub failure_event : SignInHost → SignInDraw → SignInRequest → Realm → AuditEvent
failure_event host draw req realm = record {
  id = draw.event_id;
  realm_id = some realm.id;
  event_type = "LOGIN_FAILURE";
  actor_id = none;
  actor_type = ActorType.user;
  target_type = none;
  target_id = none;
  details = host.state.json_object (("email", text req.email) ∷ []);
  ip_address = none;
  user_agent = none;
  created_at = draw.logged_at;
}

unfoldable pub log_event : SignInHost → AuditEvent → Db → Db
log_event host event db =
    host.dispatch_event event (record db { audit_events = create_event event db.audit_events })

-- `if !valid { …; return Err(…); }`
unfoldable pub refuse_unless : SignInHost → AuditEvent → Bool → Attempt Db (Unit {0})
refuse_unless host event true = reads (λ s. ok tt)
refuse_unless host event false =
    writes (log_event host event) >> reads (λ s. err invalid_credentials)

-- An enabled client of the realm.
unfoldable pub client_of : SignInRequest → Realm → Db → Result Client
client_of req realm db =
    elim (find_client_by_client_id_in_realm (text_or req.client_id "admin-ui") realm.id db) [
      | none ↦ err invalid_client
      | some c ↦ if c.enabled then ok c else err invalid_client
    ]

pub record Identified : Type 0 where
  pub realm : Realm
  pub user : User
  pub federation_amr : Option String
  pub client : Client

-- The checks of the user that was found, and the client.
unfoldable pub admit :
    SignInHost → SignInRequest → SignInDraw → Realm → User → Option String → Attempt Db Identified
admit host req draw realm user federation_amr = do
  reads (check_user user)
  valid ← reads (λ s. is_valid host req user federation_amr)
  refuse_unless host (failure_event host draw req realm) valid
  client ← reads (client_of req realm)
  reads (λ s.
      ok (record { realm = realm; user = user; federation_amr = federation_amr; client = client }))

-- From the realm to the client, in the order of the source.
unfoldable pub identify : SignInHost → SignInRequest → SignInDraw → ℕ → Attempt Db Identified
unfolding admit
identify host req draw db_now = do
  realm ← reads (realm_of req)
  reads (check_failures req realm db_now)
  found ← resolve_user host req realm
  admit host req draw realm found.0 found.1
