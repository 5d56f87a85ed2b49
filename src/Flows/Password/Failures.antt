-- ===== src/Flows/Password/Failures.antt =====
-- What a failed sign-in leaves behind, and the limit on failures.
use open_id_connect_wasi_hub.Prelude.{
  ℕ, ◌≡◌, refl, ap, sym, ◌∙◌, String, List, [], ◌∷◌, ◌++◌, Option, none, some, false, arith, Bool,
  option_beq_iff, nat_eq, filter, length, Bool-cases, inl, inr,
}
use open_id_connect_wasi_hub.Error.{err, OidcError, Result-cases}
use open_id_connect_wasi_hub.Models.{AuditEvent, User, Realm}
use open_id_connect_wasi_hub.Db.Tables.{Db}
use open_id_connect_wasi_hub.Db.Audit.{
  create_event, user_of_email, is_recent_failure, count_recent_failures,
}
use open_id_connect_wasi_hub.Db.Attempt.{settled}
use open_id_connect_wasi_hub.Db.Transaction.{connected-err}
use open_id_connect_wasi_hub.Flows.State.{Draw}
use open_id_connect_wasi_hub.Flows.Password.Setting.{SignInRequest, SignInHost, SignInDraw}
use open_id_connect_wasi_hub.Flows.Password.Credentials.{check_input, failure_event, failure_count}
use open_id_connect_wasi_hub.Flows.Password.SignIn.{sign_in_body, execute}

length-filter_append :
    (p : AuditEvent → Bool) (e : AuditEvent) (t : List AuditEvent)
    → p e ≡ false
    → length (filter p (t ++ e ∷ [])) ≡ length (filter p t)
length-filter_append p e [] h = ground (arith, h)
length-filter_append p e (x ∷ t) h = elim (Bool-cases (p x)) [
  | inl kept ↦ ground (arith, kept, length-filter_append p e t h)
  | inr dropped ↦ ground (arith, dropped, length-filter_append p e t h)
]

-- An event without an actor is never counted.
unnamed_uncounted :
    (o : Option User) (now : ℕ) (e : AuditEvent)
    → e.actor_id ≡ none
    → is_recent_failure o now e ≡ false
unnamed_uncounted none now e h = refl
unnamed_uncounted (some u) now e h = ground (arith, option_beq_iff nat_eq e.actor_id (some u.id))

module _ (host : SignInHost) where
  -- A sign-in that fails leaves the tables as they were.
  execute_rolled_back :
      (req : SignInRequest) (draw : Draw) (sign_in : SignInDraw) (db db' : Db) (e : OidcError)
      → execute host req draw sign_in db ≡ (err e, db')
      → db' ≡ db
  unfolding execute
  execute_rolled_back req draw sign_in db db' e h = elim (Result-cases (check_input req)) [
    | inl (u, checked) ↦
        connected-err draw.link (λ before. settled (sign_in_body host req draw sign_in before)) db
          db' e (rw (execute, checked) at h)
    | inr (refusal, refused) ↦ sym (ap (λ p. p.1) (rw (execute, refused) at h))
  ]

  -- Any number of failed sign-ins, one after the other.
  pub data Failing : Db → Db → Type 0 where
    unattempted : (db : Db) → Failing db db
    failed :
        (db mid db' : Db) (req : SignInRequest) (draw : Draw) (sign_in : SignInDraw) (e : OidcError)
        → Failing db mid
        → execute host req draw sign_in mid ≡ (err e, db')
        → Failing db db'

  Failing-unchanged : (db db' : Db) → Failing db db' → db' ≡ db
  Failing-unchanged db _ (unattempted _) = refl
  Failing-unchanged db db' (failed _ mid _ req draw sign_in e before h) =
      execute_rolled_back req draw sign_in mid db' e h ∙ Failing-unchanged db mid before

  -- The number of recent failures that a sign-in compares with its limit does not grow with failed
  -- sign-ins: after any number of them, of whatever users, it is what it was before. Each event of a
  -- failure is rolled back with the transaction that wrote it.
  pub failure_count-Failing :
      (db db' : Db) (req : SignInRequest) (realm : Realm) (now : ℕ)
      → Failing db db'
      → failure_count req realm now db' ≡ failure_count req realm now db
  failure_count-Failing db db' req realm now failing =
      ap (failure_count req realm now) (Failing-unchanged db db' failing)

  actor_of_failure :
      (sign_in : SignInDraw) (req : SignInRequest) (realm : Realm)
      → (failure_event host sign_in req realm).actor_id ≡ none
  unfolding failure_event
  actor_of_failure sign_in req realm = refl

  -- Stored events of failed sign-ins would not count either: the event names no actor, and the count
  -- compares the actor with the user.
  pub count_recent_failures-failure_event :
      (sign_in : SignInDraw) (req : SignInRequest) (realm : Realm) (email : String)
      (realm_id now : ℕ) (users : List User) (events : List AuditEvent)
      → count_recent_failures email realm_id now users
          (create_event (failure_event host sign_in req realm) events)
        ≡ count_recent_failures email realm_id now users events
  unfolding count_recent_failures create_event
  count_recent_failures-failure_event sign_in req realm email realm_id now users events =
      length-filter_append (is_recent_failure (user_of_email email realm_id users) now)
        (failure_event host sign_in req realm) events
        (unnamed_uncounted (user_of_email email realm_id users) now
          (failure_event host sign_in req realm) (actor_of_failure sign_in req realm))
