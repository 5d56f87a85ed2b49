-- ===== src/Flows/Lifecycle.antt =====
-- The sessions under interleaved requests, each step one transaction: the grants for codes, devices,
-- backchannel requests, passwords and clients, the two phases of refreshes, every revocation, the
-- workflows of an audit event, and a session that another flow stores. What removes rows is left out, since
-- it removes families: the clean-up of expired rows and the import of a realm.
use open_id_connect_wasi_hub.Prelude.{
  ℕ, ◌≤◌, ◌≡◌, ◌≢◌, ◌⊎◌, sym, subst, String, List, Option, none, some, true, false, nat_eq,
  option_eq, inl, inr,
}
use open_id_connect_wasi_hub.Error.{Result-cases}
use open_id_connect_wasi_hub.Models.{Session, Client, AuditEvent}
use open_id_connect_wasi_hub.Token.{sha2_256_hex}
use open_id_connect_wasi_hub.Db.Tables.{Db}
use open_id_connect_wasi_hub.Db.Sessions.{
  create, find_by_refresh_token_hash, revoke, revoke_by_user_id, revoke_family,
  revoke_online_by_user_id, revoke_by_user_and_client, revoke_other_user_sessions,
}
use open_id_connect_wasi_hub.Db.Sessions.Laws.{IsDead, find-IsDead}
use open_id_connect_wasi_hub.Db.Sessions.Families.{
  unchanged, Revision-revoke, Revision-revoke_by_user_id, Revision-revoke_family,
  Revision-revoke_online_by_user_id, Revision-revoke_by_user_and_client,
  Revision-revoke_other_user_sessions, has_family, live_count,
}
use open_id_connect_wasi_hub.Flows.State.{OidcState, Draw}
use open_id_connect_wasi_hub.Flows.AuthorizationCode
use open_id_connect_wasi_hub.Flows.AuthorizationCode.{Exchange}
use open_id_connect_wasi_hub.Flows.AuthorizationCode.SingleUse
use open_id_connect_wasi_hub.Flows.DeviceCode
use open_id_connect_wasi_hub.Flows.DeviceCode.{Poll}
use open_id_connect_wasi_hub.Flows.DeviceCode.Polling.{poll_sound, poll-err}
use open_id_connect_wasi_hub.Flows.Ciba
use open_id_connect_wasi_hub.Flows.Ciba.{CibaPoll, Clocks}
use open_id_connect_wasi_hub.Flows.Ciba.Sessions
use open_id_connect_wasi_hub.Flows.Password.Setting.{SignInRequest, SignInHost, SignInDraw}
use open_id_connect_wasi_hub.Flows.Password.SignIn
use open_id_connect_wasi_hub.Flows.Password.Sessions as SignInSessions
use open_id_connect_wasi_hub.Flows.Password.Sessions.{KeepsSessions}
use open_id_connect_wasi_hub.Flows.ClientCredentials
use open_id_connect_wasi_hub.Flows.ClientCredentials.Issuance.{credentials_sound, credentials-err}
use open_id_connect_wasi_hub.Flows.RefreshToken.{Refresh, CheckDraw, check_replay, rotate}
use open_id_connect_wasi_hub.Flows.RefreshToken.Rotation.{rotate_sound, rotate-err}
use open_id_connect_wasi_hub.Db.Sessions.Effects.{
  Effect, revised, added, added_alone, replaced, Effect-IsDead, Effect-live_count,
}
use open_id_connect_wasi_hub.Flows.RefreshToken.Replay.{check_replay-Revision}

-- The session of a request, of a new family or of none, is added by one of the flows outside the model:
-- token exchange, JWT bearer, social login, SAML, and the browser's session.
abbrev IsNewcomer : Session → List Session → Type 0
IsNewcomer s t =
    (s.token_family_id ≡ none) ⊎ ((g : ℕ) × (s.token_family_id ≡ some g) × (has_family g t ≡ false))

module _ (st : OidcState) (host : SignInHost) (keeps : KeepsSessions host) where
  -- One transaction. A new family has an identifier that no session has (a UUID of version 7).
  pub data Step : Db → Db → Type 0 where
    exchanges :
        {db db' : Db} (req : Exchange) (draw : Draw)
        → has_family draw.token_family_id db.sessions ≡ false
        → (AuthorizationCode.execute st req draw db).1 ≡ db'
        → Step db db'
    polls_device :
        {db db' : Db} (req : Poll) (now : ℕ) (draw : Draw)
        → has_family draw.token_family_id db.sessions ≡ false
        → (DeviceCode.execute st req now draw db).1 ≡ db'
        → Step db db'
    polls_backchannel :
        {db db' : Db} (req : CibaPoll) (clocks : Clocks) (draw : Draw)
        → has_family draw.token_family_id db.sessions ≡ false
        → (Ciba.execute st req clocks draw db).1 ≡ db'
        → Step db db'
    signs_in :
        {db db' : Db} (req : SignInRequest) (draw : Draw) (sign_in : SignInDraw)
        → has_family draw.token_family_id db.sessions ≡ false
        → (SignIn.execute host req draw sign_in db).1 ≡ db'
        → Step db db'
    grants_client :
        {db db' : Db} (client : Client) (requested : List String) (dpop_jkt : Option String)
        (draw : Draw)
        → (ClientCredentials.execute st client requested dpop_jkt draw db).1 ≡ db'
        → Step db db'
    checks :
        {db db' : Db} (req : Refresh) (draw : CheckDraw)
        → (check_replay st draw req db).1 ≡ db'
        → Step db db'
    rotates :
        {db db' : Db} (req : Refresh) (now : ℕ) (draw : Draw)
        → (rotate st req now draw db).1 ≡ db'
        → Step db db'
    revokes : {db : Db} (id : ℕ) → Step db (record db { sessions = revoke id db.sessions })
    revokes_family :
        {db : Db} (family_id : ℕ)
        → Step db (record db { sessions = revoke_family family_id db.sessions })
    revokes_user :
        {db : Db} (user_id : ℕ)
        → Step db (record db { sessions = revoke_by_user_id user_id db.sessions })
    revokes_online :
        {db : Db} (user_id : ℕ)
        → Step db (record db { sessions = revoke_online_by_user_id user_id db.sessions })
    revokes_client :
        {db : Db} (user_id client_id : ℕ)
        → Step db (record db { sessions = revoke_by_user_and_client user_id client_id db.sessions })
    revokes_others :
        {db : Db} (user_id kept : ℕ)
        → Step db (record db { sessions = revoke_other_user_sessions user_id kept db.sessions })
    dispatches : {db : Db} (event : AuditEvent) → Step db (host.dispatch_event event db)
    stores :
        {db : Db} (now : ℕ) (s : Session)
        → IsNewcomer s db.sessions
        → Step db (record db { sessions = create now s db.sessions })
    elsewhere : {db db' : Db} → db'.sessions ≡ db.sessions → Step db db'

  pub data Reach (db : Db) : Db → Type 0 where
    here : Reach db db
    next : {db' db'' : Db} → Reach db db' → Step db' db'' → Reach db db''

  Step-Effect : {db db' : Db} → Step db db' → Effect db.sessions db'.sessions
  Step-Effect {db' = after} (exchanges {db} req draw new e) =
      elim (Result-cases (AuthorizationCode.execute st req draw db).0) [
        | inl (r, success) ↦
            let (auth_code, client, checked, redeemed) =
              SingleUse.execute_sound st req draw db after r (λ i. (success i, e i)) in
            rw redeemed.consumed
              (added draw.db_now redeemed.session draw.token_family_id redeemed.in_family new)
        | inr (x, failure) ↦
            rw (SingleUse.execute-err st req draw db after x (λ i. (failure i, e i)))
              (revised unchanged)
      ]
  Step-Effect (checks {db} req draw e) =
      subst (λ z. Effect db.sessions z.sessions) e (revised (check_replay-Revision st req draw db))
  Step-Effect {db' = after} (rotates {db} req now draw e) =
      elim (Result-cases (rotate st req now draw db).0) [
        | inl (r, success) ↦
            let (s, user_id, user, client, checked, rotated) =
              rotate_sound st req now draw db after r (λ i. (success i, e i)) in
            rw rotated.stored (
              replaced draw.db_now (sha2_256_hex st.external req.refresh_token) s rotated.next
                checked.found checked.alive.2 rotated.same_family)
        | inr (x, failure) ↦
            rw (rotate-err st req now draw db after x (λ i. (failure i, e i))) (revised unchanged)
      ]
  Step-Effect {db' = after} (polls_device {db} req now draw new e) =
      elim (Result-cases (DeviceCode.execute st req now draw db).0) [
        | inl (r, success) ↦
            let (dc, user_id, client, approved, exchanged) =
              poll_sound st req now draw db after r (λ i. (success i, e i)) in
            rw exchanged.consumed
              (added draw.db_now exchanged.session draw.token_family_id exchanged.in_family new)
        | inr (x, failure) ↦
            rw (poll-err st req now draw db after x (λ i. (failure i, e i))) (revised unchanged)
      ]
  Step-Effect (polls_backchannel {db} req clocks draw new e) =
      subst (λ z. Effect db.sessions z.sessions) e
        (Ciba.Sessions.execute-Effect st req clocks draw db new)
  Step-Effect (signs_in {db} req draw sign_in new e) =
      subst (λ z. Effect db.sessions z.sessions) e
        (SignInSessions.execute-Effect host req draw sign_in keeps db new)
  Step-Effect {db' = after} (grants_client {db} client requested dpop_jkt draw e) =
      elim (Result-cases (ClientCredentials.execute st client requested dpop_jkt draw db).0) [
        | inl (r, success) ↦
            let own =
              credentials_sound st client requested dpop_jkt draw db after r
                (λ i. (success i, e i)) in
            rw own.added (added_alone draw.db_now own.session own.of_no_family)
        | inr (x, failure) ↦
            rw
              (credentials-err st client requested dpop_jkt draw db after x (λ i. (failure i, e i)))
              (revised unchanged)
      ]
  Step-Effect (revokes id) = revised (Revision-revoke id unchanged)
  Step-Effect (revokes_user user_id) = revised (Revision-revoke_by_user_id user_id unchanged)
  Step-Effect (revokes_family family_id) = revised (Revision-revoke_family family_id unchanged)
  Step-Effect (revokes_online user_id) =
      revised (Revision-revoke_online_by_user_id user_id unchanged)
  Step-Effect (revokes_client user_id client_id) =
      revised (Revision-revoke_by_user_and_client user_id client_id unchanged)
  Step-Effect (revokes_others user_id kept) =
      revised (Revision-revoke_other_user_sessions user_id kept unchanged)
  Step-Effect (dispatches {db} event) = revised (keeps.dispatch event db)
  Step-Effect (stores now s newcomer) = elim newcomer [
    | inl alone ↦ added_alone now s alone
    | inr (g, in_family, new) ↦ added now s g in_family new
  ]
  Step-Effect (elsewhere {db} same) = subst (Effect db.sessions) (sym same) (revised unchanged)

  -- Once every session of a family is revoked, this stays so under any sequence of the steps above: no
  -- refresh token of the family ever names a session again. The steps are those of all modelled grants
  -- and of all revocations, the storing of a session of no family or of a new one, and whatever leaves
  -- the sessions alone; the removal of rows (clean-up, import of a realm) is not among them.
  pub Reach-IsDead :
      (f : ℕ) {db db' : Db}
      → Reach db db'
      → has_family f db.sessions ≡ true
      → IsDead f db.sessions
      → (hash : String) (s : Session) → find_by_refresh_token_hash hash db'.sessions ≡ some s
      → s.token_family_id ≢ some f
  Reach-IsDead f {db' = after} r p d hash s h =
      find-IsDead f hash after.sessions s (Reach-dead r p d).1 h
    where
      Reach-dead :
          {db db' : Db}
          → Reach db db'
          → has_family f db.sessions ≡ true
          → IsDead f db.sessions
          → (has_family f db'.sessions ≡ true) × IsDead f db'.sessions
      Reach-dead here p d = (p, d)
      Reach-dead (next r step) p d =
          let (p', d') = Reach-dead r p d in Effect-IsDead f (Step-Effect step) p' d'

  -- From a database where every family has at most one session that can be refreshed (neither
  -- revoked nor rotated), the steps above lead only to such databases: a refresh replaces, and never
  -- forks. The steps are those of all modelled grants and of all revocations, the storing of a session
  -- of no family or of a new one, and whatever leaves the sessions alone; the removal of rows is not
  -- among them.
  pub Reach-live_count :
      {db db' : Db}
      → Reach db db'
      → ((f : ℕ) → live_count f db.sessions ≤ 1)
      → (f : ℕ) → live_count f db'.sessions ≤ 1
  Reach-live_count here h f = h f
  Reach-live_count (next r step) h f =
      Effect-live_count f (Step-Effect step) (Reach-live_count r h f)
