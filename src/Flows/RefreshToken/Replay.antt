-- ===== src/Flows/RefreshToken/Replay.antt =====
-- Reuse of a rotated refresh token: phase 1 answers it by revoking the whole family.
use open_id_connect_wasi_hub.Prelude.{
  ℕ, ◌≡◌, ◌≢◌, refl, sym, ap, String, List, Option, none, some, Bool, true, false, arith, ◌==◌,
  nat_eq, ℤ, inl, inr, Bool-cases, ◌∙◌, if◌then◌else◌, Option-cases, not, ◌||◌,
}
use mathlib.Core.Option.{some-injective}
use open_id_connect_wasi_hub.Error.{Result, ok, err, OidcError, invalid_request, invalid_client}
use open_id_connect_wasi_hub.Token.{sha2_256_hex}
use open_id_connect_wasi_hub.Models.{Session}
use open_id_connect_wasi_hub.Db.Tables.{Db}
use open_id_connect_wasi_hub.Db.Sessions.{
  create, mark_reused, revoke_family, find_by_refresh_token_hash,
}
use open_id_connect_wasi_hub.Db.Sessions.Laws.{
  IsDead, revoke_family-IsDead, find-IsDead, find-mark_rotated, find-create,
  find_by_refresh_token_hash_sound,
}
use open_id_connect_wasi_hub.Db.Transaction.{IsUp, commit_with, begin_with}
use open_id_connect_wasi_hub.Flows.State.{OidcState, Draw, TokenResponse}
use open_id_connect_wasi_hub.Flows.RefreshToken.{
  Refresh, CheckDraw, check_replay, rotate, execute, is_expired, revoke_expired, revoke_reused,
  check_session, is_set, refuse_with,
}
use open_id_connect_wasi_hub.Flows.RefreshToken.Rotation.{rotate_sound}
use open_id_connect_wasi_hub.Db.Sessions.Families.{
  Revision, unchanged, Revision-revoke, Revision-revoke_family, Revision-mark_reused,
}

module _ (st : OidcState) (req : Refresh) where
  -- The session that a token names.
  abbrev pub session_named : Db → Option Session
  session_named db =
      find_by_refresh_token_hash (sha2_256_hex st.external req.refresh_token) db.sessions

  -- Phase 1 on the token of a session that is rotated or expired: refused, the family is dead.
  check_replay-IsDead :
      (draw : CheckDraw) (db : Db) (s : Session) (f : ℕ)
      → IsUp draw.link
      → session_named db ≡ some s
      → s.client_id ≡ req.client_id
      → s.family_revoked ≡ false
      → s.token_family_id ≡ some f
      → (at : ℕ) → s.rotated_at ≡ some at
      → (db' : Db) × (check_replay st draw req db ≡ (err invalid_request, db'))
        × IsDead f db'.sessions
  unfolding check_replay
  check_replay-IsDead draw db s f up found owner alive family at rotated =
      let alive' = find_by_refresh_token_hash_sound _ db.sessions s found in
      elim (Bool-cases (is_expired s draw.now)) [
        | inl expired ↦ (
          record db { sessions = revoke_family f db.sessions },
          ground (arith, expired),
          revoke_family-IsDead f db.sessions,
        )
        | inr live ↦ (
          record db { sessions = revoke_family f (mark_reused s.id draw.db_now db.sessions) },
          ground (arith, live),
          revoke_family-IsDead f _,
        )
      ]

  execute-check_refused :
      (now : ℕ) (draw : Draw) (check : CheckDraw) (db db' : Db) (e : OidcError)
      → check_replay st check req db ≡ (err e, db')
      → execute st check req now draw db ≡ (err e, db')
  unfolding execute
  execute-check_refused now draw check db db' e h = ground arith

  -- A refresh token works once, and a second use kills its family: after a successful rotation, using
  -- the same token again (by the same client, at any time, the check's connection without a fault) is
  -- answered with `InvalidRequest`, and from then on no token of the family, the successor's included,
  -- names a session.
  pub execute-rotated :
      (now later : ℕ) (draw again : Draw) (check : CheckDraw) (db db' : Db)
      (r : TokenResponse × Option ℤ) (s : Session) (f : ℕ)
      → rotate st req now draw db ≡ (ok r, db')
      → session_named db ≡ some s
      → s.token_family_id ≡ some f
      → IsUp check.link
      → (db'' : Db) × (execute st check req later again db' ≡ (err invalid_request, db''))
        × ((hash : String) (s' : Session)
            → find_by_refresh_token_hash hash db''.sessions ≡ some s'
            → s'.token_family_id ≢ some f)
  execute-rotated now later draw again check db db' r s f done named family up =
      let (s₀, user_id, user, client, checked, rotated) =
        rotate_sound st req now draw db db' r done in
      let same = some-injective s₀ s (sym checked.found ∙ named) in
      let hash = sha2_256_hex st.external req.refresh_token in
      let stored =
        find-mark_rotated hash draw.db_now (create draw.db_now rotated.next db.sessions) s₀
          (find-create hash draw.db_now rotated.next db.sessions s₀ checked.found) in
      let (db'', refused, dead) =
        check_replay-IsDead check db'
          (record s₀ { rotated_at = some draw.db_now; last_used_at = some draw.db_now }) f up
          (rw rotated.stored stored) checked.owner checked.alive.1
          (ap (λ z. z.token_family_id) same ∙ family) draw.db_now refl in
      (
        db'',
        execute-check_refused later again check db' db'' invalid_request refused,
        λ hash s' h. find-IsDead f hash db''.sessions s' dead h,
      )

-- Phase 1 only revokes and marks.
commit_with-Revision :
    (c : Result (Unit {0})) (db : Db) (u : List Session)
    → Revision db.sessions u
    → Revision db.sessions
        (commit_with {A = Unit} c db (err invalid_request) (record db { sessions = u })).1.sessions
commit_with-Revision (ok _) db u r = r
commit_with-Revision (err e) db u r = unchanged

if-Revision :
    (b : Bool) (t : List Session) (x y : Result (Unit {0}) × Db)
    → Revision t x.1.sessions
    → Revision t y.1.sessions
    → Revision t (if b then x else y).1.sessions
if-Revision true t x y p q = p
if-Revision false t x y p q = q

revoke_expired-Revision : (s : Session) (t : List Session) → Revision t (revoke_expired s t)
unfolding revoke_expired
revoke_expired-Revision s t = elim (Option-cases s.token_family_id) [
  | inl e ↦ rw (e, revoke_expired) (Revision-revoke s.id unchanged)
  | inr (f, e) ↦ rw (e, revoke_expired) (Revision-revoke_family f unchanged)
]

revoke_reused-Revision :
    (now : ℕ) (s : Session) (t : List Session) → Revision t (revoke_reused now s t)
unfolding revoke_reused
revoke_reused-Revision now s t =
    let marked = Revision-mark_reused s.id now (unchanged {t = t}) in
    elim (Option-cases s.token_family_id) [
      | inl e ↦ rw (e, revoke_reused) marked
      | inr (f, e) ↦ rw (e, revoke_reused) (Revision-revoke_family f marked)
    ]

check_session-Revision :
    (draw : CheckDraw) (req : Refresh) (db : Db) (o : Option Session)
    → Revision db.sessions (check_session draw req db o).1.sessions
unfolding check_session
check_session-Revision draw req db none = unchanged
check_session-Revision draw req db (some s) =
    let t = db.sessions in
    let expired = refuse_with draw.link db (revoke_expired s t) in
    let reused = refuse_with draw.link db (revoke_reused draw.db_now s t) in
    let unrotated : Result (Unit {0}) × Db = if is_set s.rotated_at then reused else (ok tt, db) in
    let unexpired = if is_expired s draw.now then expired else unrotated in
    let unrevoked =
      if s.revoked || s.family_revoked then (err invalid_request, db) else unexpired in
    if-Revision (not (s.client_id == req.client_id)) t (err invalid_client, db) unrevoked unchanged
      (if-Revision (s.revoked || s.family_revoked) t (err invalid_request, db) unexpired unchanged
        (if-Revision (is_expired s draw.now) t expired unrotated
          (commit_with-Revision draw.link.commit db (revoke_expired s t)
            (revoke_expired-Revision s t))
          (if-Revision (is_set s.rotated_at) t reused (ok tt, db)
            (commit_with-Revision draw.link.commit db (revoke_reused draw.db_now s t)
              (revoke_reused-Revision draw.db_now s t))
            unchanged)))

begin_with-Revision :
    (c : Result (Unit {0})) (db : Db) (next : Result (Unit {0}) × Db)
    → Revision db.sessions next.1.sessions
    → Revision db.sessions (begin_with c db next).1.sessions
begin_with-Revision (ok _) db next r = r
begin_with-Revision (err e) db next r = unchanged

pub check_replay-Revision :
    (st : OidcState) (req : Refresh) (draw : CheckDraw) (db : Db)
    → Revision db.sessions (check_replay st draw req db).1.sessions
unfolding check_replay
check_replay-Revision st req draw db =
    let o = find_by_refresh_token_hash (sha2_256_hex st.external req.refresh_token) db.sessions in
    let checked = check_session draw req db o in
    begin_with-Revision draw.link.connect db (begin_with draw.link.begin db checked)
      (begin_with-Revision draw.link.begin db checked (check_session-Revision draw req db o))
