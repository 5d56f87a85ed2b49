-- ===== src/Db/Sessions/Families.antt =====
-- Families of sessions: a dead family stays dead under the updates, and how many of its sessions can
-- still be refreshed.
use open_id_connect_wasi_hub.Prelude.{
  is_null, ℕ, ◌+◌, ◌≤◌, ◌<◌, ◌≡◌, ◌≢◌, refl, String, List, [], ◌∷◌, some, Bool, true, false, not,
  ◌&&◌, ◌||◌, arith, ◌==◌, string_eq, nat_eq, nat_beq_iff, option_eq, option_beq_iff, if◌then◌else◌,
  update_where, any, ◌∙◌,
}
use open_id_connect_wasi_hub.Models.{Session}
use open_id_connect_wasi_hub.Db.Sessions.{
  find_by_refresh_token_hash, create, revoke, mark_reused, mark_rotated, revoke_family,
  revoke_by_user_id, revoke_online_by_user_id, revoke_by_user_and_client,
  revoke_other_user_sessions,
}
use open_id_connect_wasi_hub.Db.Sessions.Laws.{IsDead}

-- An update that keeps the family of a row and never clears `revoked` or `rotated_at`.
pub record KeepsFamily (g : Session → Session) : Type 0 where
  pub family : (s : Session) → (g s).token_family_id ≡ s.token_family_id
  pub revoked : (s : Session) → s.revoked ≡ true → (g s).revoked ≡ true
  pub rotated : (s : Session) → is_null (g s).rotated_at ≡ true → is_null s.rotated_at ≡ true

-- A table after some such updates.
pub data Revision : List Session → List Session → Type 0 where
  unchanged : {t : List Session} → Revision t t
  updated :
      {t u : List Session} (p : Session → Bool) (g : Session → Session)
      → KeepsFamily g
      → Revision t u
      → Revision t (update_where p g u)

set_revoked-KeepsFamily : KeepsFamily (λ s. record s { revoked = true })
set_revoked-KeepsFamily = record { family = λ s. refl; revoked = λ s e. refl; rotated = λ s e. e }

family_revoked-KeepsFamily : KeepsFamily (λ s. record s { revoked = true; family_revoked = true })
family_revoked-KeepsFamily = record {
  family = λ s. refl;
  revoked = λ s e. refl;
  rotated = λ s e. e;
}

reused-KeepsFamily : (now : ℕ) → KeepsFamily (λ s. record s { reused_at = some now })
reused-KeepsFamily now = record { family = λ s. refl; revoked = λ s e. e; rotated = λ s e. e }

rotated-KeepsFamily :
    (now : ℕ) → KeepsFamily (λ s. record s { rotated_at = some now; last_used_at = some now })
rotated-KeepsFamily now = record { family = λ s. refl; revoked = λ s e. e; rotated = λ s e. cc }

-- Further updates.
pub Revision-after : {t u v : List Session} → Revision t u → Revision u v → Revision t v
Revision-after r unchanged = r
Revision-after r (updated p g k later) = updated p g k (Revision-after r later)

pub Revision-revoke : (id : ℕ) {t u : List Session} → Revision t u → Revision t (revoke id u)
unfolding revoke
Revision-revoke id r = updated _ _ set_revoked-KeepsFamily r

pub Revision-revoke_by_user_id :
    (id : ℕ) {t u : List Session} → Revision t u → Revision t (revoke_by_user_id id u)
unfolding revoke_by_user_id
Revision-revoke_by_user_id id r = updated _ _ set_revoked-KeepsFamily r

pub Revision-revoke_online_by_user_id :
    (id : ℕ) {t u : List Session} → Revision t u → Revision t (revoke_online_by_user_id id u)
unfolding revoke_online_by_user_id
Revision-revoke_online_by_user_id id r = updated _ _ set_revoked-KeepsFamily r

pub Revision-revoke_by_user_and_client :
    (id client_id : ℕ) {t u : List Session}
    → Revision t u
    → Revision t (revoke_by_user_and_client id client_id u)
unfolding revoke_by_user_and_client
Revision-revoke_by_user_and_client id client_id r = updated _ _ set_revoked-KeepsFamily r

pub Revision-revoke_other_user_sessions :
    (id kept : ℕ) {t u : List Session}
    → Revision t u
    → Revision t (revoke_other_user_sessions id kept u)
unfolding revoke_other_user_sessions
Revision-revoke_other_user_sessions id kept r = updated _ _ set_revoked-KeepsFamily r

pub Revision-revoke_family :
    (f : ℕ) {t u : List Session} → Revision t u → Revision t (revoke_family f u)
unfolding revoke_family
Revision-revoke_family f r = updated _ _ family_revoked-KeepsFamily r

pub Revision-mark_reused :
    (id now : ℕ) {t u : List Session} → Revision t u → Revision t (mark_reused id now u)
unfolding mark_reused
Revision-mark_reused id now r = updated _ _ (reused-KeepsFamily now) r

pub Revision-mark_rotated :
    (id now : ℕ) {t u : List Session} → Revision t u → Revision t (mark_rotated id now u)
unfolding mark_rotated
Revision-mark_rotated id now r = updated _ _ (rotated-KeepsFamily now) r

module _ (f : ℕ) where
  pub IsDead-update_where :
      (p : Session → Bool) (g : Session → Session) (t : List Session)
      → KeepsFamily g
      → IsDead f t
      → IsDead f (update_where p g t)
  IsDead-update_where p g [] k d = tt
  IsDead-update_where p g (x ∷ t) k (dx, d) =
      (ground (arith, k.family x, k.revoked x), IsDead-update_where p g t k d)

  pub IsDead-create :
      (now : ℕ) (s : Session) (t : List Session)
      → IsDead f t
      → s.token_family_id ≢ some f
      → IsDead f (create now s t)
  unfolding create
  IsDead-create now s [] d ne = (λ e. absurd (ne e), tt)
  IsDead-create now s (x ∷ t) (dx, d) ne = (dx, IsDead-create now s t d ne)

  -- Sessions that a refresh token can still rotate.
  abbrev pub is_live : Session → Bool
  is_live s = s.token_family_id == some f && not s.revoked && is_null s.rotated_at

  unfoldable pub live_count : List Session → ℕ
  live_count [] = 0
  live_count (s ∷ t) = (if is_live s then 1 else 0) + live_count t

  pub live_count-create :
      (now : ℕ) (s : Session) (t : List Session)
      → live_count (create now s t) ≡ live_count t + (if is_live s then 1 else 0)
  unfolding create live_count
  live_count-create now s [] = ground arith
  live_count-create now s (x ∷ t) = ground (arith, live_count-create now s t)

  live_count-update_where :
      (p : Session → Bool) (g : Session → Session) (t : List Session)
      → KeepsFamily g
      → live_count (update_where p g t) ≤ live_count t
  unfolding live_count
  live_count-update_where p g [] k = omega arith
  live_count-update_where p g (x ∷ t) k = ground (
    arith,
    k.family x,
    k.revoked x,
    k.rotated x,
    option_beq_iff nat_eq x.token_family_id (some f),
    option_beq_iff nat_eq (g x).token_family_id (some f),
    live_count-update_where p g t k,
  )

  live_count-mark_rotated-le :
      (now id : ℕ) (t : List Session) → live_count (mark_rotated id now t) ≤ live_count t
  unfolding mark_rotated
  live_count-mark_rotated-le now id t =
      live_count-update_where (λ s. s.id == id) _ t (rotated-KeepsFamily now)

  -- Marking a live session as rotated takes it off the count.
  pub live_count-mark_rotated :
      (now : ℕ) (hash : String) (t : List Session) (s : Session)
      → find_by_refresh_token_hash hash t ≡ some s
      → is_live s ≡ true
      → live_count (mark_rotated s.id now t) < live_count t
  unfolding live_count mark_rotated find_by_refresh_token_hash
  live_count-mark_rotated now hash [] s h l = cc
  live_count-mark_rotated now hash (x ∷ t) s h l = ground (
    arith,
    nat_beq_iff x.id s.id,
    live_count-mark_rotated-le now s.id t,
    live_count-mark_rotated now hash t s,
  )

  pub live_count_zero : (t : List Session) → IsDead f t → live_count t ≡ 0
  unfolding live_count
  live_count_zero [] d = refl
  live_count_zero (x ∷ t) (dx, d) =
      ground (arith, live_count_zero t d, option_beq_iff nat_eq x.token_family_id (some f))

  -- The family has a session.
  unfoldable pub has_family : List Session → Bool
  has_family t = any (λ s. s.token_family_id == some f) t

  has_family-update_where :
      (p : Session → Bool) (g : Session → Session) (t : List Session)
      → KeepsFamily g
      → has_family (update_where p g t) ≡ has_family t
  unfolding has_family
  has_family-update_where p g [] k = refl
  has_family-update_where p g (x ∷ t) k =
      ground (arith, k.family x, has_family-update_where p g t k)

  pub has_family-create :
      (now : ℕ) (s : Session) (t : List Session)
      → has_family (create now s t) ≡ (has_family t || s.token_family_id == some f)
  unfolding has_family create
  has_family-create now s [] = ground arith
  has_family-create now s (x ∷ t) = ground (arith, has_family-create now s t)

  pub live_count_absent : (t : List Session) → has_family t ≡ false → live_count t ≡ 0
  unfolding has_family live_count
  live_count_absent [] h = refl
  live_count_absent (x ∷ t) h = ground (arith, live_count_absent t)

  -- What a revision keeps.
  pub IsDead-Revision : {t u : List Session} → Revision t u → IsDead f t → IsDead f u
  IsDead-Revision unchanged d = d
  IsDead-Revision (updated {u} p g k r) d = IsDead-update_where p g u k (IsDead-Revision r d)

  pub has_family-Revision : {t u : List Session} → Revision t u → has_family u ≡ has_family t
  has_family-Revision unchanged = refl
  has_family-Revision (updated {u} p g k r) =
      has_family-update_where p g u k ∙ has_family-Revision r

  pub live_count-Revision : {t u : List Session} → Revision t u → live_count u ≤ live_count t
  live_count-Revision unchanged = omega arith
  live_count-Revision (updated {u} p g k r) =
      omega (arith, live_count-update_where p g u k, live_count-Revision r)
