-- ===== src/Db/Sessions/Revocation.antt =====
-- What the revocations of a user's sessions leave to be found.
use open_id_connect_wasi_hub.Prelude.{
  ℕ, ◌≡◌, refl, arith, String, List, [], ◌∷◌, some, true, ◌==◌, nat_eq, string_eq, option_eq,
  option_beq_iff, all,
}
use open_id_connect_wasi_hub.Models.{Session}
use open_id_connect_wasi_hub.Db.Sessions.{
  revoke_by_user_id, revoke_other_user_sessions, find_active_grants_by_user_id,
  find_active_by_user_id, find_active_by_refresh_token_hash, cleanup_expired,
}

-- After all sessions of a user are revoked, none of them is listed as active, online or offline, at
-- any time.
pub find_active_grants_by_user_id-revoke_by_user_id :
    (user_id now : ℕ) (t : List Session)
    → find_active_grants_by_user_id user_id now (revoke_by_user_id user_id t) ≡ []
unfolding find_active_grants_by_user_id revoke_by_user_id
find_active_grants_by_user_id-revoke_by_user_id user_id now [] = refl
find_active_grants_by_user_id-revoke_by_user_id user_id now (s ∷ t) = ground (
  arith,
  option_beq_iff nat_eq s.user_id (some user_id),
  find_active_grants_by_user_id-revoke_by_user_id user_id now t,
)

-- After the other sessions of a user are revoked, only the kept one can still be active.
pub find_active_by_user_id-revoke_other_user_sessions :
    (user_id kept now : ℕ) (t : List Session)
    → all
        (λ s. s.id == kept)
        (find_active_by_user_id user_id now (revoke_other_user_sessions user_id kept t))
      ≡ true
unfolding find_active_by_user_id revoke_other_user_sessions
find_active_by_user_id-revoke_other_user_sessions user_id kept now [] = refl
find_active_by_user_id-revoke_other_user_sessions user_id kept now (s ∷ t) =
    ground (arith, find_active_by_user_id-revoke_other_user_sessions user_id kept now t)

-- At the time of a clean-up, the look-up of an active session by its refresh token finds the same row
-- before and after it.
pub find_active_by_refresh_token_hash-cleanup_expired :
    (hash : String) (now : ℕ) (t : List Session)
    → find_active_by_refresh_token_hash hash now (cleanup_expired now t).0
      ≡ find_active_by_refresh_token_hash hash now t
unfolding find_active_by_refresh_token_hash cleanup_expired
find_active_by_refresh_token_hash-cleanup_expired hash now [] = refl
find_active_by_refresh_token_hash-cleanup_expired hash now (s ∷ t) =
    ground (arith, find_active_by_refresh_token_hash-cleanup_expired hash now t)
