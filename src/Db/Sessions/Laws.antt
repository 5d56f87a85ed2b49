-- ===== src/Db/Sessions/Laws.antt =====
-- Laws of the session table: what the updates keep, and what a revoked family looks like.
use open_id_connect_wasi_hub.Prelude.{
  ℕ, ◌≡◌, ◌≢◌, String, List, [], ◌∷◌, some, true, false, All, arith, string_eq, nat_eq, nat_beq_iff,
  option_eq, option_beq_iff,
}
use open_id_connect_wasi_hub.Models.{Session}
use open_id_connect_wasi_hub.Db.Sessions.{
  find_by_refresh_token_hash, create, mark_rotated, revoke_family,
}

-- Every session of the family is revoked.
abbrev pub IsDead : ℕ → List Session → Type 0
IsDead f t = All (λ s. s.token_family_id ≡ some f → s.revoked ≡ true) t

-- The row that a look-up returns has the token, and is not revoked.
pub find_by_refresh_token_hash_sound :
    (hash : String) (t : List Session) (s : Session)
    → find_by_refresh_token_hash hash t ≡ some s
    → (s.refresh_token_hash ≡ some hash) × (s.revoked ≡ false)
unfolding find_by_refresh_token_hash
find_by_refresh_token_hash_sound hash [] s h = cc
find_by_refresh_token_hash_sound hash (x ∷ t) s h = ground (
  arith,
  option_beq_iff string_eq x.refresh_token_hash (some hash),
  find_by_refresh_token_hash_sound hash t s,
)

-- No token of a dead family is found.
pub find-IsDead :
    (f : ℕ) (hash : String) (t : List Session) (s : Session)
    → IsDead f t
    → find_by_refresh_token_hash hash t ≡ some s
    → s.token_family_id ≢ some f
unfolding find_by_refresh_token_hash
find-IsDead f hash [] s d h = cc
find-IsDead f hash (x ∷ t) s (dx, d) h = ground (arith, find-IsDead f hash t s d, dx)

pub revoke_family-IsDead : (f : ℕ) (t : List Session) → IsDead f (revoke_family f t)
unfolding revoke_family
revoke_family-IsDead f [] = tt
revoke_family-IsDead f (x ∷ t) =
    (ground (arith, option_beq_iff nat_eq x.token_family_id (some f)), revoke_family-IsDead f t)

-- A rotated session is still found by its token.
pub find-mark_rotated :
    (hash : String) (now : ℕ) (t : List Session) (s : Session)
    → find_by_refresh_token_hash hash t ≡ some s
    → find_by_refresh_token_hash hash (mark_rotated s.id now t)
      ≡ some (record s { rotated_at = some now; last_used_at = some now })
unfolding find_by_refresh_token_hash mark_rotated
find-mark_rotated hash now [] s h = cc
find-mark_rotated hash now (x ∷ t) s h =
    ground (arith, nat_beq_iff x.id s.id, find-mark_rotated hash now t s)

-- A new session, stored behind the others, does not hide one that is there.
pub find-create :
    (hash : String) (now : ℕ) (new : Session) (t : List Session) (s : Session)
    → find_by_refresh_token_hash hash t ≡ some s
    → find_by_refresh_token_hash hash (create now new t) ≡ some s
unfolding find_by_refresh_token_hash create
find-create hash now new [] s h = cc
find-create hash now new (x ∷ t) s h = ground (arith, find-create hash now new t s)
