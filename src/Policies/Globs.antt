-- ===== src/Policies/Globs.antt =====
-- `glob_matches` of crates/oidc-core/src/models/client_policy.rs. An index into the pattern or into the
-- value is the rest of the text from there on.
pub mod Reference
pub mod Matching
use Prim.Native.Nat.{◌*◌}
use open_id_connect_wasi_hub.Prelude.{
  ℕ, ◌+◌, zero, suc, String, List, [], ◌∷◌, Bool, true, false, Option, none, some, ◌||◌, ◌==◌,
  nat_eq, length, codes, utf8_bytes, if◌then◌else◌, get_or,
}

abbrev pub star_byte : ℕ
star_byte = b'*'

abbrev pub any_byte : ℕ
any_byte = b'?'

-- The last star: the pattern after it, and the value where its text was last taken to end.
pub record Star : Type 0 where
  pub after : List ℕ
  pub checkpoint : List ℕ

-- The loop after the value is used up.
unfoldable pub only_stars : List ℕ → Bool
only_stars [] = true
only_stars (d ∷ p) = let rest = only_stars p in if d == star_byte then rest else false

-- What one turn of the loop does: it ends, or goes on with other indices and perhaps another star.
pub data Turn : Type 0 where
  ends : Bool → Turn
  goes_on : List ℕ → List ℕ → Option Star → Turn

-- `pi = s + 1; checkpoint += 1; vi = checkpoint;`
abbrev pub retry : List ℕ → List ℕ → Turn
retry ps [] = ends false
retry ps (c ∷ cv) = goes_on ps cv (some (record { after = ps; checkpoint = cv }))

abbrev pub backtrack : Option Star → Turn
backtrack none = ends false
backtrack (some star) = retry star.after star.checkpoint

unfoldable pub turn : List ℕ → List ℕ → Option Star → Turn
unfolding only_stars
turn p [] star = ends (only_stars p)
turn [] (c ∷ v) star = backtrack star
turn (d ∷ p) (c ∷ v) star =
    if d == any_byte || d == c
    then goes_on p v star
    else if d == star_byte
    then goes_on p (c ∷ v) (some (record { after = p; checkpoint = c ∷ v }))
    else backtrack star

abbrev pub follow : (List ℕ → List ℕ → Option Star → Option Bool) → Turn → Option Bool
follow loop (ends b) = some b
follow loop (goes_on p v star) = loop p v star

-- The loop on fuel.
unfoldable pub scan : ℕ → List ℕ → List ℕ → Option Star → Option Bool
unfolding turn
scan zero p v star = none
scan (suc n) p v star = follow (scan n) (turn p v star)

-- Enough turns: each new checkpoint costs at most one pass over the pattern and the value.
abbrev pub fuel_for : List ℕ → List ℕ → ℕ
fuel_for p v = (length v + 2) * (length p + length v + 1)

abbrev pub bytes : String → List ℕ
bytes s = utf8_bytes (codes s)

-- `none` would be a loop that is still running.
unfoldable pub glob_matches : String → String → Option Bool
unfolding scan
glob_matches pattern value =
    scan (fuel_for (bytes pattern) (bytes value)) (bytes pattern) (bytes value) none
