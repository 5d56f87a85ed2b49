-- ===== src/Policies/Permissions/Strategies.antt =====
-- The strategies of a permission, by counting the answers.
use open_id_connect_wasi_hub.Prelude.{
  ℕ, ◌+◌, ◌≡◌, refl, arith, List, [], ◌∷◌, Bool, true, false, not, ◌&&◌, ◌==◌, string_eq, length,
  any, all, filter, ltb, nat_beq, String,
}
use open_id_connect_wasi_hub.Prelude.{if◌then◌else◌, nat_beq_iff}
use open_id_connect_wasi_hub.Models.{AuthorizationPermission}
use open_id_connect_wasi_hub.Policies.Permissions.{decide}

abbrev pub yes_votes : List Bool → ℕ
yes_votes results = length (filter (λ value. value) results)

abbrev pub no_votes : List Bool → ℕ
no_votes results = length (filter not results)

-- A unanimous vote has no answer against it, a consensus more for than against, and any other
-- strategy one for; no vote is carried without an answer.
unfoldable pub carried : String → ℕ → ℕ → Bool
carried strategy agreed opposed =
    if strategy == "unanimous"
    then ltb 0 agreed && nat_beq opposed 0
    else if strategy == "consensus"
    then ltb opposed agreed
    else ltb 0 agreed

length-votes : (results : List Bool) → length results ≡ yes_votes results + no_votes results
length-votes [] = refl
length-votes (true ∷ results) = omega (arith, length-votes results)
length-votes (false ∷ results) = omega (arith, length-votes results)

all-votes : (results : List Bool) → all (λ value. value) results ≡ nat_beq (no_votes results) 0
all-votes [] = ground (arith, nat_beq_iff 0 0)
all-votes (true ∷ results) = all-votes results
all-votes (false ∷ results) = ground (arith, nat_beq_iff (no_votes results + 1) 0)

any-votes : (results : List Bool) → any (λ value. value) results ≡ ltb 0 (yes_votes results)
any-votes [] = ground arith
any-votes (true ∷ results) = ground arith
any-votes (false ∷ results) = any-votes results

-- A permission decides by the number of policies that agree and of those that do not: their order
-- is without effect.
pub decide_lem :
    (permission : AuthorizationPermission) (results : List Bool)
    → decide permission results
      ≡ carried permission.decision_strategy (yes_votes results) (no_votes results)
unfolding decide carried
decide_lem permission [] = ground arith
decide_lem permission (r ∷ results) =
    rw
      (
        decide,
        carried,
        all-votes (r ∷ results),
        any-votes (r ∷ results),
        length-votes (r ∷ results),
      )
      (ground (arith, length-votes (r ∷ results)))
