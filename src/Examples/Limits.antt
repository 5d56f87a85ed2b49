-- ===== src/Examples/Limits.antt =====
-- Client policies, their patterns, and the counter of requests on examples.
use open_id_connect_wasi_hub.Prelude.{
  ◌+◌, pos, ◌≡◌, refl, arith, [], ◌∷◌, none, some, true, false, all, min,
}
use open_id_connect_wasi_hub.Policies.Globs.{glob_matches, bytes}
use open_id_connect_wasi_hub.Policies.Globs.Reference.{matches}
use open_id_connect_wasi_hub.Policies.Globs.Matching.{glob_matches_lem}
use open_id_connect_wasi_hub.Policies.Clients.{
  admin, of_client_id, require_pkce, maximum_redirect_uris, ClientPolicy, ClientPolicyProfile,
  condition_matches, executor_violation,
}
use open_id_connect_wasi_hub.Policies.Clients.Evaluation.{
  enforce_client_policies, evaluate_client_policies,
}
use open_id_connect_wasi_hub.Policies.Clients.Enforcement.{
  succeeds, complies, enforce_client_policies_lem,
}
use open_id_connect_wasi_hub.RateLimit.{RateLimiter, Buckets}
use open_id_connect_wasi_hub.RateLimit.Window.{admitted, admitted_in_window}
use open_id_connect_wasi_hub.Examples.Fixture.{ext, client}

glob_matches_lem_example :
    glob_matches "a*c?" "abbcc" ≡ some (matches (bytes "a*c?") (bytes "abbcc"))
glob_matches_lem_example =
    glob_matches_lem "a*c?" "abbcc" (refl, (refl, (refl, (refl, (refl, tt)))))

-- A value with a star of its own: the search takes the pattern's star for that byte.
literal_star : glob_matches "*" "*a" ≡ some false
unfolding glob_matches
literal_star = refl

literal_star_meant : matches (bytes "*") (bytes "*a") ≡ true
unfolding matches
literal_star_meant = refl

abbrev profile : ClientPolicyProfile
profile = record {
  id = 1;
  realm_id = 5;
  name = "strict";
  description = none;
  executors = require_pkce ∷ maximum_redirect_uris 3 ∷ [];
  created_at = 0;
  updated_at = 0;
}

abbrev policy : ClientPolicy
policy = record {
  id = 2;
  realm_id = 5;
  name = "all";
  description = none;
  enabled = true;
  priority = pos 1;
  conditions = of_client_id "c*t" ∷ [];
  profile_ids = 1 ∷ [];
  created_at = 0;
  updated_at = 0;
}

-- The client does not require PKCE.
refused : succeeds (enforce_client_policies ext client admin (profile ∷ []) (policy ∷ [])) ≡ false
unfolding enforce_client_policies evaluate_client_policies condition_matches glob_matches
    executor_violation
refused = refl

enforce_client_policies_lem_example :
    succeeds (enforce_client_policies ext client admin (profile ∷ []) (policy ∷ []))
    ≡ all (complies ext client admin (profile ∷ [])) (policy ∷ [])
enforce_client_policies_lem_example =
    enforce_client_policies_lem ext client admin (profile ∷ []) (policy ∷ [])

abbrev limiter : RateLimiter
limiter = record { max_requests = 2; window_secs = 60 }

abbrev buckets : Buckets
buckets =
    ("a", record { window_start = 0; request_count = 1 })
    ∷ ("b", record { window_start = 0; request_count = 0 })
    ∷ []

admitted_in_window_example :
    admitted limiter "a" (10 ∷ 20 ∷ 30 ∷ []) buckets + min 1 2 ≡ min (1 + 3) 2
admitted_in_window_example =
    admitted_in_window limiter "a" (10 ∷ 20 ∷ 30 ∷ []) buckets
      (record { window_start = 0; request_count = 1 }) refl
      (omega arith, (omega arith, (omega arith, tt))) (omega arith)
