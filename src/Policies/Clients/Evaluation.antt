-- ===== src/Policies/Clients/Evaluation.antt =====
-- `evaluate_client_policies` and `enforce_client_policies` of
-- crates/oidc-core/src/models/client_policy.rs.
use Prim.Native.String.{compare}
use Prim.Native.Nat.{Ordering, lt, eq, gt}
use open_id_connect_wasi_hub.Prelude.{
  ℕ, leb_ℤ, ltb_ℤ, String, List, [], ◌∷◌, ◌++◌, Option, none, some, Bool, true, false, ◌&&◌, ◌||◌,
  ◌==◌, nat_eq, string_eq, contains, all, find, filter, is_empty, concat, if◌then◌else◌,
}
use open_id_connect_wasi_hub.Error.{Result, ok, err, invalid_input}
use open_id_connect_wasi_hub.External.{External}
use open_id_connect_wasi_hub.Models.{Client}
use open_id_connect_wasi_hub.Policies.Clients.{
  ClientRegistrationContext, ClientPolicy, ClientPolicyProfile, ClientPolicyExecutor,
  ClientPolicyViolation, ClientPolicyEvaluation, condition_matches, executor_violation,
}

-- The order of the key `(priority, name)`.
abbrev is_lt : Ordering → Bool
is_lt lt = true
is_lt eq = false
is_lt gt = false

abbrev precedes : ClientPolicy → ClientPolicy → Bool
precedes p q =
    ltb_ℤ p.priority q.priority || (leb_ℤ p.priority q.priority && is_lt (compare p.name q.name))

-- A stable sort: equal keys keep their order.
abbrev pub insert : ClientPolicy → List ClientPolicy → List ClientPolicy
insert p [] = p ∷ []
insert p (q ∷ qs) = let rest = insert p qs in if precedes q p then q ∷ rest else p ∷ q ∷ qs

abbrev pub sort : List ClientPolicy → List ClientPolicy
sort [] = []
sort (p ∷ ps) = insert p (sort ps)

abbrev pub no_findings : ClientPolicyEvaluation
no_findings = record {
  allowed = true;
  matched_policies = [];
  matched_profiles = [];
  violations = [];
}

abbrev pub add_violation : ClientPolicyViolation → ClientPolicyEvaluation → ClientPolicyEvaluation
add_violation v r = record r { violations = r.violations ++ v ∷ [] }

module _ (ext : External) (client : Client) (context : ClientRegistrationContext)
    (profiles : List ClientPolicyProfile) where
  -- The profile that a policy names, in the realm of the client.
  unfoldable pub find_profile : ℕ → Option ClientPolicyProfile
  find_profile profile_id = find (λ p. p.id == profile_id && p.realm_id == client.realm_id) profiles

  -- The violation of one executor, if there is one.
  abbrev pub add_found :
      ClientPolicy
      → ClientPolicyProfile
      → Option (String × String)
      → ClientPolicyEvaluation
      → ClientPolicyEvaluation
  add_found policy profile none r = r
  add_found policy profile (some (kind, message)) r =
      add_violation
        (record {
          policy = policy.name;
          profile = profile.name;
          executor = kind;
          message = message;
        })
        r

  unfoldable pub run_executors :
      ClientPolicy
      → ClientPolicyProfile
      → List ClientPolicyExecutor
      → ClientPolicyEvaluation
      → ClientPolicyEvaluation
  run_executors policy profile [] r = r
  run_executors policy profile (e ∷ es) r =
      run_executors policy profile es (add_found policy profile (executor_violation ext e client) r)

  abbrev pub missing_profile : ClientPolicy → ℕ → ClientPolicyViolation
  missing_profile policy profile_id = record {
    policy = policy.name;
    profile = "missing profile";
    executor = "profile_reference";
    message =
        concat
          ("Referenced profile " ∷ ext.uuid_text profile_id ∷ " does not exist in this realm" ∷ []);
  }

  abbrev pub match_profile : ClientPolicyProfile → ClientPolicyEvaluation → ClientPolicyEvaluation
  match_profile profile r =
      if contains r.matched_profiles profile.name
      then r
      else record r { matched_profiles = r.matched_profiles ++ profile.name ∷ [] }

  -- One profile of a policy, where it was found, or else a violation.
  unfoldable pub run_profile :
      ClientPolicy
      → ℕ
      → Option ClientPolicyProfile
      → ClientPolicyEvaluation
      → ClientPolicyEvaluation
  unfolding run_executors
  run_profile policy profile_id none r = add_violation (missing_profile policy profile_id) r
  run_profile policy profile_id (some profile) r =
      run_executors policy profile profile.executors (match_profile profile r)

  unfoldable pub run_profiles :
      ClientPolicy → List ℕ → ClientPolicyEvaluation → ClientPolicyEvaluation
  unfolding find_profile run_profile
  run_profiles policy [] r = r
  run_profiles policy (profile_id ∷ ids) r =
      run_profiles policy ids (run_profile policy profile_id (find_profile profile_id) r)

  unfoldable pub applies : ClientPolicy → Bool
  applies policy = all (λ c. condition_matches c client context) policy.conditions

  unfoldable pub run_policies : List ClientPolicy → ClientPolicyEvaluation → ClientPolicyEvaluation
  unfolding applies run_profiles
  run_policies [] r = r
  run_policies (policy ∷ ps) r = run_policies ps (
      if applies policy
      then run_profiles policy policy.profile_ids
          (record r { matched_policies = r.matched_policies ++ policy.name ∷ [] })
      else r)

  unfoldable pub evaluate_client_policies : List ClientPolicy → ClientPolicyEvaluation
  unfolding run_policies
  evaluate_client_policies policies =
      let result = run_policies (sort (filter (λ p. p.enabled) policies)) no_findings in
      record result { allowed = is_empty result.violations }

  -- The first violation is the error.
  abbrev pub answer :
      ClientPolicyEvaluation → List ClientPolicyViolation → Result ClientPolicyEvaluation
  answer result [] = ok result
  answer result (v ∷ _) = err (
      invalid_input (
        concat
          ("client policy '" ∷ v.policy ∷ "' / profile '" ∷ v.profile ∷ "': " ∷ v.message ∷ [])))

  unfoldable pub enforce_client_policies : List ClientPolicy → Result ClientPolicyEvaluation
  enforce_client_policies policies =
      let result = evaluate_client_policies policies in answer result result.violations
