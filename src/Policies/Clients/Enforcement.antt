-- ===== src/Policies/Clients/Enforcement.antt =====
-- Which clients the policies let through.
use open_id_connect_wasi_hub.Prelude.{
  is_null, ℕ, ◌≡◌, refl, arith, String, List, [], ◌∷◌, ◌++◌, Option, none, some, Bool, true, false,
  not, ◌&&◌, ◌||◌, nat_eq, string_eq, all, filter, is_empty, Bool-cases, inl, inr,
}
use open_id_connect_wasi_hub.Error.{Result, ok, err}
use open_id_connect_wasi_hub.External.{External}
use open_id_connect_wasi_hub.Models.{Client}
use open_id_connect_wasi_hub.Policies.Clients.{
  ClientRegistrationContext, ClientPolicy, ClientPolicyProfile, ClientPolicyExecutor,
  ClientPolicyViolation, ClientPolicyEvaluation, executor_violation,
}
use open_id_connect_wasi_hub.Policies.Clients.Evaluation.{
  insert, sort, no_findings, find_profile, run_executors, run_profiles, applies, run_policies,
  evaluate_client_policies, enforce_client_policies, answer, add_found, match_profile, run_profile,
  missing_profile,
}

abbrev no_violation : ClientPolicyEvaluation → Bool
no_violation r = is_empty r.violations

is_empty-append :
    (vs : List ClientPolicyViolation) (v : ClientPolicyViolation) → is_empty (vs ++ v ∷ []) ≡ false
is_empty-append [] v = refl
is_empty-append (w ∷ vs) v = refl

all-insert :
    (f : ClientPolicy → Bool) (p : ClientPolicy) (qs : List ClientPolicy)
    → all f (insert p qs) ≡ (f p && all f qs)
all-insert f p [] = refl
all-insert f p (q ∷ qs) = ground (arith, all-insert f p qs)

all-sort : (f : ClientPolicy → Bool) (ps : List ClientPolicy) → all f (sort ps) ≡ all f ps
all-sort f [] = refl
all-sort f (p ∷ ps) = ground (arith, all-insert f p (sort ps), all-sort f ps)

all-filter :
    (f g : ClientPolicy → Bool) (ps : List ClientPolicy)
    → all f (filter g ps) ≡ all (λ p. not (g p) || f p) ps
all-filter f g [] = refl
all-filter f g (p ∷ ps) = ground (arith, all-filter f g ps)

abbrev pub succeeds : Result ClientPolicyEvaluation → Bool
succeeds (ok r) = true
succeeds (err e) = false

module _ (ext : External) (client : Client) (context : ClientRegistrationContext)
    (profiles : List ClientPolicyProfile) where
  -- The client violates no executor of the profile.
  abbrev pub meets : ClientPolicyProfile → Bool
  meets profile = all (λ e. is_null (executor_violation ext e client)) profile.executors

  -- The result for a profile that was looked up.
  abbrev pub met : Option ClientPolicyProfile → Bool
  met none = false
  met (some profile) = meets profile

  -- The profile is there, in the realm of the client, and is met.
  abbrev pub satisfies : ℕ → Bool
  satisfies profile_id = met (find_profile ext client context profiles profile_id)

  -- The policy is disabled, or one of its conditions fails, or all its profiles are met.
  abbrev pub complies : ClientPolicy → Bool
  complies policy =
      not policy.enabled
      || (not (applies ext client context profiles policy) || all satisfies policy.profile_ids)

  no_violation-add_found :
      (policy : ClientPolicy) (profile : ClientPolicyProfile) (o : Option (String × String))
      (r : ClientPolicyEvaluation)
      → no_violation (add_found ext client context profiles policy profile o r)
        ≡ (no_violation r && is_null o)
  no_violation-add_found policy profile none r = ground arith
  no_violation-add_found policy profile (some (kind, message)) r = ground (
    arith,
    is_empty-append r.violations (record {
      policy = policy.name;
      profile = profile.name;
      executor = kind;
      message = message;
    }),
  )

  run_executors_lem :
      (policy : ClientPolicy) (profile : ClientPolicyProfile) (es : List ClientPolicyExecutor)
      (r : ClientPolicyEvaluation)
      → no_violation (run_executors ext client context profiles policy profile es r)
        ≡ (no_violation r && all (λ e. is_null (executor_violation ext e client)) es)
  unfolding run_executors
  run_executors_lem policy profile [] r = ground arith
  run_executors_lem policy profile (e ∷ es) r =
      let o = executor_violation ext e client in
      let r' = add_found ext client context profiles policy profile o r in
      ground
        (arith, run_executors_lem policy profile es r', no_violation-add_found policy profile o r)

  no_violation-match_profile :
      (profile : ClientPolicyProfile) (r : ClientPolicyEvaluation)
      → no_violation (match_profile ext client context profiles profile r) ≡ no_violation r
  no_violation-match_profile profile r = ground arith

  run_profile_lem :
      (policy : ClientPolicy) (id : ℕ) (o : Option ClientPolicyProfile) (r : ClientPolicyEvaluation)
      → no_violation (run_profile ext client context profiles policy id o r)
        ≡ (no_violation r && met o)
  unfolding run_profile
  run_profile_lem policy id none r =
      ground (
        arith,
        is_empty-append r.violations (missing_profile ext client context profiles policy id),
      )
  run_profile_lem policy id (some profile) r = ground (
    arith,
    run_executors_lem policy profile profile.executors
        (match_profile ext client context profiles profile r),
    no_violation-match_profile profile r,
  )

  run_profiles_lem :
      (policy : ClientPolicy) (ids : List ℕ) (r : ClientPolicyEvaluation)
      → no_violation (run_profiles ext client context profiles policy ids r)
        ≡ (no_violation r && all satisfies ids)
  unfolding run_profiles
  run_profiles_lem policy [] r = ground arith
  run_profiles_lem policy (id ∷ ids) r =
      let o = find_profile ext client context profiles id in
      let r' = run_profile ext client context profiles policy id o r in
      ground (arith, run_profiles_lem policy ids r', run_profile_lem policy id o r)

  run_policies_lem :
      (ps : List ClientPolicy) (r : ClientPolicyEvaluation)
      → no_violation (run_policies ext client context profiles ps r) ≡ (
          no_violation r
          && all
              (λ p. not (applies ext client context profiles p) || all satisfies p.profile_ids)
              ps)
  unfolding run_policies
  run_policies_lem [] r = ground arith
  run_policies_lem (p ∷ ps) r =
      let r' = record r { matched_policies = r.matched_policies ++ p.name ∷ [] } in
      let ran = run_profiles ext client context profiles p p.profile_ids r' in
      elim (Bool-cases (applies ext client context profiles p)) [
        | inl applied ↦
            ground (arith, applied, run_policies_lem ps ran, run_profiles_lem p p.profile_ids r')
        | inr skipped ↦ ground (arith, skipped, run_policies_lem ps r)
      ]

  succeeds-answer :
      (r : ClientPolicyEvaluation) (vs : List ClientPolicyViolation)
      → succeeds (answer ext client context profiles r vs) ≡ is_empty vs
  succeeds-answer r [] = refl
  succeeds-answer r (v ∷ vs) = refl

  -- The client is let through exactly where it complies with every policy: where each enabled policy
  -- whose conditions all hold names only profiles of the client's realm, none of whose executors is
  -- violated. Neither the order of the policies nor their priority matters for that.
  pub enforce_client_policies_lem :
      (policies : List ClientPolicy)
      → succeeds (enforce_client_policies ext client context profiles policies)
        ≡ all complies policies
  unfolding enforce_client_policies evaluate_client_policies
  enforce_client_policies_lem policies =
      let enabled = filter (λ p. p.enabled) policies in
      let result = run_policies ext client context profiles (sort enabled) no_findings in
      let f : ClientPolicy → Bool =
        λ p. not (applies ext client context profiles p) || all satisfies p.profile_ids in
      rw
        (
          succeeds-answer (record result { allowed = is_empty result.violations })
              result.violations,
          run_policies_lem (sort enabled) no_findings,
          all-sort f enabled,
          all-filter f (λ p. p.enabled) policies,
        )
        refl
