-- ===== src/Actions/Needed.antt =====
-- Which actions are pending, described one kind at a time.
use open_id_connect_wasi_hub.Prelude.{
  ℕ, ◌≡◌, refl, ap, ◌∙◌, List, [], ◌∷◌, ◌++◌, Bool, true, false, not, ◌==◌, ◌&&◌, ◌||◌, arith,
  contains, filter, if◌then◌else◌, Bool-cases, inl, inr,
}
use open_id_connect_wasi_hub.Models.{User}
use open_id_connect_wasi_hub.Actions.{
  RequiredActionKind, update_password, verify_email, update_profile, configure_mfa, accept_terms,
  kind_eq, kind_beq_iff, AuthenticationFlowConfig,
}
use open_id_connect_wasi_hub.Actions.Store.{ActionTables, listed, has_accepted_terms, has_mfa}
use open_id_connect_wasi_hub.Actions.Pending.{
  profile_complete, has_terms, is_open, retained, push_when, with_required, position, insert_by,
  sort_by_key, keep_unless_repeated, dedup, gathered, pending_actions,
}

module _ (k : RequiredActionKind) where
  pub contains-append :
      (xs ys : List RequiredActionKind) → contains (xs ++ ys) k ≡ (contains xs k || contains ys k)
  contains-append [] ys = refl
  contains-append (x ∷ xs) ys = ground (arith, contains-append xs ys)

  contains-push_when :
      (condition : Bool) (action : RequiredActionKind) (xs : List RequiredActionKind)
      → contains (push_when condition action xs) k ≡ (contains xs k || condition && action == k)
  contains-push_when true action xs = ground (arith, contains-append xs (action ∷ []))
  contains-push_when false action xs = ground arith

  contains-filter :
      (p : RequiredActionKind → Bool) (xs : List RequiredActionKind)
      → contains (filter p xs) k ≡ (contains xs k && p k)
  contains-filter p [] = refl
  contains-filter p (x ∷ xs) = elim (Bool-cases (x == k)) [
    | inl hit ↦
        let same = ap p ((kind_beq_iff x k).0 hit) in
        ground (arith, hit, same, contains-filter p xs)
    | inr miss ↦ ground (arith, miss, contains-filter p xs)
  ]

  contains-insert_by :
      (key : RequiredActionKind → ℕ) (x : RequiredActionKind) (xs : List RequiredActionKind)
      → contains (insert_by key x xs) k ≡ (x == k || contains xs k)
  unfolding insert_by
  contains-insert_by key x [] = refl
  contains-insert_by key x (y ∷ ys) = ground (arith, contains-insert_by key x ys)

  contains-sort_by_key :
      (key : RequiredActionKind → ℕ) (xs : List RequiredActionKind)
      → contains (sort_by_key key xs) k ≡ contains xs k
  unfolding sort_by_key
  contains-sort_by_key key [] = refl
  contains-sort_by_key key (x ∷ xs) =
      ground (arith, contains-insert_by key x (sort_by_key key xs), contains-sort_by_key key xs)

  contains-keep_unless_repeated :
      (x : RequiredActionKind) (xs : List RequiredActionKind)
      → contains (keep_unless_repeated x xs) k ≡ (x == k || contains xs k)
  unfolding keep_unless_repeated
  contains-keep_unless_repeated x [] = refl
  contains-keep_unless_repeated x (y ∷ ys) = elim (Bool-cases (x == y)) [
    | inl hit ↦ let same = ap (λ z. z == k) ((kind_beq_iff x y).0 hit) in ground (arith, hit, same)
    | inr miss ↦ ground (arith, miss)
  ]

  contains-dedup : (xs : List RequiredActionKind) → contains (dedup xs) k ≡ contains xs k
  unfolding dedup
  contains-dedup [] = refl
  contains-dedup (x ∷ xs) =
      ground (arith, contains-keep_unless_repeated x (dedup xs), contains-dedup xs)

-- What a user has to do: an action that an administrator listed for the user, or that the realm's flow
-- requires, until it is done.
unfoldable pub is_needed :
    AuthenticationFlowConfig → User → ActionTables → RequiredActionKind → Bool
is_needed flow user tables update_password =
    contains (listed user.id tables.required_actions) update_password
is_needed flow user tables verify_email =
    (contains (listed user.id tables.required_actions) verify_email
      || flow.enabled && flow.require_verified_email)
    && not user.email_verified
is_needed flow user tables update_profile =
    (contains (listed user.id tables.required_actions) update_profile
      || flow.enabled && flow.require_complete_profile)
    && not (profile_complete user)
is_needed flow user tables configure_mfa =
    (contains (listed user.id tables.required_actions) configure_mfa
      || flow.enabled && flow.require_mfa)
    && not (has_mfa user.id tables)
is_needed flow user tables accept_terms =
    (contains (listed user.id tables.required_actions) accept_terms || flow.enabled)
    && has_terms flow
    && not (has_accepted_terms user.id flow.terms.version tables.terms_acceptances)

module _ (flow : AuthenticationFlowConfig) (user : User) (tables : ActionTables) where
  abbrev accepted : Bool
  accepted = has_accepted_terms user.id flow.terms.version tables.terms_acceptances

  contains-retained :
      (k : RequiredActionKind)
      → contains (retained flow user tables) k ≡ (
          contains (listed user.id tables.required_actions) k
          && is_open flow user tables k
          && not (has_terms flow && accepted && k == accept_terms))
  unfolding retained
  contains-retained k =
      let pending = filter (is_open flow user tables) (listed user.id tables.required_actions) in
      ground (
        arith,
        contains-filter k (is_open flow user tables) (listed user.id tables.required_actions),
        contains-filter k (λ action. not (action == accept_terms)) pending,
      )

  contains-with_required :
      (k : RequiredActionKind) (pending : List RequiredActionKind)
      → contains (with_required flow user tables pending) k ≡ (
          contains pending k
          || (flow.require_verified_email && not user.email_verified) && verify_email == k
          || (flow.require_complete_profile && not (profile_complete user)) && update_profile == k
          || (flow.require_mfa && not (has_mfa user.id tables)) && configure_mfa == k
          || (has_terms flow && not accepted) && accept_terms == k)
  unfolding with_required
  contains-with_required k pending =
      let verify = flow.require_verified_email && not user.email_verified in
      let profile = flow.require_complete_profile && not (profile_complete user) in
      let mfa = flow.require_mfa && not (has_mfa user.id tables) in
      let verified = push_when verify verify_email pending in
      let profiled = push_when profile update_profile verified in
      let secured = push_when mfa configure_mfa profiled in
      ground (
        arith,
        contains-push_when k verify verify_email pending,
        contains-push_when k profile update_profile verified,
        contains-push_when k mfa configure_mfa profiled,
        contains-push_when k (has_terms flow && not accepted) accept_terms secured,
      )

  contains-gathered_if :
      (k : RequiredActionKind)
      → contains (gathered flow user tables) k ≡ (
          if flow.enabled
          then contains (with_required flow user tables (retained flow user tables)) k
          else contains (retained flow user tables) k)
  unfolding gathered
  contains-gathered_if k = elim (Bool-cases flow.enabled) [
    | inl on ↦ rw on refl
    | inr off ↦ rw off refl
  ]

  contains-gathered :
      (k : RequiredActionKind)
      → contains (gathered flow user tables) k ≡ is_needed flow user tables k
  unfolding is_needed is_open
  contains-gathered update_password =
      rw
        (
          contains-gathered_if update_password,
          contains-with_required update_password (retained flow user tables),
          contains-retained update_password,
        )
        (ground arith)
  contains-gathered verify_email =
      rw
        (
          contains-gathered_if verify_email,
          contains-with_required verify_email (retained flow user tables),
          contains-retained verify_email,
        )
        (ground arith)
  contains-gathered update_profile =
      rw
        (
          contains-gathered_if update_profile,
          contains-with_required update_profile (retained flow user tables),
          contains-retained update_profile,
        )
        (ground arith)
  contains-gathered configure_mfa =
      rw
        (
          contains-gathered_if configure_mfa,
          contains-with_required configure_mfa (retained flow user tables),
          contains-retained configure_mfa,
        )
        (ground arith)
  contains-gathered accept_terms =
      rw
        (
          contains-gathered_if accept_terms,
          contains-with_required accept_terms (retained flow user tables),
          contains-retained accept_terms,
        )
        (ground arith)

  -- An action is pending exactly if it is needed: an administrator listed it for the user, or the
  -- realm's flow is enabled and requires it, and the user has not done it yet. The order of the
  -- actions and what is stored twice do not matter.
  pub contains-pending_actions :
      (k : RequiredActionKind)
      → contains (pending_actions flow user tables) k ≡ is_needed flow user tables k
  unfolding pending_actions
  contains-pending_actions k =
      contains-dedup k (sort_by_key (position flow.action_order) (gathered flow user tables))
      ∙ contains-sort_by_key k (position flow.action_order) (gathered flow user tables)
      ∙ contains-gathered k
