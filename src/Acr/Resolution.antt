-- ===== src/Acr/Resolution.antt =====
-- What the resolution of requested assurance levels answers.
use open_id_connect_wasi_hub.Prelude.{
  ◌≡◌, ◌≤◌, ◌≢◌, ◌↔◌, ◌⊎◌, inl, inr, refl, String, List, [], ◌∷◌, ◌++◌, true, false, All, arith,
  Bool-cases,
}
use open_id_connect_wasi_hub.Acr.{
  ResolvedAcrAmr, satisfied, cannot_satisfy, acr_level, achieved_acr, methods_of, satisfies,
  resolve_requested, resolve_acr_amr,
}

-- The value is requested, can be satisfied, and no value before it can.
pub record IsFirstSatisfied (achieved : String) (requested : List String) (acr : String)
    : Type 0 where
  pub earlier : List String
  pub later : List String
  pub position : requested ≡ earlier ++ acr ∷ later
  pub satisfied_here : satisfies achieved acr ≡ true
  pub unsatisfied_earlier : All (λ a. satisfies achieved a ≡ false) earlier

resolve_requested_sound :
    (achieved : String) (amr all_requested requested : List String) (r : ResolvedAcrAmr)
    → resolve_requested achieved amr all_requested requested ≡ satisfied r
    → IsFirstSatisfied achieved requested r.acr × (r.amr ≡ amr)
unfolding resolve_requested
resolve_requested_sound achieved amr all_requested [] r h = cc
resolve_requested_sound achieved amr all_requested (x ∷ rest) r h =
    elim (Bool-cases (satisfies achieved x)) [
      | inl holds ↦
          let same : r ≡ record { acr = x; amr = amr } = ground arith in
          rw same (
            record {
              earlier = [];
              later = rest;
              position = refl;
              satisfied_here = holds;
              unsatisfied_earlier = tt;
            },
            refl,
          )
      | inr fails ↦
          let (first, same) =
            resolve_requested_sound achieved amr all_requested rest r (ground arith) in
          (
            record {
              earlier = x ∷ first.earlier;
              later = first.later;
              position = rw (← first.position) refl;
              satisfied_here = first.satisfied_here;
              unsatisfied_earlier = (fails, first.unsatisfied_earlier);
            },
            same,
          )
    ]

achieved_acr_level : (auth_method : String) → acr_level (achieved_acr auth_method) ≤ 2
unfolding acr_level achieved_acr
achieved_acr_level auth_method = ground arith

-- The assurance that is answered is the achieved one where none was requested, and else the first
-- requested value that the achieved one satisfies. The methods are those of the authentication.
pub resolve_acr_amr_sound :
    (auth_method : String) (requested : List String) (r : ResolvedAcrAmr)
    → resolve_acr_amr auth_method requested ≡ satisfied r
    → (r.amr ≡ methods_of auth_method)
      × (((requested ≡ []) × (r.acr ≡ achieved_acr auth_method))
          ⊎ IsFirstSatisfied (achieved_acr auth_method) requested r.acr)
unfolding resolve_acr_amr
resolve_acr_amr_sound auth_method [] r h = (ground arith, inl (refl, ground arith))
resolve_acr_amr_sound auth_method (x ∷ xs) r h =
    let (first, same) =
      resolve_requested_sound (achieved_acr auth_method) (methods_of auth_method) (x ∷ xs) (x ∷ xs)
        r h in
    (same, inr first)

satisfies-level :
    (achieved requested : String)
    → satisfies achieved requested ≡ true
    → acr_level requested ≤ acr_level achieved
unfolding satisfies
satisfies-level achieved requested h = ground arith

-- The answer never claims a level above the one that the authentication achieved.
pub resolve_acr_amr-level :
    (auth_method : String) (requested : List String) (r : ResolvedAcrAmr)
    → resolve_acr_amr auth_method requested ≡ satisfied r
    → acr_level r.acr ≤ acr_level (achieved_acr auth_method)
resolve_acr_amr-level auth_method requested r h =
    elim ((resolve_acr_amr_sound auth_method requested r h).1) [
      | inl (_, same) ↦ rw same (omega arith)
      | inr first ↦ satisfies-level (achieved_acr auth_method) r.acr first.satisfied_here
    ]

resolve_requested_fails :
    (achieved : String) (amr all_requested requested : List String)
    → All (λ a. satisfies achieved a ≡ false) requested
    → resolve_requested achieved amr all_requested requested ≡ cannot_satisfy all_requested achieved
unfolding resolve_requested
resolve_requested_fails achieved amr all_requested [] h = refl
resolve_requested_fails achieved amr all_requested (x ∷ rest) (fails, fails_later) =
    ground (arith, resolve_requested_fails achieved amr all_requested rest fails_later)

resolve_requested_fails_only :
    (achieved : String) (amr all_requested requested p : List String) (q : String)
    → resolve_requested achieved amr all_requested requested ≡ cannot_satisfy p q
    → All (λ a. satisfies achieved a ≡ false) requested
unfolding resolve_requested
resolve_requested_fails_only achieved amr all_requested [] p q h = tt
resolve_requested_fails_only achieved amr all_requested (x ∷ rest) p q h =
    elim (Bool-cases (satisfies achieved x)) [
      | inl holds ↦ absurd (ground arith)
      | inr fails ↦
          (fails, resolve_requested_fails_only achieved amr all_requested rest p q (ground arith))
    ]

-- The request fails exactly where values were requested and none of them can be satisfied; the error
-- names those values and the achieved level.
pub resolve_acr_amr_fails_iff :
    (auth_method : String) (requested : List String)
    → (resolve_acr_amr auth_method requested ≡ cannot_satisfy requested (achieved_acr auth_method))
      ↔ ((requested ≢ []) × All (λ a. satisfies (achieved_acr auth_method) a ≡ false) requested)
unfolding resolve_acr_amr
resolve_acr_amr_fails_iff auth_method [] = (λ h. cc, λ (nonempty, _). absurd (nonempty refl))
resolve_acr_amr_fails_iff auth_method (x ∷ xs) =
    let achieved = achieved_acr auth_method in
    (
      λ h. (
        λ e. absurd (ground arith),
        resolve_requested_fails_only achieved (methods_of auth_method) (x ∷ xs) (x ∷ xs) (x ∷ xs)
            achieved h,
      ),
      λ (_, h). resolve_requested_fails achieved (methods_of auth_method) (x ∷ xs) (x ∷ xs) h,
    )
