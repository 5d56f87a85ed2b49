-- ===== src/Endpoints/Permissions/Granted.antt =====
-- What stands behind a permission that is granted, for `evaluate_requests` and for the caller that
-- compares the number of permissions with the number of requests.
use mathlib.Core.List.{Memᴰ}
use open_id_connect_wasi_hub.Prelude.{
  ℕ, ◌+◌, ◌≤◌, ◌≡◌, refl, sym, arith, List, [], ◌∷◌, some, Bool, true, ◌==◌, nat_eq, nat_beq_iff,
  string_eq, filter, any, all, contains, length, Bool-cases, Option-cases, inl, inr,
}
use open_id_connect_wasi_hub.Models.{ProtectedResource, AuthorizationPermission}
use open_id_connect_wasi_hub.Db.Tables.{Db}
use open_id_connect_wasi_hub.Db.Authorization.{find_resource, list_policies, list_permissions}
use open_id_connect_wasi_hub.Policies.Permissions.{JsonHost, applies_to}
use open_id_connect_wasi_hub.Policies.Permissions.Strategies.{
  carried, yes_votes, no_votes, decide_lem,
}
use open_id_connect_wasi_hub.Endpoints.Permissions.{
  GrantedPermission, PermissionRequest, Requester, context_of, resource_of, answers, is_allowed,
  permit, evaluate_requests,
}

module _ {A : Type 0} (p : A → Bool) where
  any-Memᴰ : (xs : List A) → any p xs ≡ true → (x : A) × Memᴰ x xs × (p x ≡ true)
  any-Memᴰ [] h = absurd (ground arith)
  any-Memᴰ (x ∷ xs) h = elim (Bool-cases (p x)) [
    | inl e ↦ (x, Memᴰ.head refl, e)
    | inr e ↦ let (y, m, holds) = any-Memᴰ xs (ground arith) in (y, Memᴰ.tail m, holds)
  ]

  Memᴰ-filter : (x : A) (xs : List A) → Memᴰ x (filter p xs) → Memᴰ x xs × (p x ≡ true)
  Memᴰ-filter x [] m = absurd (elim m [ ])
  Memᴰ-filter x (y ∷ ys) m = elim (Bool-cases (p y)) [
    | inl e ↦ elim (rw e at m) [
      | Memᴰ.head same ↦ (Memᴰ.head same, rw same e)
      | Memᴰ.tail later ↦ let (among, holds) = Memᴰ-filter x ys later in (Memᴰ.tail among, holds)
    ]
    | inr e ↦ let (among, holds) = Memᴰ-filter x ys (rw e at m) in (Memᴰ.tail among, holds)
  ]

module _ (host : JsonHost) (server_id : ℕ) (requester : Requester) (db : Db) where
  -- The answers that a permission is decided on.
  abbrev pub answers_on : ProtectedResource → ℕ → AuthorizationPermission → List Bool
  answers_on resource now permission =
      answers host (context_of requester resource now db)
        (list_policies server_id db.authorization_policies) permission

  -- At the time `now`, a permission of the server covers the request, and its vote is carried.
  pub record IsPermitted (now : ℕ) (request : PermissionRequest) : Type 0 where
    pub resource : ProtectedResource
    pub found : find_resource request.0 db.authorization_resources ≡ some resource
    pub of_server : resource.resource_server_id ≡ server_id
    pub registered : all (λ scope. contains resource.scopes scope) request.1 ≡ true
    pub permission : AuthorizationPermission
    pub listed : Memᴰ permission db.authorization_permissions
    pub same_server : permission.resource_server_id ≡ server_id
    pub applies : applies_to permission request.0 request.1 ≡ true
    pub agreed :
        carried permission.decision_strategy
          (yes_votes (answers_on resource now permission))
          (no_votes (answers_on resource now permission))
        ≡ true

  resource_of_sound :
      (id : ℕ) (resource : ProtectedResource)
      → resource_of server_id id db ≡ some resource
      → (find_resource id db.authorization_resources ≡ some resource)
        × (resource.resource_server_id ≡ server_id)
  unfolding resource_of
  resource_of_sound id resource h =
      elim (Option-cases (find_resource id db.authorization_resources)) [
        | inl absent ↦ absurd (ground (arith, absent))
        | inr (r, found) ↦ elim (Bool-cases (r.resource_server_id == server_id)) [
          | inl own ↦
              let same : r ≡ resource = ground (arith, found, own) in
              let equal : r.resource_server_id ≡ server_id =
                ground (arith, nat_beq_iff r.resource_server_id server_id) in
              (rw (sym same) found, rw (sym same) equal)
          | inr foreign ↦ absurd (ground (arith, found, foreign))
        ]
      ]

  is_allowed_sound :
      (resource : ProtectedResource) (now : ℕ) (request : PermissionRequest)
      → is_allowed host
          (context_of requester resource now db)
          (list_permissions server_id db.authorization_permissions)
          (list_policies server_id db.authorization_policies)
          request
        ≡ true
      → (permission : AuthorizationPermission) × Memᴰ permission db.authorization_permissions
        × (permission.resource_server_id ≡ server_id)
        × (applies_to permission request.0 request.1 ≡ true)
        × (carried permission.decision_strategy
              (yes_votes (answers_on resource now permission))
              (no_votes (answers_on resource now permission))
            ≡ true)
  unfolding is_allowed list_permissions
  is_allowed_sound resource now (id, scopes) h =
      let (permission, m, decided) = any-Memᴰ _ _ h in
      let (listed, applies) = Memᴰ-filter _ permission _ m in
      let (among, own) = Memᴰ-filter _ permission _ listed in
      (
        permission,
        among,
        ground (arith, nat_beq_iff permission.resource_server_id server_id),
        applies,
        rw (sym (decide_lem permission (answers_on resource now permission))) decided,
      )

  -- What is granted names the resource of the request, and is permitted.
  pub permit_sound :
      (now : ℕ) (request : PermissionRequest) (granted : GrantedPermission)
      → permit host server_id requester db now request ≡ some granted
      → IsPermitted now request × (granted.scopes ≡ request.1)
  unfolding permit
  permit_sound now (id, scopes) granted h = elim (Option-cases (resource_of server_id id db)) [
    | inl absent ↦ absurd (ground (arith, absent))
    | inr (resource, found) ↦
        let body = rw (permit, found) at h in
        elim (Bool-cases (all (λ scope. contains resource.scopes scope) scopes)) [
          | inr unknown ↦ absurd (ground (arith, rw unknown at body))
          | inl known ↦
              let voted = rw known at body in
              elim (Bool-cases (
                is_allowed host (context_of requester resource now db)
                  (list_permissions server_id db.authorization_permissions)
                  (list_policies server_id db.authorization_policies) (id, scopes))) [
                    | inr denied ↦ absurd (ground (arith, rw denied at voted))
                    | inl allowed ↦
                        let (row, own) = resource_of_sound id resource found in
                        let (permission, listed, same, applies, agreed) =
                          is_allowed_sound resource now (id, scopes) allowed in
                        let given = rw allowed at voted in
                        (
                          record {
                            resource = resource;
                            found = row;
                            of_server = own;
                            registered = known;
                            permission = permission;
                            listed = listed;
                            same_server = same;
                            applies = applies;
                            agreed = agreed;
                          },
                          ground (arith, given),
                        )
                  ]
        ]
  ]

  module _ (clock : ℕ → ℕ) where
    -- Each request is permitted at the time that is read in its turn.
    abbrev pub PermittedInTurn : ℕ → List PermissionRequest → Type 0
    PermittedInTurn turn [] = Unit
    PermittedInTurn turn (request ∷ requested) =
        IsPermitted (clock turn) request × PermittedInTurn (turn + 1) requested

    -- No more is granted than was asked for.
    pub length-evaluate_requests :
        (turn : ℕ) (requested : List PermissionRequest)
        → length (evaluate_requests host server_id requester db clock turn requested)
          ≤ length requested
    unfolding evaluate_requests
    length-evaluate_requests turn [] = omega arith
    length-evaluate_requests turn (request ∷ requested) =
        elim (Option-cases (permit host server_id requester db (clock turn) request)) [
          | inl e ↦
              rw (evaluate_requests, e)
                (omega (arith, length-evaluate_requests (turn + 1) requested))
          | inr (granted, e) ↦
              rw (evaluate_requests, e)
                (omega (arith, length-evaluate_requests (turn + 1) requested))
        ]

    -- Where as many permissions are granted as were requested, which is what the ticket grant asks
    -- for, each request is permitted at the reading of the clock in its own turn: its resource belongs
    -- to the server and has the scopes, and a permission of the server that covers it is carried by its
    -- policies.
    pub evaluate_requests_complete :
        (turn : ℕ) (requested : List PermissionRequest)
        → length (evaluate_requests host server_id requester db clock turn requested)
          ≡ length requested
        → PermittedInTurn turn requested
    unfolding evaluate_requests
    evaluate_requests_complete turn [] h = tt
    evaluate_requests_complete turn (request ∷ requested) h =
        elim (Option-cases (permit host server_id requester db (clock turn) request)) [
          | inl e ↦
              let fewer = rw (evaluate_requests, e) at h in
              absurd (omega (arith, length-evaluate_requests (turn + 1) requested, fewer))
          | inr (granted, e) ↦
              let rest = rw (evaluate_requests, e) at h in
              (
                (permit_sound (clock turn) request granted e).0,
                evaluate_requests_complete (turn + 1) requested (omega (arith, rest)),
              )
        ]
