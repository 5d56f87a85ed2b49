-- ===== src/Endpoints/UmaTicket.antt =====
-- `uma_ticket_grant` and `issue_rpt` of crates/oidc-oidc/src/endpoints/authorization_services.rs: a
-- permission ticket, or a list of permissions, becomes a requesting party token. There is no
-- transaction: what is written before an error stays.
pub mod SingleUse
use Prim.Native.Char.{code}
use Prim.Native.String
use open_id_connect_wasi_hub.Prelude.{
  ℕ, ◌+◌, nat_beq, filter, is_blank, is_whitespace, String, List, [], ◌∷◌, ◌++◌, Option, none, some,
  Bool, true, false, not, ◌&&◌, ◌||◌, ◌==◌, nat_eq, string_eq, option_eq, any, map, length,
  is_empty, is_null, if◌then◌else◌, join_spaces,
}
use open_id_connect_wasi_hub.Error.{
  Result, ok, err, ok_or, guard, ◌>>=◌, ◌>>◌, OidcError, invalid_input, invalid_subject_token,
  authorization_denied, not_found,
}
use open_id_connect_wasi_hub.Token.{sha2_256_hex}
use open_id_connect_wasi_hub.Models.{Json, Client, User, RptGrant}
use open_id_connect_wasi_hub.Db.Tables.{Db}
use open_id_connect_wasi_hub.Db.Directory.{
  find_user_by_id, find_client_by_id, find_client_by_client_id_in_realm,
}
use open_id_connect_wasi_hub.Db.Rpts.{create_rpt, find_active_rpt, revoke_rpt}
use open_id_connect_wasi_hub.Db.Authorization.{find_active_ticket, consume_ticket}
use open_id_connect_wasi_hub.Flows.State.{OidcState}
use open_id_connect_wasi_hub.Flows.Claims.{token_type_of}
use open_id_connect_wasi_hub.Policies.Permissions.{JsonHost, split}
use open_id_connect_wasi_hub.Endpoints.TokenState.{Inspector, AccessTokenClaims}
use open_id_connect_wasi_hub.Endpoints.Permissions.{
  GrantedPermission, PermissionRequest, Requester, evaluate_requests,
}

-- JSON that is built and read, the claims of a token, the rows of the role query, and the order in
-- which a `HashSet` gives its members.
pub record UmaHost : Type 0 where
  pub json : JsonHost
  pub inspector : Inspector
  pub json_array : List Json → Json
  pub permission_json : GrantedPermission → Json
  pub with_scopes : Json → List Json → Json
  pub rpt_claims : Json → ℕ → Json
  pub effective_roles : ℕ → Db → List (String × Option String)
  pub distinct : List String → List String

-- The parameters of the token request.
pub record UmaRequest : Type 0 where
  pub claim_token : Option String
  pub claim_token_format : Option String
  pub rpt : Option String
  pub ticket : Option String
  pub audience : Option String
  pub permission : Option String

-- The clock of the program and of the database at each place, and the new identifier.
pub record UmaDraw : Type 0 where
  pub connect : Result (Unit {0})
  pub rpt_found_at : ℕ
  pub ticket_found_at : ℕ
  pub clock : ℕ → ℕ
  pub consumed_at : ℕ
  pub rpt_id : ℕ
  pub issued_at : ℕ

pub record RptResponse : Type 0 where
  pub access_token : String
  pub token_type : String
  pub expires_in : ℕ
  pub scope : String
  pub permissions : Json
  pub upgraded : Bool

-- What is asked for, of which server, and the ticket that is used for it.
pub record Selection : Type 0 where
  pub resource_server_id : ℕ
  pub requested : List PermissionRequest
  pub ticket_id : Option ℕ

pub record Approved : Type 0 where
  pub user : User
  pub claims : AccessTokenClaims
  pub previous : Option RptGrant
  pub selection : Selection

-- `split_once('#')`, with nothing after a `#` that is missing.
before_hash : String → String
before_hash String.[] = ""
before_hash (String.◌∷◌ c s) =
    let rest = before_hash s in if nat_beq (code c) 35 then "" else String.◌∷◌ c rest

after_hash : String → String
after_hash String.[] = ""
after_hash (String.◌∷◌ c s) = let rest = after_hash s in if nat_beq (code c) 35 then s else rest

trim_start : String → String
trim_start String.[] = ""
trim_start (String.◌∷◌ c s) =
    let rest = trim_start s in if is_whitespace (code c) then rest else String.◌∷◌ c s

trim_end : String → String
trim_end String.[] = ""
trim_end (String.◌∷◌ c s) =
    let rest = trim_end s in if is_whitespace (code c) && rest == "" then "" else String.◌∷◌ c rest

split_whitespace : String → List String
split_whitespace s = filter (λ word. not (word == "")) (split is_whitespace s)

unfoldable pub parse_part : (String → Option ℕ) → String → Result PermissionRequest
unfolding before_hash after_hash trim_start trim_end split_whitespace
parse_part parse_uuid part = do
  id ←
      ok_or (parse_uuid (trim_start (trim_end (before_hash part))))
        (invalid_input "permission resource must be a UUID")
  ok (id, split_whitespace (after_hash part))

parse_parts : (String → Option ℕ) → List String → Result (List PermissionRequest)
parse_parts parse_uuid [] = ok []
parse_parts parse_uuid (part ∷ parts) = do
  request ← parse_part parse_uuid part
  requested ← parse_parts parse_uuid parts
  ok (request ∷ requested)

unfoldable pub parse_permission_parameter :
    (String → Option ℕ) → Option String → Result (List PermissionRequest)
unfolding parse_parts
parse_permission_parameter parse_uuid none = ok []
parse_permission_parameter parse_uuid (some value) =
    parse_parts parse_uuid (filter (λ part. not (is_blank part)) (split (λ c. nat_beq c 44) value))

module _ (st : OidcState) (host : UmaHost) where
  member : Json → String → Option (List Json)
  member value name = elim (host.json.get value name) [
    | none ↦ none
    | some v ↦ host.json.as_array v
  ]

  rsid_of : Json → Option String
  rsid_of value = elim (host.json.get value "rsid") [ none ↦ none | some v ↦ host.json.as_str v ]

  merge_scopes : List Json → List Json → List Json
  merge_scopes scopes [] = scopes
  merge_scopes scopes (scope ∷ previous) =
      merge_scopes
        (if any (λ known. host.json.values_equal known scope) scopes
          then scopes
          else scopes ++ scope ∷ [])
        previous

  list_or_empty : Option (List Json) → List Json
  list_or_empty none = []
  list_or_empty (some values) = values

  add_scopes : Json → Json → Json
  unfolding merge_scopes list_or_empty member
  add_scopes previous existing = elim (member existing "scopes") [
    | none ↦ existing
    | some scopes ↦
        host.with_scopes existing (merge_scopes scopes (list_or_empty (member previous "scopes")))
  ]

  -- Into the first permission on the same resource, or at the end.
  merge_one : String → Json → List Json → List Json
  unfolding add_scopes rsid_of
  merge_one resource_id previous [] = previous ∷ []
  merge_one resource_id previous (permission ∷ current) =
      let rest = merge_one resource_id previous current in
      if rsid_of permission == some resource_id
      then add_scopes previous permission ∷ current
      else permission ∷ rest

  merge_all : List Json → List Json → List Json
  unfolding merge_one rsid_of
  merge_all current [] = current
  merge_all current (previous ∷ rest) =
      merge_all
        (elim (rsid_of previous) [
          | none ↦ current
          | some resource_id ↦ merge_one resource_id previous current
        ])
        rest

  unfoldable pub merge_permissions : List Json → Json → List Json
  unfolding merge_all list_or_empty
  merge_permissions current previous =
      merge_all current (list_or_empty (host.json.as_array previous))

  texts_of : List Json → List String
  texts_of [] = []
  texts_of (value ∷ values) = elim (host.json.as_str value) [
    | none ↦ texts_of values
    | some text ↦ text ∷ texts_of values
  ]

  scopes_of : List Json → List String
  unfolding texts_of member list_or_empty
  scopes_of [] = []
  scopes_of (permission ∷ permissions) =
      texts_of (list_or_empty (member permission "scopes")) ++ scopes_of permissions

  -- The token for the resource server that is asked for.
  unfoldable pub sign_rpt :
      Client → ℕ → ℕ → List Json → Option String → UmaDraw → Db → Result String
  unfolding scopes_of
  sign_rpt client server_id subject_id permissions dpop_jkt draw db = do
    guard (not (is_empty permissions)) (authorization_denied "no permissions were granted")
    server ← ok_or (find_client_by_id server_id db) (not_found "resource server")
    service ← st.token_service_for_realm client.realm_id
    service.issue_access_token_with_extra (record {
      subject = st.external.uuid_text subject_id;
      audience = client.client_id;
      scopes = host.distinct (scopes_of permissions);
      dpop_jkt = dpop_jkt;
      authorization_details = none;
      resource = some (server.client_id ∷ []);
      extra = record {
        custom_claims = host.rpt_claims (host.json_array permissions) draw.rpt_id;
        additional_audiences = [];
        organization = none;
        realm_access = none;
        resource_access = none;
      };
    })

  unfoldable pub issue_rpt :
      Client → ℕ → ℕ → List Json → Option String → Bool → UmaDraw → Db → Result (RptResponse × Db)
  unfolding scopes_of
  issue_rpt client server_id subject_id permissions dpop_jkt upgraded draw db = do
    token ← sign_rpt client server_id subject_id permissions dpop_jkt draw db
    ok (
      record {
        access_token = token;
        token_type = token_type_of dpop_jkt;
        expires_in = 900;
        scope = join_spaces (host.distinct (scopes_of permissions));
        permissions = host.json_array permissions;
        upgraded = upgraded;
      },
      record db {
        authorization_rpt_grants =
            create_rpt
              (record {
                id = draw.rpt_id;
                realm_id = client.realm_id;
                resource_server_id = server_id;
                subject_id = subject_id;
                client_id = client.id;
                permissions = host.json_array permissions;
                revoked = false;
                expires_at = draw.issued_at + 900;
                created_at = draw.issued_at;
              })
              db.authorization_rpt_grants;
      },
    )

  known_claims : String → String → Result AccessTokenClaims
  known_claims token message = elim (host.inspector.verify_access_token_with_claims token) [
    | ok claims ↦ ok claims
    | err e ↦ err (invalid_subject_token message)
  ]

  -- The end user of the claim token.
  unfoldable pub claimed_user :
      Client → UmaRequest → UmaDraw → Db → Result (User × AccessTokenClaims)
  unfolding known_claims
  claimed_user client req draw db = do
    claim_token ← ok_or req.claim_token (invalid_input "claim_token is required")
    guard
        (is_null req.claim_token_format
          || req.claim_token_format == some "urn:ietf:params:oauth:token-type:jwt")
        (invalid_input "unsupported claim_token_format")
    claims ← known_claims claim_token "claim token is invalid"
    subject_id ←
        ok_or (host.inspector.parse_uuid claims.sub)
          (invalid_subject_token "an end-user claim token is required")
    draw.connect
    user ←
        ok_or (find_user_by_id subject_id db)
          (invalid_subject_token "user is not active in this realm")
    guard (user.enabled && user.realm_id == client.realm_id)
        (invalid_subject_token "user is not active in this realm")
    ok (user, claims)

  uuid_in : Option String → Option ℕ
  uuid_in none = none
  uuid_in (some text) = host.inspector.parse_uuid text

  -- The token to upgrade, if one is sent.
  unfoldable pub previous_grant :
      Client → Option String → ℕ → UmaDraw → Db → Result (Option RptGrant)
  unfolding uuid_in known_claims
  previous_grant client none subject_id draw db = ok none
  previous_grant client (some rpt) subject_id draw db = do
    claims ← known_claims rpt "RPT is invalid"
    id ←
        ok_or (uuid_in (host.inspector.text_member claims.custom_claims "rpt_id"))
          (invalid_subject_token "RPT identifier is missing")
    grant ←
        ok_or (find_active_rpt id draw.rpt_found_at db.authorization_rpt_grants)
          (authorization_denied "RPT cannot be upgraded")
    guard (grant.subject_id == subject_id && grant.client_id == client.id)
        (authorization_denied "RPT cannot be upgraded")
    ok (some grant)

  server_for : Client → Option String → Option RptGrant → Db → Result ℕ
  server_for client (some audience) previous db = do
    server ←
        ok_or (find_client_by_client_id_in_realm audience client.realm_id db)
          (not_found "resource server")
    ok server.id
  server_for client none (some previous) db = ok previous.resource_server_id
  server_for client none none db = err (invalid_input "audience is required without a ticket")

  -- What the ticket stands for, or what the parameters ask for.
  unfoldable pub select :
      Client → UmaRequest → Option String → ℕ → Option RptGrant → UmaDraw → Db → Result Selection
  unfolding server_for
  select client req (some ticket_token) subject_id previous draw db = do
    stored ←
        ok_or
          (find_active_ticket (sha2_256_hex st.external ticket_token) draw.ticket_found_at
            db.authorization_permission_tickets)
          (invalid_input "permission ticket is invalid or expired")
    guard
        (stored.ticket.realm_id == client.realm_id
          && (is_null stored.ticket.requester_id || stored.ticket.requester_id == some subject_id))
        (authorization_denied "permission ticket requester does not match")
    ok (record {
      resource_server_id = stored.ticket.resource_server_id;
      requested = (stored.ticket.resource_id, stored.ticket.scopes) ∷ [];
      ticket_id = some stored.ticket.id;
    })
  select client req none subject_id previous draw db = do
    server_id ← server_for client req.audience previous db
    requested ← parse_permission_parameter host.inspector.parse_uuid req.permission
    guard (not (is_empty requested)) (invalid_input "permission is required")
    ok (record { resource_server_id = server_id; requested = requested; ticket_id = none })

  is_same_server : ℕ → Option RptGrant → Bool
  is_same_server server_id none = true
  is_same_server server_id (some grant) = grant.resource_server_id == server_id

  -- All that comes before the decision. Nothing is written here.
  unfoldable pub check_ticket_grant : Client → UmaRequest → UmaDraw → Db → Result Approved
  unfolding is_same_server
  check_ticket_grant client req draw db = do
    (user, claims) ← claimed_user client req draw db
    previous ← previous_grant client req.rpt user.id draw db
    selection ← select client req req.ticket user.id previous draw db
    guard (is_same_server selection.resource_server_id previous)
        (authorization_denied "RPT belongs to a different resource server")
    ok (record { user = user; claims = claims; previous = previous; selection = selection })

  -- A ticket that is named is used up; without one there is nothing to do.
  unfoldable pub use_up : Option ℕ → Bool → UmaDraw → Db → Bool × Db
  use_up none granted draw db = (true, db)
  use_up (some id) granted draw db =
      let (once, tickets) =
        consume_ticket id granted draw.consumed_at db.authorization_permission_tickets in
      (once, record db { authorization_permission_tickets = tickets })

  merged : List GrantedPermission → Option RptGrant → List Json
  unfolding merge_permissions
  merged granted none = map host.permission_json granted
  merged granted (some previous) =
      merge_permissions (map host.permission_json granted) previous.permissions

  replaced : Option RptGrant → Db → Db
  replaced none db = db
  replaced (some previous) db = record db {
    authorization_rpt_grants = revoke_rpt previous.id db.authorization_rpt_grants;
  }

  -- The new token, and the end of the one that it replaces.
  unfoldable pub exchange_ticket :
      Client
      → Approved
      → List GrantedPermission
      → Option String
      → UmaDraw
      → Db
      → Result RptResponse × Db
  unfolding merged replaced
  exchange_ticket client approved granted dpop_jkt draw db =
      elim (issue_rpt client approved.selection.resource_server_id approved.user.id
        (merged granted approved.previous) dpop_jkt (not (is_null approved.previous)) draw db) [
          | err e ↦ (err e, db)
          | ok (response, issued) ↦ (ok response, replaced approved.previous issued)
        ]

  abbrev pub requester_of : Client → Approved → Db → Requester
  requester_of client approved db = record {
    user = approved.user;
    requesting_client = client.client_id;
    token_claims = approved.claims.custom_claims;
    role_rows = host.effective_roles approved.user.id db;
  }

  unfoldable pub granted_to : Client → Approved → UmaDraw → Db → List GrantedPermission
  granted_to client approved draw db =
      evaluate_requests host.json approved.selection.resource_server_id
        (requester_of client approved db) db draw.clock 0 approved.selection.requested

  -- The decision; a ticket that is refused is used up as well.
  unfoldable pub decide_grant :
      Client → Approved → Option String → UmaDraw → Db → Result RptResponse × Db
  decide_grant client approved dpop_jkt draw db =
      let granted = granted_to client approved draw db in
      if length granted == length approved.selection.requested
      then (let (once, used) = use_up approved.selection.ticket_id true draw db in
          if once
          then exchange_ticket client approved granted dpop_jkt draw used
          else (err (invalid_input "permission ticket was already used"), used))
      else (
        err (authorization_denied "the requested permission was denied"),
        (use_up approved.selection.ticket_id false draw db).1,
      )

  unfoldable pub uma_ticket_grant :
      Client → UmaRequest → Option String → UmaDraw → Db → Result RptResponse × Db
  uma_ticket_grant client req dpop_jkt draw db = elim (check_ticket_grant client req draw db) [
    | err e ↦ (err e, db)
    | ok approved ↦ decide_grant client approved dpop_jkt draw db
  ]
