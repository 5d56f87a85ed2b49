-- ===== src/Db/Authorization.antt =====
-- Resources, policies, permissions and tickets, of
-- crates/oidc-repository/src/repositories/authorization_service_repo.rs. The rows of a table stand in
-- the order of `name`, by which the lists are sorted.
pub mod Tickets
use open_id_connect_wasi_hub.Prelude.{
  ℕ, ◌+◌, String, List, [], ◌∷◌, ◌++◌, Option, none, some, Bool, true, false, not, ◌&&◌, ◌==◌,
  nat_eq, string_eq, find, filter, length, update_where, ltb, nat_beq,
}
use open_id_connect_wasi_hub.Models.{
  ProtectedResource, AuthorizationPolicy, AuthorizationPermission, PermissionTicket,
}
use open_id_connect_wasi_hub.Db.Tables.{StoredTicket}

unfoldable pub find_resource : ℕ → List ProtectedResource → Option ProtectedResource
find_resource id t = find (λ r. r.id == id) t

unfoldable pub list_policies : ℕ → List AuthorizationPolicy → List AuthorizationPolicy
list_policies server_id t = filter (λ q. q.resource_server_id == server_id) t

unfoldable pub list_permissions : ℕ → List AuthorizationPermission → List AuthorizationPermission
list_permissions server_id t = filter (λ q. q.resource_server_id == server_id) t

unfoldable pub create_ticket : PermissionTicket → String → List StoredTicket → List StoredTicket
create_ticket ticket token_hash t = t ++ record { token_hash = token_hash; ticket = ticket } ∷ []

unfoldable pub is_unused : ℕ → PermissionTicket → Bool
is_unused now ticket = not ticket.used && ltb now ticket.expires_at

unfoldable pub find_active_ticket : String → ℕ → List StoredTicket → Option StoredTicket
find_active_ticket token_hash now t =
    find (λ s. s.token_hash == token_hash && is_unused now s.ticket) t

-- The row that is used up, and whether there was exactly one.
unfoldable pub consume_ticket : ℕ → Bool → ℕ → List StoredTicket → Bool × List StoredTicket
consume_ticket id granted now t = (
  nat_beq (length (filter (λ s. s.ticket.id == id && is_unused now s.ticket) t)) 1,
  update_where (λ s. s.ticket.id == id && is_unused now s.ticket)
      (λ s. record s { ticket = record s.ticket { used = true; granted = granted } }) t,
)
