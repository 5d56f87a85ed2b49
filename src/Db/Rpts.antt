-- ===== src/Db/Rpts.antt =====
-- The grants behind requesting party tokens, of
-- crates/oidc-repository/src/repositories/authorization_service_repo.rs.
use open_id_connect_wasi_hub.Prelude.{
  ℕ, List, [], ◌∷◌, ◌++◌, Option, true, not, ◌&&◌, ◌==◌, nat_eq, find, update_where, ltb,
}
use open_id_connect_wasi_hub.Models.{RptGrant}

unfoldable pub create_rpt : RptGrant → List RptGrant → List RptGrant
create_rpt item t = t ++ item ∷ []

unfoldable pub find_active_rpt : ℕ → ℕ → List RptGrant → Option RptGrant
find_active_rpt id now t = find (λ g. g.id == id && not g.revoked && ltb now g.expires_at) t

unfoldable pub find_rpt : ℕ → List RptGrant → Option RptGrant
find_rpt id t = find (λ g. g.id == id) t

unfoldable pub revoke_rpt : ℕ → List RptGrant → List RptGrant
revoke_rpt id t = update_where (λ g. g.id == id) (λ g. record g { revoked = true }) t
