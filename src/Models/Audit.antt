-- ===== src/Models/Audit.antt =====
-- crates/oidc-core/src/models/audit_event.rs
use open_id_connect_wasi_hub.Prelude.{ℕ, String, Option}

pub data ActorType : Type 0 where
  user : ActorType
  api_key : ActorType
  system : ActorType

-- An address is kept as its text.
pub record AuditEvent : Type 0 where
  pub id : ℕ
  pub realm_id : Option ℕ
  pub event_type : String
  pub actor_id : Option ℕ
  pub actor_type : ActorType
  pub target_type : Option String
  pub target_id : Option ℕ
  pub details : String
  pub ip_address : Option String
  pub user_agent : Option String
  pub created_at : ℕ
