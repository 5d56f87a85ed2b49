-- ===== src/Models/Users.antt =====
-- crates/oidc-core/src/models/user.rs, and the rows of crates/oidc-core/src/models/organization.rs
-- that decide whether a managed user is blocked.
use open_id_connect_wasi_hub.Prelude.{ℕ, String, Option, Bool}

pub record User : Type 0 where
  pub id : ℕ
  pub realm_id : ℕ
  pub email : String
  pub email_verified : Bool
  pub username : Option String
  pub password_hash : Option String
  pub given_name : Option String
  pub family_name : Option String
  pub middle_name : Option String
  pub nickname : Option String
  pub preferred_username : Option String
  pub profile : Option String
  pub picture : Option String
  pub website : Option String
  pub gender : Option String
  pub birthdate : Option String
  pub zoneinfo : Option String
  pub phone_number : Option String
  pub phone_number_verified : Option Bool
  pub street_address : Option String
  pub locality : Option String
  pub region : Option String
  pub postal_code : Option String
  pub country : Option String
  pub locale : String
  pub attributes : String
  pub enabled : Bool
  pub deleted_at : Option ℕ
  pub updated_at : ℕ

-- The columns of `organizations` and `organization_memberships` that the query reads.
pub record Organization : Type 0 where
  pub id : ℕ
  pub enabled : Bool
  pub deleted_at : Option ℕ

pub record Membership : Type 0 where
  pub organization_id : ℕ
  pub user_id : ℕ
  pub membership_kind : String
