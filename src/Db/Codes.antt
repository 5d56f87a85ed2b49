-- ===== src/Db/Codes.antt =====
-- crates/oidc-repository/src/repositories/auth_code_repo.rs and device_code_repo.rs. A code is stored
-- as its digest: the callers of `create` and `find_by_device_code` pass it, `auth_code_repo.rs` makes it.
pub mod Laws
pub mod DeviceLaws
use open_id_connect_wasi_hub.Prelude.{
  ℕ, String, List, [], ◌∷◌, ◌++◌, Option, some, Bool, true, not, ◌&&◌, ◌==◌, nat_eq, string_eq,
  find, filter, update_where, length, ltb,
}
use open_id_connect_wasi_hub.External.{External}
use open_id_connect_wasi_hub.Token.{sha2_256_hex}
use open_id_connect_wasi_hub.Models.{AuthCode, DeviceCode}

-- AuthCodeRepo
unfoldable pub find_by_code : External → String → ℕ → List AuthCode → Option AuthCode
find_by_code ext code now t =
    let code_hash = sha2_256_hex ext code in
    find (λ ac. ac.code == code_hash && not ac.used && ltb now ac.expires_at) t

unfoldable pub create_auth_code : External → AuthCode → List AuthCode → List AuthCode
create_auth_code ext entity t = t ++ record entity { code = sha2_256_hex ext entity.code } ∷ []

unfoldable pub mark_code_used : ℕ → List AuthCode → List AuthCode
mark_code_used id t = update_where (λ ac. ac.id == id) (λ ac. record ac { used = true }) t

unfoldable pub cleanup_expired_codes : ℕ → List AuthCode → List AuthCode × ℕ
cleanup_expired_codes now t =
    (filter (λ ac. not (ltb ac.expires_at now)) t, length (filter (λ ac. ltb ac.expires_at now) t))

-- DeviceCodeRepo
unfoldable pub create_device_code : DeviceCode → List DeviceCode → List DeviceCode
create_device_code entity t = t ++ entity ∷ []

unfoldable pub find_by_device_code : String → ℕ → List DeviceCode → Option DeviceCode
find_by_device_code hash now t =
    find (λ dc. dc.device_code == hash && not dc.used && ltb now dc.expires_at) t

unfoldable pub find_by_user_code : String → ℕ → List DeviceCode → Option DeviceCode
find_by_user_code user_code now t =
    find (λ dc. dc.user_code == user_code && ltb now dc.expires_at) t

unfoldable pub mark_authorized : ℕ → ℕ → List DeviceCode → List DeviceCode
mark_authorized id user_id t =
    update_where (λ dc. dc.id == id && not dc.used)
      (λ dc. record dc { authorized = true; user_id = some user_id }) t

unfoldable pub mark_device_code_used : ℕ → List DeviceCode → List DeviceCode
mark_device_code_used id t = update_where (λ dc. dc.id == id) (λ dc. record dc { used = true }) t

unfoldable pub cleanup_expired_device_codes : ℕ → List DeviceCode → List DeviceCode × ℕ
cleanup_expired_device_codes now t =
    (filter (λ dc. not (ltb dc.expires_at now)) t, length (filter (λ dc. ltb dc.expires_at now) t))
