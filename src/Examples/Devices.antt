-- ===== src/Examples/Devices.antt =====
-- The device grant of crates/oidc-oidc/src/flows/device_code.rs on the realm of Fixture.
use open_id_connect_wasi_hub.Prelude.{ℕ, ◌≡◌, ◌⊎◌, refl, arith, eq_iff, [], ◌∷◌, none, some, false}
use open_id_connect_wasi_hub.Error.{
  ok, err, invalid_client, expired_token, authorization_pending, not_found,
}
use open_id_connect_wasi_hub.Models.{Client, DeviceCode}
use open_id_connect_wasi_hub.Db.Tables.{Db}
use open_id_connect_wasi_hub.Flows.State.{TokenResponse}
use open_id_connect_wasi_hub.Flows.DeviceCode
use open_id_connect_wasi_hub.Flows.DeviceCode.{Poll, validate_device}
use open_id_connect_wasi_hub.Flows.DeviceCode.Polling.{
  IsApproved, IsExchanged, code_named, poll_sound, poll_twice, poll-registered_client,
  validate_device_errors,
}
use open_id_connect_wasi_hub.Examples.Fixture.{
  state, client, device_code, database, draw_at, link-IsUp,
}
use open_id_connect_wasi_hub.Db.Transaction.{with_transaction}
use open_id_connect_wasi_hub.Db.Codes.{find_by_device_code}
use open_id_connect_wasi_hub.Token.{sha2_256_hex}
use open_id_connect_wasi_hub.Db.Directory.{find_client_by_client_id, find_user_by_id}
use open_id_connect_wasi_hub.Flows.Claims.{token_type_of}

abbrev poll : Poll
poll = record { device_code = "device"; client_id = "client"; dpop_jkt = none }

abbrev answer : TokenResponse
answer = record {
  access_token = "access";
  token_type = "Bearer";
  expires_in = 900;
  refresh_token = "fresh-token";
  id_token = "identity";
  scope = "openid";
}

abbrev exchanged : Db
exchanged = (DeviceCode.execute state poll 300 (draw_at 30 300) database).1

polled : DeviceCode.execute state poll 300 (draw_at 30 300) database ≡ (ok answer, exchanged)
unfolding DeviceCode.execute with_transaction DeviceCode.poll_body validate_device
    find_by_device_code sha2_256_hex find_user_by_id find_client_by_client_id DeviceCode.issue
    token_type_of
polled = refl

poll_sound_example :
    (dc : DeviceCode) × (u : ℕ) × (c : Client) × IsApproved state poll 300 300 database dc u c
    × IsExchanged state poll (draw_at 30 300) database exchanged dc u c
poll_sound_example = poll_sound state poll 300 (draw_at 30 300) database exchanged answer polled

poll_twice_example :
    DeviceCode.execute state poll 310 (draw_at 31 310) exchanged ≡ (err expired_token, exchanged)
poll_twice_example =
    poll_twice state poll poll 300 310 (draw_at 30 300) (draw_at 31 310) database exchanged answer
      (tt, tt) polled refl link-IsUp

-- Before the user has answered.
abbrev waiting_code : DeviceCode
waiting_code = record device_code { authorized = false; user_id = none }

abbrev waiting : Db
waiting = record database { device_codes = waiting_code ∷ [] }

waiting_named : code_named state poll 300 waiting ≡ some waiting_code
unfolding DeviceCode.execute find_by_device_code sha2_256_hex
waiting_named = refl

answered_pending :
    DeviceCode.execute state poll 300 (draw_at 30 300) waiting
    ≡ (err authorization_pending, waiting)
unfolding DeviceCode.execute with_transaction DeviceCode.poll_body validate_device
    find_by_device_code sha2_256_hex
answered_pending = refl

unapproved : validate_device state poll 300 300 waiting ≡ err authorization_pending
unfolding validate_device find_by_device_code sha2_256_hex
unapproved = refl

validate_device_errors_example :
    (authorization_pending ≡ expired_token)
    ⊎ (authorization_pending ≡ invalid_client)
    ⊎ (authorization_pending ≡ authorization_pending)
    ⊎ (authorization_pending ≡ not_found "user")
validate_device_errors_example =
    validate_device_errors state poll 300 300 waiting authorization_pending unapproved

-- A client whose identifier is a name.
abbrev shop : Client
shop = record client { client_id = "shop" }

abbrev shop_poll : Poll
shop_poll = record poll { client_id = "shop" }

shop_named : code_named state shop_poll 300 database ≡ some device_code
unfolding DeviceCode.execute find_by_device_code sha2_256_hex
shop_named = refl

poll-registered_client_example :
    DeviceCode.execute state shop_poll 300 (draw_at 30 300) database
    ≡ (err invalid_client, database)
poll-registered_client_example =
    poll-registered_client state shop_poll 300 (draw_at 30 300) database device_code shop link-IsUp
      shop_named refl refl (λ e. absurd (ground (arith, eq_iff "shop" "client")))
