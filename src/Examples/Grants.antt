-- ===== src/Examples/Grants.antt =====
-- The grants of crates/oidc-oidc/src/flows on the realm of Fixture.
use open_id_connect_wasi_hub.Prelude.{ℕ, ◌≡◌, ◌≢◌, refl, String, none, some, pos, nat_eq}
use open_id_connect_wasi_hub.Error.{ok, err, invalid_request}
use open_id_connect_wasi_hub.Models.{Client, User, AuthCode, Session}
use open_id_connect_wasi_hub.Db.Tables.{Db}
use open_id_connect_wasi_hub.Db.Sessions.{find_by_refresh_token_hash}
use open_id_connect_wasi_hub.Flows.State.{TokenResponse}
use open_id_connect_wasi_hub.Flows.AuthorizationCode
use open_id_connect_wasi_hub.Flows.AuthorizationCode.{
  Exchange, issue, Issued, session_of, response_of, seconds_until, refresh_expiry,
}
use open_id_connect_wasi_hub.Flows.AuthorizationCode.SingleUse.{
  IsChecked, IsRedeemed, execute_sound, execute_twice,
}
use open_id_connect_wasi_hub.Flows.RefreshToken
use open_id_connect_wasi_hub.Flows.RefreshToken.{Refresh, CheckDraw, rotate}
use open_id_connect_wasi_hub.Flows.RefreshToken.Rotation.{IsRefreshable, IsRotated, rotate_sound}
use open_id_connect_wasi_hub.Flows.RefreshToken.Replay.{execute-rotated}
use open_id_connect_wasi_hub.Examples.Fixture.{state, session, database, draw_at, link, link-IsUp}
use open_id_connect_wasi_hub.Token.{sha2_256_hex, verify_s256}
use open_id_connect_wasi_hub.Db.Transaction.{with_transaction}
use open_id_connect_wasi_hub.Db.Codes.{find_by_code}
use open_id_connect_wasi_hub.Db.Directory.{
  find_user_by_id, is_managed_user_blocked, find_client_by_client_id, find_client_by_id,
}
use open_id_connect_wasi_hub.Flows.Claims.{offline_policy_for, token_type_of}

abbrev request : Exchange
request = record {
  code = "code";
  redirect_uri = "uri";
  client_id = "client";
  code_verifier = "abc";
  dpop_jkt = none;
}

abbrev answer : TokenResponse
answer = record {
  access_token = "access";
  token_type = "Bearer";
  expires_in = 900;
  refresh_token = "fresh-token";
  id_token = "identity";
  scope = "openid";
}

abbrev redeemed : Db
redeemed = (AuthorizationCode.execute state request (draw_at 10 50) database).1

exchanged :
    AuthorizationCode.execute state request (draw_at 10 50) database
    ≡ (ok (answer, some (pos 604800)), redeemed)
unfolding AuthorizationCode.execute with_transaction AuthorizationCode.exchange_body
    AuthorizationCode.validate_code find_by_code sha2_256_hex find_client_by_client_id verify_s256
    AuthorizationCode.redeem AuthorizationCode.issue find_user_by_id offline_policy_for
    token_type_of
exchanged = refl

execute_sound_example :
    (c : AuthCode) × (cl : Client) × IsChecked state request 50 database c cl
    × IsRedeemed state request (draw_at 10 50) database redeemed c cl
execute_sound_example =
    execute_sound state request (draw_at 10 50) database redeemed (answer, some (pos 604800))
      exchanged

execute_twice_example :
    AuthorizationCode.execute state request (draw_at 11 60) redeemed
    ≡ (err invalid_request, redeemed)
execute_twice_example =
    execute_twice state request request (draw_at 10 50) (draw_at 11 60) database redeemed
      (answer, some (pos 604800)) (tt, tt) exchanged refl link-IsUp

-- A request with the wrong redirect URI.
abbrev strayed : Exchange
strayed = record request { redirect_uri = "other" }

strayed_refused :
    AuthorizationCode.execute state strayed (draw_at 10 50) database
    ≡ (err invalid_request, database)
unfolding AuthorizationCode.execute with_transaction AuthorizationCode.exchange_body
    AuthorizationCode.validate_code find_by_code sha2_256_hex
strayed_refused = refl

abbrev refresh : Refresh
refresh = record { refresh_token = "token"; client_id = 1; dpop_jkt = none }

abbrev check : CheckDraw
check = record { link = link; db_now = 300; now = 300 }

abbrev rotated_database : Db
rotated_database = (rotate state refresh 200 (draw_at 20 200) database).1

rotated :
    rotate state refresh 200 (draw_at 20 200) database
    ≡ (ok (answer, some (pos 604800)), rotated_database)
unfolding rotate with_transaction RefreshToken.rotate_body RefreshToken.refreshable
    find_by_refresh_token_hash sha2_256_hex find_user_by_id is_managed_user_blocked
    find_client_by_id RefreshToken.issue offline_policy_for RefreshToken.issue_tokens
    RefreshToken.next_expiry token_type_of
rotated = refl

rotate_sound_example :
    (s : Session) × (u : ℕ) × (w : User) × (c : Client) × IsRefreshable state refresh 200 database s
      u w c
    × IsRotated state refresh (draw_at 20 200) database rotated_database s u
rotate_sound_example =
    rotate_sound state refresh 200 (draw_at 20 200) database rotated_database
      (answer, some (pos 604800)) rotated

-- The refresh token has expired at 2000.
expired_refused :
    rotate state refresh 2000 (draw_at 20 2000) database ≡ (err invalid_request, database)
unfolding rotate with_transaction RefreshToken.rotate_body RefreshToken.refreshable
    find_by_refresh_token_hash sha2_256_hex
expired_refused = refl

named : find_by_refresh_token_hash "xxxxx" database.sessions ≡ some session
unfolding find_by_refresh_token_hash
named = refl

execute-rotated_example :
    (db'' : Db) × (RefreshToken.execute state check refresh 300 (draw_at 21 300) rotated_database
      ≡ (err invalid_request, db''))
    × ((hash : String) (s' : Session)
        → find_by_refresh_token_hash hash db''.sessions ≡ some s'
        → s'.token_family_id ≢ some 9)
unfolding find_by_refresh_token_hash sha2_256_hex
execute-rotated_example =
    execute-rotated state refresh 200 300 (draw_at 20 200) (draw_at 21 300) check database
      rotated_database (answer, some (pos 604800)) session 9 rotated refl refl link-IsUp
