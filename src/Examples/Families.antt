-- ===== src/Examples/Families.antt =====
-- Families of sessions on the realm of Fixture.
use open_id_connect_wasi_hub.Prelude.{
  ℕ, ◌≤◌, ◌≡◌, ◌≢◌, refl, arith, none, some, true, false, nat_eq, [],
}
use open_id_connect_wasi_hub.Models.{Session}
use open_id_connect_wasi_hub.Db.Tables.{Db}
use open_id_connect_wasi_hub.Db.Sessions.{
  find_by_refresh_token_hash, revoke_family, create, find_active_grants_by_user_id,
  revoke_by_user_id, find_active_by_refresh_token_hash, cleanup_expired,
}
use open_id_connect_wasi_hub.Db.Sessions.Laws.{revoke_family-IsDead}
use open_id_connect_wasi_hub.Db.Sessions.Families.{live_count, has_family}
use open_id_connect_wasi_hub.Flows.AuthorizationCode
use open_id_connect_wasi_hub.Flows.AuthorizationCode.{Exchange, session_of}
use open_id_connect_wasi_hub.Flows.Lifecycle.{
  exchanges, Reach, here, next, Reach-IsDead, Reach-live_count,
}
use open_id_connect_wasi_hub.Db.Sessions.Families.{unchanged}
use open_id_connect_wasi_hub.Flows.Password.Sessions.{KeepsSessions}
use open_id_connect_wasi_hub.Examples.SignIn.{host}
use open_id_connect_wasi_hub.Examples.Fixture.{state, client, auth_code, database, draw_at}
use open_id_connect_wasi_hub.Db.Transaction.{with_transaction}
use open_id_connect_wasi_hub.Db.Codes.{find_by_code}
use open_id_connect_wasi_hub.Token.{sha2_256_hex, verify_s256}
use open_id_connect_wasi_hub.Db.Directory.{find_client_by_client_id, find_user_by_id}
use open_id_connect_wasi_hub.Flows.Claims.{offline_policy_for}
use open_id_connect_wasi_hub.Db.Sessions.Revocation.{
  find_active_grants_by_user_id-revoke_by_user_id,
  find_active_by_refresh_token_hash-cleanup_expired,
}

abbrev request : Exchange
request = record {
  code = "code";
  redirect_uri = "uri";
  client_id = "client";
  code_verifier = "abc";
  dpop_jkt = none;
}

-- The family of the stored session, revoked.
abbrev ended : Db
ended = record database { sessions = revoke_family 9 database.sessions }

abbrev after : Db
after = (AuthorizationCode.execute state request (draw_at 10 50) ended).1

new_family : has_family 7 ended.sessions ≡ false
unfolding has_family revoke_family
new_family = refl

host-KeepsSessions : KeepsSessions host
host-KeepsSessions = record {
  directory = λ realm_id email password db. unchanged;
  kerberos = λ realm_id ticket db. unchanged;
  verify = λ user_id realm_id client_id proof db. unchanged;
  begin_login = λ user_id realm_id client_id db. unchanged;
  dispatch = λ event db. unchanged;
}

abbrev one_exchange : Reach state host host-KeepsSessions ended after
one_exchange = next here (exchanges request (draw_at 10 50) new_family refl)

ended_family : has_family 9 ended.sessions ≡ true
unfolding has_family revoke_family
ended_family = refl

abbrev added : Session
added = session_of state (draw_at 10 50) auth_code client (record {
  policy = none;
  access_token = "access";
  id_token = "identity";
  refresh_token = "fresh-token";
})

found : find_by_refresh_token_hash "xxxxxxxxxxx" after.sessions ≡ some added
unfolding find_by_refresh_token_hash AuthorizationCode.execute with_transaction
    AuthorizationCode.exchange_body AuthorizationCode.validate_code find_by_code sha2_256_hex
    find_client_by_client_id verify_s256 AuthorizationCode.redeem AuthorizationCode.issue
    find_user_by_id offline_policy_for create revoke_family
found = refl

Reach-IsDead_example : added.token_family_id ≢ some 9
Reach-IsDead_example =
    Reach-IsDead state host host-KeepsSessions 9 one_exchange ended_family
      (revoke_family-IsDead 9 database.sessions) "xxxxxxxxxxx" added found

one_family : (f : ℕ) → live_count f ended.sessions ≤ 1
unfolding live_count revoke_family
one_family f = ground arith

Reach-live_count_example : live_count 7 after.sessions ≤ 1
Reach-live_count_example = Reach-live_count state host host-KeepsSessions one_exchange one_family 7

find_active_grants_by_user_id-revoke_by_user_id_example :
    find_active_grants_by_user_id 2 50 (revoke_by_user_id 2 database.sessions) ≡ []
find_active_grants_by_user_id-revoke_by_user_id_example =
    find_active_grants_by_user_id-revoke_by_user_id 2 50 database.sessions

find_active_by_refresh_token_hash-cleanup_expired_example :
    find_active_by_refresh_token_hash "xxxxx" 150 (cleanup_expired 150 database.sessions).0
    ≡ find_active_by_refresh_token_hash "xxxxx" 150 database.sessions
find_active_by_refresh_token_hash-cleanup_expired_example =
    find_active_by_refresh_token_hash-cleanup_expired "xxxxx" 150 database.sessions
