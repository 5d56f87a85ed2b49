-- ===== src/Examples/Tokens.antt =====
-- Revocation and introspection on the realm of Fixture.
use open_id_connect_wasi_hub.Prelude.{◌≡◌, refl, none, some}
use open_id_connect_wasi_hub.Error.{ok}
use open_id_connect_wasi_hub.Endpoints.TokenState.{
  Inspector, AccessTokenClaims, ActiveToken, inactive, active, introspect, revoke_token, rpt_named,
  describe, is_backed,
}
use open_id_connect_wasi_hub.Endpoints.TokenState.Revoked.{
  IsBacked, introspect-revoke_token, introspect_sound,
}
use open_id_connect_wasi_hub.Examples.Fixture.{ext, client, session, database}
use open_id_connect_wasi_hub.Db.Sessions.{find_by_access_token_hash, find_by_refresh_token_hash}
use open_id_connect_wasi_hub.Token.{sha2_256_hex}
use open_id_connect_wasi_hub.Db.Directory.{find_user_by_id}

abbrev pub claims : AccessTokenClaims
claims = record {
  sub = "2";
  aud = "client";
  scope = "openid";
  exp = 100;
  iat = 0;
  cnf = none;
  authorization_details = none;
  organization = none;
  realm_access = none;
  resource_access = none;
  custom_claims = "{}";
}

abbrev pub inspector : Inspector
inspector = record {
  external = ext;
  verify_access_token_with_claims = λ token. ok claims;
  text_member = λ object name. none;
  parse_uuid = λ text. some 2;
  first_audience = λ aud. aud;
}

abbrev seen : ActiveToken
seen = record {
  sub = "2";
  client_id = "client";
  aud = "client";
  scope = "openid";
  token_type = "Bearer";
  exp = 100;
  iat = 0;
  username = some "a@b";
  claims = claims;
}

seen_active : introspect inspector client "to" 50 database ≡ active seen
unfolding introspect is_backed find_by_access_token_hash sha2_256_hex describe find_user_by_id
seen_active = refl

introspect_sound_example : IsBacked inspector client "to" 50 database
introspect_sound_example = introspect_sound inspector client "to" 50 database seen seen_active

introspect-revoke_token_example :
    introspect inspector client "to" 60 (revoke_token inspector client "to" none 50 database)
    ≡ inactive
unfolding rpt_named find_by_refresh_token_hash sha2_256_hex find_by_access_token_hash
introspect-revoke_token_example =
    introspect-revoke_token inspector client "to" none 50 database refl refl client 60 session
      (tt, tt) refl refl
