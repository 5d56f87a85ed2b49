-- ===== src/Token.antt =====
-- crates/oidc-core/src/utils/token.rs and crates/oidc-core/src/utils/pkce.rs: digests of tokens and
-- codes, pairwise subjects, origins, user codes, and PKCE.
use mathlib.Core.Option
use open_id_connect_wasi_hub.Prelude.{
  ℕ, ◌/◌, ◌%◌, String, List, [], ◌∷◌, ◌++◌, map, Option, none, some, Bool, ◌==◌, length, take, drop,
  codes, utf8_bytes, get_or, concat, string_eq,
}
use open_id_connect_wasi_hub.External.{Url, External}

module _ (ext : External) where
  open ext use {sha256, base64_encode_url_safe_no_pad, hex_encode, parse_url, decimal}

  abbrev digest : String → List ℕ
  digest s = sha256 (utf8_bytes (codes s))

  -- `sha2_256_hex`
  unfoldable pub sha2_256_hex : String → String
  sha2_256_hex s = hex_encode (digest s)

  -- The left half of the digest, for `at_hash` and `c_hash`.
  unfoldable pub compute_at_hash : String → String
  compute_at_hash access_token =
      let hash = digest access_token in base64_encode_url_safe_no_pad (take (length hash / 2) hash)

  unfoldable pub compute_c_hash : String → String
  compute_c_hash c =
      let hash = digest c in base64_encode_url_safe_no_pad (take (length hash / 2) hash)

  unfoldable pub compute_session_state : String → String → String → String
  compute_session_state client_id op_browser_session_id origin =
      base64_encode_url_safe_no_pad
        (digest (concat (client_id ∷ " " ∷ op_browser_session_id ∷ " " ∷ origin ∷ [])))

  unfoldable pub compute_pairwise_sub : String → String → String → String
  compute_pairwise_sub user_id sector_identifier salt =
      base64_encode_url_safe_no_pad
        (digest (concat (user_id ∷ "|" ∷ sector_identifier ∷ "|" ∷ salt ∷ [])))

  abbrev host_of : String → Option String
  host_of uri = Option.bind (parse_url uri) (λ u. u.host_str)

  unfoldable pub extract_sector_identifier : Option String → List String → Option String
  extract_sector_identifier (some uri) redirect_uris = host_of uri
  extract_sector_identifier none [] = none
  extract_sector_identifier none (first ∷ _) = host_of first

  origin_text : Url → String → String
  origin_text u host = elim u.port [
    | some p ↦ concat (u.scheme ∷ "://" ∷ host ∷ ":" ∷ decimal p ∷ [])
    | none ↦ concat (u.scheme ∷ "://" ∷ host ∷ [])
  ]

  unfoldable pub extract_origin : String → Option String
  unfolding origin_text
  extract_origin url = Option.bind (parse_url url) (λ u. Option.map (origin_text u) u.host_str)

  -- pkce.rs. The comparison takes constant time in the source; its result is equality of the bytes.
  unfoldable pub s256_challenge : String → String
  s256_challenge verifier = base64_encode_url_safe_no_pad (digest verifier)

  unfoldable pub verify_s256 : String → String → Bool
  unfolding s256_challenge
  verify_s256 verifier challenge = s256_challenge verifier == challenge

-- `b"BCDFGHJKLMNPQRSTVWXYZ"`
abbrev pub charset : List ℕ
charset = codes "BCDFGHJKLMNPQRSTVWXYZ"

-- The user code made of eight random bytes, as code points.
unfoldable pub user_code_of : List ℕ → List ℕ
user_code_of buf =
    let c = map (λ b. get_or charset (b % length charset) 0) buf in take 4 c ++ (b'-' ∷ drop 4 c)
