-- ===== src/External.antt =====
-- What the repository calls and does not implement, as operations that the model is given: the crates
-- `sha2`, `base64`, `hex`, `url` and `uuid`.
use open_id_connect_wasi_hub.Prelude.{ℕ, String, List, Option}

-- The parts of a `url::Url` that the program reads.
pub record Url : Type 0 where
  pub scheme : String
  pub host_str : Option String
  pub port : Option ℕ

pub record External : Type 0 where
  -- `Sha256::digest`, on bytes.
  pub sha256 : List ℕ → List ℕ
  -- `URL_SAFE_NO_PAD.encode`
  pub base64_encode_url_safe_no_pad : List ℕ → String
  -- `hex::encode`
  pub hex_encode : List ℕ → String
  -- `url::Url::parse(…).ok()`
  pub parse_url : String → Option Url
  -- `Uuid::to_string`
  pub uuid_text : ℕ → String
  -- `u16::to_string`, the decimal text of a port.
  pub decimal : ℕ → String
