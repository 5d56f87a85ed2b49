-- ===== src/RateLimit.antt =====
-- crates/openid-connect-wasi/src/middleware/rate_limit.rs: the counter of requests per address. An
-- `Instant` is in nanoseconds; the lock is always got, since nothing panics while it is held.
pub mod Window
use Prim.Native.Nat.{◌-◌, ◌/◌, ◌%◌, ◌^◌}
use open_id_connect_wasi_hub.Prelude.{
  ℕ, ◌+◌, String, List, [], ◌∷◌, Option, none, some, Bool, true, false, ◌==◌, string_eq, ltb, leb,
  if◌then◌else◌,
}

pub data RateLimitMode : Type 0 where
  local proxy disabled : RateLimitMode

unfoldable pub enforces_in_process : RateLimitMode → Bool
enforces_in_process local = true
enforces_in_process proxy = false
enforces_in_process disabled = false

pub record Bucket : Type 0 where
  pub window_start : ℕ
  pub request_count : ℕ

pub record RateLimiter : Type 0 where
  pub max_requests : ℕ
  pub window_secs : ℕ

-- The `HashMap`: the first entry of an address counts.
abbrev pub Buckets : Type 0
Buckets = List (String × Bucket)

abbrev pub get : String → Buckets → Option Bucket
get ip [] = none
get ip ((k, b) ∷ bs) = let rest = get ip bs in if k == ip then some b else rest

abbrev pub put : String → Bucket → Buckets → Buckets
put ip b [] = (ip, b) ∷ []
put ip b ((k, b') ∷ bs) = let rest = put ip b bs in if k == ip then (k, b) ∷ bs else (k, b') ∷ rest

-- `entry(ip).or_insert((now, 0))`
abbrev pub or_insert : ℕ → Option Bucket → Bucket
or_insert now none = record { window_start = now; request_count = 0 }
or_insert now (some b) = b

abbrev pub seconds_since : ℕ → ℕ → ℕ
seconds_since now start = (now - start) / 1000000000

-- The new entry, and what remains or `none` for `Err(())`. The counter is a `u32`.
unfoldable pub count_request : RateLimiter → ℕ → Bucket → Bucket × Option ℕ
count_request limiter now b =
    let n = (b.request_count + 1) % 2 ^ 32 in
    let next = record b { request_count = n } in
    if leb limiter.window_secs (seconds_since now b.window_start)
    then (record { window_start = now; request_count = 1 }, some (limiter.max_requests - 1))
    else if ltb limiter.max_requests n
    then (next, none)
    else (next, some (limiter.max_requests - n))

-- `RateLimiter::check`
unfoldable pub check : RateLimiter → ℕ → String → Buckets → Option ℕ × Buckets
unfolding count_request
check limiter now ip buckets =
    let (b, remaining) = count_request limiter now (or_insert now (get ip buckets)) in
    (remaining, put ip b buckets)
