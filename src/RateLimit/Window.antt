-- ===== src/RateLimit/Window.antt =====
-- How many requests of one address a window admits.
use Prim.Native.Nat.{◌-◌, ◌^◌}
use open_id_connect_wasi_hub.Prelude.{
  ℕ, ◌+◌, ◌<◌, ◌≡◌, ◌≢◌, refl, arith, String, List, [], ◌∷◌, Option, none, some, Bool, true, false,
  string_eq, eq_iff, length, All, min, if◌then◌else◌, ltb,
}
use open_id_connect_wasi_hub.RateLimit.{
  RateLimiter, Bucket, Buckets, get, put, or_insert, seconds_since, count_request, check,
}

get-put : (ip : String) (b : Bucket) (bs : Buckets) → get ip (put ip b bs) ≡ some b
get-put ip b [] = ground (arith, eq_iff ip ip)
get-put ip b ((k, b') ∷ bs) = ground (arith, eq_iff k ip, get-put ip b bs)

get-put_other :
    (ip other : String) (b : Bucket) (bs : Buckets)
    → ip ≢ other
    → get other (put ip b bs) ≡ get other bs
get-put_other ip other b [] h = ground (arith, eq_iff ip other)
get-put_other ip other b ((k, b') ∷ bs) h =
    ground (arith, eq_iff k ip, eq_iff k other, get-put_other ip other b bs)

-- A request of one address never touches the count of another.
pub check_isolated :
    (limiter : RateLimiter) (now : ℕ) (ip other : String) (buckets : Buckets)
    → ip ≢ other
    → get other (check limiter now ip buckets).1 ≡ get other buckets
unfolding check
check_isolated limiter now ip other buckets h =
    get-put_other ip other (count_request limiter now (or_insert now (get ip buckets))).0 buckets h

abbrev counted : Option ℕ → ℕ → ℕ
counted none rest = rest
counted (some remaining) rest = rest + 1

-- How many of the requests of an address at these times are admitted.
unfoldable pub admitted : RateLimiter → String → List ℕ → Buckets → ℕ
admitted limiter ip [] buckets = 0
admitted limiter ip (now ∷ times) buckets =
    let (remaining, next) = check limiter now ip buckets in
    counted remaining (admitted limiter ip times next)

-- One request within the window.
count_request_inside :
    (limiter : RateLimiter) (now : ℕ) (b : Bucket)
    → seconds_since now b.window_start < limiter.window_secs
    → b.request_count + 1 < 2 ^ 32
    → count_request limiter now b ≡ (
      record b { request_count = b.request_count + 1 },
      (if ltb limiter.max_requests (b.request_count + 1)
          then none
          else some (limiter.max_requests - (b.request_count + 1))),
    )
unfolding count_request
count_request_inside limiter now b h k = ground arith

check_inside :
    (limiter : RateLimiter) (now : ℕ) (ip : String) (buckets : Buckets) (b : Bucket)
    → get ip buckets ≡ some b
    → seconds_since now b.window_start < limiter.window_secs
    → b.request_count + 1 < 2 ^ 32
    → check limiter now ip buckets ≡ (
      (if ltb limiter.max_requests (b.request_count + 1)
          then none
          else some (limiter.max_requests - (b.request_count + 1))),
      put ip (record b { request_count = b.request_count + 1 }) buckets,
    )
unfolding check
check_inside limiter now ip buckets b found h k =
    rw (found, count_request_inside limiter now b h k) refl

counted-if :
    (t : Bool) (x rest : ℕ)
    → counted (if t then none else some x) rest ≡ rest + (if t then 0 else 1)
counted-if true x rest = omega arith
counted-if false x rest = refl

-- While the window of an address is open, its requests are admitted up to the limit and no further:
-- from a count of `n`, the admitted requests make the count grow to the limit, or to the number of
-- requests where that is less. The count stays below 2 ^ 32, where the counter would wrap.
pub admitted_in_window :
    (limiter : RateLimiter) (ip : String) (times : List ℕ) (buckets : Buckets) (b : Bucket)
    → get ip buckets ≡ some b
    → All (λ t. seconds_since t b.window_start < limiter.window_secs) times
    → b.request_count + length times < 2 ^ 32
    → admitted limiter ip times buckets + min b.request_count limiter.max_requests
      ≡ min (b.request_count + length times) limiter.max_requests
unfolding admitted
admitted_in_window limiter ip [] buckets b found inside few = omega arith
admitted_in_window limiter ip (now ∷ times) buckets b found (h, inside) few =
    let b' : Bucket = record b { request_count = b.request_count + 1 } in
    let next = put ip b' buckets in
    let rest = admitted limiter ip times next in
    let over = ltb limiter.max_requests (b.request_count + 1) in
    rw (check_inside limiter now ip buckets b found h (omega (arith, few))) (
      rw (counted-if over (limiter.max_requests - (b.request_count + 1)) rest) (
        ground (
          arith,
          admitted_in_window limiter ip times next b' (get-put ip b' buckets) inside
              (omega (arith, few)),
        )))
