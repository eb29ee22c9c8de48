-- ===== src/HttpServer/RateLimit.antt =====
-- `HttpServer::consumeOutboundRateLimitToken` of src/api/HttpServer.cpp. The code counts tokens in a
-- `double`; here they are counted in billionths, so that a clock in nanoseconds refills a whole number
-- of them, and nothing is rounded.
pub mod Bound
use vbgw_pjsip_v.Common.{
  ℕ, ◌+◌, ◌-◌, ◌*◌, ◌/◌, ◌^◌, min, max, Bool, true, false, leb, ltb, if◌then◌else◌,
}
use vbgw_pjsip_v.Common.Int.{ℤ, pos_part}

-- One token.
abbrev pub token : ℕ
token = 10 ^ 9

pub record Bucket : Type 0 where
  pub initialized : Bool
  pub tokens : ℕ
  pub last_refill : ℕ

-- What `start` sets.
abbrev pub restarted : Bucket → Bucket
restarted b = record b { initialized = false; tokens = 0 }

-- `std::max(1, …)` of a setting.
abbrev pub at_least_one : ℤ → ℕ
at_least_one n = max 1 (pos_part n)

pub record Limits : Type 0 where
  pub rate_limit_rps : ℤ
  pub rate_limit_burst : ℤ

unfoldable pub rate : Limits → ℕ
rate l = at_least_one l.rate_limit_rps

unfoldable pub burst : Limits → ℕ
burst l = at_least_one l.rate_limit_burst * token

unfoldable pub first_use : Limits → ℕ → Bucket → Bucket
first_use l now b =
    if b.initialized then b else record { initialized = true; tokens = burst l; last_refill = now }

unfoldable pub refill : Limits → ℕ → Bucket → Bucket
refill l now b =
    if ltb b.last_refill now
    then record b {
      tokens = min (burst l) (b.tokens + (now - b.last_refill) * rate l);
      last_refill = now;
    }
    else b

unfoldable pub take_token : Bucket → Bool × Bucket
take_token b =
    if leb token b.tokens then (true, record b { tokens = b.tokens - token }) else (false, b)

-- The bucket is behind a mutex, so a call is one step.
unfoldable pub consume_outbound_rate_limit_token : Limits → ℕ → Bucket → Bool × Bucket
unfolding take_token refill first_use
consume_outbound_rate_limit_token l now b = take_token (refill l now (first_use l now b))

-- `max(1, ceil(retry_after_sec))`, for the refusal that leaves the bucket so.
unfoldable pub retry_after : Limits → Bucket → ℕ
retry_after l b =
    let missing = token - b.tokens in
    let scale = rate l * token in max 1 ((missing + (scale - 1)) / scale)
