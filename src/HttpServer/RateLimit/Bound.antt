-- ===== src/HttpServer/RateLimit/Bound.antt =====
-- How many requests the token bucket lets through.
use vbgw_pjsip_v.Common.{
  ℕ, suc, ◌+◌, ◌-◌, ◌*◌, ◌≤◌, ◌<◌, ◌≡◌, inl, inr, refl, sym, ap, List, [], ◌∷◌, Bool, true, arith,
  ltb, if◌then◌else◌, Bool-cases, ltb→lt, ◌∙◌,
}
use mathlib.Core.Path.{subst}
use native.Mathlib.Nat.{add-mul, div-lt_iff_lt-mul}
use vbgw_pjsip_v.HttpServer.RateLimit.{
  token, Bucket, restarted, Limits, rate, burst, first_use, refill, take_token,
  consume_outbound_rate_limit_token, retry_after,
}

-- Requests at these times: how many get a token, and the bucket they leave.
unfoldable pub run : Limits → List ℕ → Bucket → ℕ × Bucket
run l [] b = (0, b)
run l (now ∷ times) b =
    let (granted, b') = consume_outbound_rate_limit_token l now b in
    let (n, b'') = run l times b' in ((if granted then suc n else n), b'')

span : (a b r : ℕ) → a < b → (b - a) * r + a * r ≡ b * r
span a b r h = sym (add-mul (b - a) a r) ∙ ap (λ n. n * r) (omega (arith, h))

refill_le :
    (l : Limits) (now : ℕ) (b : Bucket)
    → (refill l now b).tokens + b.last_refill * rate l
      ≤ b.tokens + (refill l now b).last_refill * rate l
unfolding refill
refill_le l now b = elim (Bool-cases (ltb b.last_refill now)) [
  | inl later ↦ rw later (omega (arith, span b.last_refill now (rate l) (ltb→lt _ _ later)))
  | inr same ↦ rw same (omega arith)
]

refill-initialized :
    (l : Limits) (now : ℕ) (b : Bucket) → (refill l now b).initialized ≡ b.initialized
unfolding refill
refill-initialized l now b = ground arith

-- What a request costs.
abbrev pub cost : Bool → ℕ
cost granted = if granted then token else 0

take_token-cost :
    (b : Bucket)
    → let (granted, b') = take_token b in
      (b'.initialized ≡ b.initialized)
      × (b'.last_refill ≡ b.last_refill)
      × (cost granted + b'.tokens ≡ b.tokens)
unfolding take_token
take_token-cost b = ground arith

first_use-initialized :
    (l : Limits) (now : ℕ) (b : Bucket) → b.initialized ≡ true → first_use l now b ≡ b
unfolding first_use
first_use-initialized l now b i = rw i refl

-- What a request does to the tokens of a bucket in use.
step :
    (l : Limits) (now : ℕ) (b : Bucket)
    → b.initialized ≡ true
    → let (granted, b') = consume_outbound_rate_limit_token l now b in
      (b'.initialized ≡ true)
      × (cost granted + b'.tokens + b.last_refill * rate l ≤ b.tokens + b'.last_refill * rate l)
unfolding consume_outbound_rate_limit_token
step l now b i =
    let (same, last, total) = take_token-cost (refill l now b) in
    subst
      (λ c.
        let (granted, b') = take_token (refill l now c) in
        (b'.initialized ≡ true)
        × (cost granted + b'.tokens + b.last_refill * rate l ≤ b.tokens + b'.last_refill * rate l))
      (sym (first_use-initialized l now b i))
      (same ∙ refill-initialized l now b ∙ i, rw last (omega (arith, refill_le l now b, total)))

-- From any bucket in use, the requests let through and the tokens left cost no more than the tokens
-- that there were and those that the time has brought.
pub run_bound :
    (l : Limits) (times : List ℕ) (b : Bucket)
    → b.initialized ≡ true
    → let (granted, b') = run l times b in
      granted * token + b'.tokens + b.last_refill * rate l ≤ b.tokens + b'.last_refill * rate l
unfolding run
run_bound l [] b i = omega arith
run_bound l (now ∷ times) b i =
    let (i', first) = step l now b i in
    let rest = run_bound l times (consume_outbound_rate_limit_token l now b).1 i' in
    elim (Bool-cases (consume_outbound_rate_limit_token l now b).0) [
      | inl yes_first ↦ rw yes_first (omega (arith, rw yes_first at first, rest))
      | inr no_first ↦ rw no_first (omega (arith, rw no_first at first, rest))
    ]

-- After start, whenever its requests come, the requests let through and the tokens left are at most
-- the burst and the rate times the time since the first request.
pub run_started :
    (l : Limits) (first : ℕ) (times : List ℕ) (b : Bucket)
    → let (granted, b') = run l (first ∷ times) (restarted b) in
      granted * token + b'.tokens + first * rate l ≤ burst l + b'.last_refill * rate l
unfolding run consume_outbound_rate_limit_token first_use
run_started l first times b =
    run_bound l (first ∷ times)
      (record { initialized = true; tokens = burst l; last_refill = first }) refl

rate_pos : (l : Limits) → 0 < rate l
unfolding rate
rate_pos l = ground arith

-- A refusal asks the client to wait for one second, whatever the rate and the tokens left.
pub retry_after_one : (l : Limits) (b : Bucket) → retry_after l b ≡ 1
unfolding retry_after
retry_after_one l b =
    let scale = rate l * token in
    let missing = token - b.tokens in
    let positive = rate_pos l in
    let at_most =
      (div-lt_iff_lt-mul {k = scale} {x = missing + (scale - 1)} {y = 2}
          (omega (arith, positive))).1
        (omega (arith, positive)) in
    omega (arith, at_most)
