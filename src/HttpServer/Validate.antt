-- ===== src/HttpServer/Validate.antt =====
-- The checks at the top of src/api/HttpServer.cpp.
use vbgw_pjsip_v.Common.{
  ℕ, zero, suc, ◌+◌, ◌*◌, ◌/◌, ◌%◌, Text, codes, is_empty, [], ◌∷◌, Bool, false, not, ◌&&◌, ◌||◌,
  ltb, leb, ◌==◌, if◌then◌else◌, length, any, all, is_some,
}
use vbgw_pjsip_v.HttpServer.Parse.{strip_prefix}
use vbgw_pjsip_v.RuntimeMetrics.{RuntimeMetrics}

-- The lowest `n` bits of `a ^ b` and of `a | b`.
unfoldable pub xor : ℕ → ℕ → ℕ → ℕ
xor zero a b = 0
xor (suc n) a b =
    let rest = xor n (a / 2) (b / 2) in if a % 2 == b % 2 then 2 * rest else 1 + 2 * rest

unfoldable pub or : ℕ → ℕ → ℕ → ℕ
or zero a b = 0
or (suc n) a b =
    let rest = or n (a / 2) (b / 2) in if a % 2 == 0 && b % 2 == 0 then 2 * rest else 1 + 2 * rest

-- The loop of `constantTimeEquals`; a text that has ended reads 0.
unfoldable pub diff_loop : Text → Text → ℕ → ℕ
diff_loop [] [] diff = diff
diff_loop (a ∷ lhs) [] diff = diff_loop lhs [] (or 8 diff (xor 8 a 0))
diff_loop [] (b ∷ rhs) diff = diff_loop [] rhs (or 8 diff (xor 8 0 b))
diff_loop (a ∷ lhs) (b ∷ rhs) diff = diff_loop lhs rhs (or 8 diff (xor 8 a b))

unfoldable pub constant_time_equals : Text → Text → Bool
unfolding diff_loop
constant_time_equals lhs rhs = diff_loop lhs rhs (xor 8 (length lhs) (length rhs)) == 0

unfoldable pub is_gateway_ready : RuntimeMetrics → Bool
is_gateway_ready metrics =
    let sip_ok = not metrics.sip_pbx_mode || metrics.sip_registered in
    let grpc_ok = metrics.grpc_active_sessions == 0 || metrics.grpc_healthy in sip_ok && grpc_ok

abbrev pub contains_char : Text → ℕ → Bool
contains_char s c = any (λ d. d == c) s

-- A digit, `*`, `#`, or a letter from A to D.
abbrev pub is_dtmf_char : ℕ → Bool
is_dtmf_char c =
    leb 48 c && leb c 57 || c == 42 || c == 35 || leb 65 c && leb c 68 || leb 97 c && leb c 100

unfoldable pub is_valid_dtmf_digits : Text → Bool
is_valid_dtmf_digits digits =
    if is_empty digits || ltb 64 (length digits) then false else all is_dtmf_char digits

-- The characters that could begin another SIP header or a shell command.
abbrev pub injection_chars : Text
injection_chars = codes "\r\n\t <>;\"'`|&"

unfoldable pub is_valid_sip_uri : Text → Bool
is_valid_sip_uri target_uri =
    if ltb (length target_uri) 8 || ltb 256 (length target_uri)
    then false
    else if not (
        is_some (strip_prefix (codes "sip:") target_uri)
        || is_some (strip_prefix (codes "sips:") target_uri))
    then false
    else if not (contains_char target_uri 64)
    then false
    else not (any (contains_char injection_chars) target_uri)
