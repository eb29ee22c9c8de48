-- ===== src/HttpServer/Tests.antt =====
-- Runs of the admin server on small requests.
use vbgw_pjsip_v.Common.{
  ℕ, ◌+◌, ◌*◌, ◌≤◌, ◌≡◌, ◌⊎◌, ◌↔◌, refl, Text, codes, [], ◌∷◌, ◌++◌, none, some, true, false, arith,
  length,
}
use vbgw_pjsip_v.Common.Int.{pos}
use vbgw_pjsip_v.Common.Membership.{In}
use vbgw_pjsip_v.RuntimeMetrics.{initial, inc_admin_api_outbound_requests}
use vbgw_pjsip_v.SessionManager.{create}
use vbgw_pjsip_v.HttpServer.Parse.{strip_prefix, parse_json_string_field}
use vbgw_pjsip_v.HttpServer.Validate.{constant_time_equals, is_valid_sip_uri, injection_chars}
use vbgw_pjsip_v.HttpServer.KeyCheck.{constant_time_equals_iff}
use vbgw_pjsip_v.HttpServer.Paths.{is_valid_sip_uri-safe}
use vbgw_pjsip_v.HttpServer.Fields.{parse_json_string_field-object}
use vbgw_pjsip_v.HttpServer.RateLimit.{Bucket, Limits, token, restarted, rate, burst}
use vbgw_pjsip_v.HttpServer.RateLimit.Bound.{run, run_started}
use vbgw_pjsip_v.HttpServer.Response.{Settings, Engine, World, dialled}
use vbgw_pjsip_v.HttpServer.Outbound.{handle_outbound_call}
use vbgw_pjsip_v.HttpServer.Outbound.Accounting.{Counted, handle_outbound_call-Counted}
use vbgw_pjsip_v.HttpServer.Routes.{Request, Pages, serve}
use vbgw_pjsip_v.HttpServer.Routes.Security.{Untouched, serve-Untouched}

-- An engine that counts what it is asked to do.
abbrev counting : Engine
counting = record {
  State = ℕ;
  send_dtmf_to_peer = λ call digits n. ((true, []), n + 1);
  send_dtmf_to_ai = λ call digits n. ((true, []), n + 1);
  transfer_to = λ call uri n. ((true, []), n + 1);
  start_recording = λ call path n. ((true, []), n + 1);
  stop_recording = λ call n. ((true, []), n + 1);
  recording_file_path = λ call n. [];
  bridge_with = λ a b n. ((true, []), n + 1);
  unbridge_with = λ a b n. ((true, []), n + 1);
  select_outbound_account = λ n. (some 0, n);
  make_outbound_call = λ account uri n sessions. (dialled (codes "s"), n + 1, sessions);
}

abbrev blank : Pages ℕ
blank = record {
  health = λ w. [];
  metrics = λ w. [];
  services = λ w. [];
  active_sessions = λ w. [];
  stats = λ call w. (none, []);
}

abbrev limits : Limits
limits = record { rate_limit_rps = pos 20; rate_limit_burst = pos 40 }

abbrev settings : Settings
settings = record { admin_api_key = codes "k1"; limits = limits }

abbrev empty_bucket : Bucket
empty_bucket = record { initialized = false; tokens = 0; last_refill = 0 }

abbrev world : World ℕ
world = record { metrics = initial; bucket = empty_bucket; sessions = create 10 false; engine = 0 }

abbrev order : Request
order = record {
  req_method = codes "POST";
  req_path = codes "/api/v1/calls";
  body = codes "{\"target_uri\":\"sip:a@b.example\"}";
  admin_key = codes "k2";
}

serve-Untouched_example :
    Untouched counting blank world (serve counting blank settings 5 order world).1
serve-Untouched_example =
    serve-Untouched counting blank settings 5 order world (omega arith, (omega arith, tt))
      (omega arith, (omega arith, tt)) (omega arith) (omega arith) (λ e. ground (arith, e))

handle_outbound_call-Counted_example :
    let (r, w') = handle_outbound_call counting settings 5 order.body (codes "k1") world in
    Counted (inc_admin_api_outbound_requests initial) r.status_code w'.metrics
handle_outbound_call-Counted_example =
    handle_outbound_call-Counted counting settings 5 order.body (codes "k1") world

constant_time_equals_iff_example :
    (constant_time_equals (codes "k1") (codes "k2") ≡ true) ↔ (codes "k1" ≡ codes "k2")
constant_time_equals_iff_example =
    constant_time_equals_iff (codes "k1") (codes "k2") (omega arith, (omega arith, tt))
      (omega arith, (omega arith, tt)) (omega arith) (omega arith)

abbrev sip_a : Text
sip_a = codes "sip:a@b.example"

sip_a_valid : is_valid_sip_uri sip_a ≡ true
unfolding is_valid_sip_uri strip_prefix
sip_a_valid = refl

is_valid_sip_uri-safe_example :
    (8 ≤ length sip_a)
    × (length sip_a ≤ 256)
    × ((rest : Text) × ((sip_a ≡ codes "sip:" ++ rest) ⊎ (sip_a ≡ codes "sips:" ++ rest)))
    × In 64 sip_a
    × ((c : ℕ) → In c sip_a → In c injection_chars → ⊥)
is_valid_sip_uri-safe_example = is_valid_sip_uri-safe sip_a sip_a_valid

parse_json_string_field-object_example :
    parse_json_string_field
      (codes "{\"" ++ (codes "digits" ++ (codes "\":\"" ++ (codes "12#" ++ codes "\"}"))))
      (codes "digits")
    ≡ some (codes "12#")
parse_json_string_field-object_example =
    parse_json_string_field-object (codes "digits") (codes "12#") refl

run_started_example :
    let (granted, b') = run limits (7 ∷ 8 ∷ []) (restarted empty_bucket) in
    granted * token + b'.tokens + 7 * rate limits ≤ burst limits + b'.last_refill * rate limits
run_started_example = run_started limits 7 (8 ∷ []) empty_bucket
