-- ===== src/HttpServer/Outbound.antt =====
-- `HttpServer::handleOutboundCall` of src/api/HttpServer.cpp.
pub mod Accounting
pub mod Placed
pub mod Refusals
use vbgw_pjsip_v.Common.{
  ℕ, ◌+◌, Text, codes, text_eq, is_empty, Option, none, some, List, [], ◌∷◌, ◌++◌, Bool, true,
  false, not, ◌||◌, if◌then◌else◌, is_some,
}
use vbgw_pjsip_v.AppConfig.{json_escape}
use vbgw_pjsip_v.RuntimeMetrics.{
  RuntimeMetrics, inc_admin_api_outbound_requests, inc_admin_api_outbound_accepted,
  inc_admin_api_outbound_rejected_auth, inc_admin_api_outbound_rejected_rate_limited,
  inc_admin_api_outbound_rejected_invalid, inc_admin_api_outbound_failed,
}
use vbgw_pjsip_v.SessionManager.{SessionManager}
use vbgw_pjsip_v.HttpServer.Parse.{after, parse_target_uri}
use vbgw_pjsip_v.HttpServer.Validate.{constant_time_equals, is_valid_sip_uri}
use vbgw_pjsip_v.HttpServer.RateLimit.{Bucket, consume_outbound_rate_limit_token, retry_after}
use vbgw_pjsip_v.HttpServer.Response.{
  Response, respond, Settings, Dialled, dialled, not_dialled, Engine, World, invalid_request,
}

-- The decimal digits of a number below 10, which a time to wait is.
abbrev digit : ℕ → Text
digit n = (48 + n) ∷ []

abbrev rate_limited : ℕ → Response
rate_limited seconds = record {
  status_code = 429;
  status_text = codes "Too Many Requests";
  body = codes "{\"error\":\"rate_limited\",\"message\":\"outbound call API rate limit exceeded\"}";
  extra_headers = (codes "Retry-After", digit seconds) ∷ [];
}

-- A response, with the counter that goes with it.
abbrev pub counted :
    {S : Type 0} → (RuntimeMetrics → RuntimeMetrics) → Response → World S → Response × World S
counted inc r w = (r, record w { metrics = inc w.metrics })

module _ (api : Engine) where
  open api use {State, select_outbound_account, make_outbound_call}

  abbrev dial_failed : Text → Text → ℕ → Response
  dial_failed message status_text status_code = respond status_code status_text (
      codes "{\"error\":\"outbound_call_failed\",\"message\":\""
      ++ json_escape (if is_empty message then codes "unknown outbound call failure" else message)
      ++ codes "\"}")

  dial_result : Text → Dialled → World State → Response × World State
  dial_result target_uri (dialled session_id) w =
      counted inc_admin_api_outbound_accepted
        (respond 202 (codes "Accepted") (
          codes
            "{\"status\":\"Accepted\",\"message\":\"Outbound call initiated.\",\"target_uri\":\""
          ++ json_escape target_uri
          ++ codes "\",\"session_id\":\""
          ++ session_id
          ++ codes "\"}"))
        w
  dial_result target_uri (not_dialled message) w =
      if is_some (after (codes "Maximum concurrent") message)
      then counted inc_admin_api_outbound_rejected_rate_limited
          (dial_failed message (codes "Too Many Requests") 429) w
      else counted inc_admin_api_outbound_failed
          (dial_failed message (codes "Internal Server Error") 500) w

  dial_from : Option ℕ → Text → World State → Response × World State
  dial_from none target_uri w =
      counted inc_admin_api_outbound_failed
        (respond 503 (codes "Service Unavailable")
          (codes "{\"error\":\"voicebot_account_not_ready\"}"))
        w
  dial_from (some account) target_uri w =
      let (result, engine, sessions) = make_outbound_call account target_uri w.engine w.sessions in
      dial_result target_uri result (record w { engine = engine; sessions = sessions })

  -- What follows the checks of the request.
  dial : Text → World State → Response × World State
  dial target_uri w =
      let (account, engine) = select_outbound_account w.engine in
      dial_from account target_uri (record w { engine = engine })

  dial_checked : Option Text → World State → Response × World State
  dial_checked none w =
      counted inc_admin_api_outbound_rejected_invalid
        (invalid_request (codes "target_uri must be a valid sip/sips URI")) w
  dial_checked (some target_uri) w =
      if not (is_valid_sip_uri target_uri)
      then counted inc_admin_api_outbound_rejected_invalid
          (invalid_request (codes "target_uri must be a valid sip/sips URI")) w
      else dial target_uri w

  -- What follows the checks of the key.
  limited : Settings → ℕ → Text → World State → Response × World State
  limited cfg now request_body w =
      let (granted, bucket) = consume_outbound_rate_limit_token cfg.limits now w.bucket in
      let w' = record w { bucket = bucket } in
      if not granted
      then counted inc_admin_api_outbound_rejected_rate_limited
          (rate_limited (retry_after cfg.limits bucket)) w'
      else dial_checked (parse_target_uri request_body) w'

  authorised : Settings → ℕ → Text → Text → World State → Response × World State
  authorised cfg now request_body admin_key w =
      if is_empty cfg.admin_api_key
      then counted inc_admin_api_outbound_failed
          (respond 503 (codes "Service Unavailable")
            (codes "{\"error\":\"admin_api_key_not_configured\"}"))
          w
      else if is_empty admin_key
      then counted inc_admin_api_outbound_rejected_auth
          (respond 401 (codes "Unauthorized") (codes "{\"error\":\"missing_admin_key\"}")) w
      else if not (constant_time_equals admin_key cfg.admin_api_key)
      then counted inc_admin_api_outbound_rejected_auth
          (respond 403 (codes "Forbidden") (codes "{\"error\":\"invalid_admin_key\"}")) w
      else limited cfg now request_body w

  unfoldable pub handle_outbound_call :
      Settings → ℕ → Text → Text → World State → Response × World State
  unfolding authorised limited dial_checked dial dial_from dial_result
  handle_outbound_call cfg now request_body admin_key w =
      authorised cfg now request_body admin_key
        (record w { metrics = inc_admin_api_outbound_requests w.metrics })
