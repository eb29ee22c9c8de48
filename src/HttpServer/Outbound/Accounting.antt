-- ===== src/HttpServer/Outbound/Accounting.antt =====
-- Every outbound request is counted once, and by the counter that its status tells of.
use vbgw_pjsip_v.Common.{
  ℕ, inl, inr, Text, codes, is_empty, Option, none, some, is_some, Bool-cases,
}
use vbgw_pjsip_v.RuntimeMetrics.{
  RuntimeMetrics, inc_admin_api_outbound_requests, inc_admin_api_outbound_accepted,
  inc_admin_api_outbound_rejected_auth, inc_admin_api_outbound_rejected_rate_limited,
  inc_admin_api_outbound_rejected_invalid, inc_admin_api_outbound_failed,
}
use vbgw_pjsip_v.HttpServer.Parse.{after, parse_target_uri}
use vbgw_pjsip_v.HttpServer.Validate.{constant_time_equals, is_valid_sip_uri}
use vbgw_pjsip_v.HttpServer.RateLimit.{consume_outbound_rate_limit_token}
use vbgw_pjsip_v.HttpServer.Response.{
  Response, Settings, Dialled, dialled, not_dialled, Engine, World,
}
use vbgw_pjsip_v.HttpServer.Outbound.{
  dial_result, dial_from, dial, dial_checked, limited, authorised, handle_outbound_call,
}

-- The counter that goes with a status, from the counters `m` that the request found.
pub data Counted (m : RuntimeMetrics) : ℕ → RuntimeMetrics → Type 0 where
  accepted : Counted m 202 (inc_admin_api_outbound_accepted m)
  unauthorised : Counted m 401 (inc_admin_api_outbound_rejected_auth m)
  forbidden : Counted m 403 (inc_admin_api_outbound_rejected_auth m)
  too_many : Counted m 429 (inc_admin_api_outbound_rejected_rate_limited m)
  invalid : Counted m 400 (inc_admin_api_outbound_rejected_invalid m)
  broken : Counted m 500 (inc_admin_api_outbound_failed m)
  unavailable : Counted m 503 (inc_admin_api_outbound_failed m)

module _ (api : Engine) where
  open api use {State}

  -- What a part of the handler, which is given the world after the first count, is to show.
  abbrev IsCounted : World State → Response × World State → Type 0
  IsCounted w (r, w') = Counted w.metrics r.status_code w'.metrics

  dial_result-IsCounted :
      (target_uri : Text) (d : Dialled) (w : World State)
      → IsCounted w (dial_result api target_uri d w)
  unfolding dial_result
  dial_result-IsCounted target_uri (dialled session_id) w = accepted
  dial_result-IsCounted target_uri (not_dialled message) w =
      elim (Bool-cases (is_some (after (codes "Maximum concurrent") message))) [
        | inl full ↦ rw full too_many
        | inr other ↦ rw other broken
      ]

  dial_from-IsCounted :
      (account : Option ℕ) (target_uri : Text) (w : World State)
      → IsCounted w (dial_from api account target_uri w)
  unfolding dial_from
  dial_from-IsCounted none target_uri w = unavailable
  dial_from-IsCounted (some account) target_uri w =
      let (result, engine, sessions) =
        api.make_outbound_call account target_uri w.engine w.sessions in
      dial_result-IsCounted target_uri result (record w { engine = engine; sessions = sessions })

  dial_checked-IsCounted :
      (target : Option Text) (w : World State) → IsCounted w (dial_checked api target w)
  unfolding dial_checked dial
  dial_checked-IsCounted none w = invalid
  dial_checked-IsCounted (some target_uri) w = elim (Bool-cases (is_valid_sip_uri target_uri)) [
    | inl good ↦
        let (account, engine) = api.select_outbound_account w.engine in
        rw good (dial_from-IsCounted account target_uri (record w { engine = engine }))
    | inr bad ↦ rw bad invalid
  ]

  limited-IsCounted :
      (cfg : Settings) (now : ℕ) (request_body : Text) (w : World State)
      → IsCounted w (limited api cfg now request_body w)
  unfolding limited
  limited-IsCounted cfg now request_body w =
      let (granted, bucket) = consume_outbound_rate_limit_token cfg.limits now w.bucket in
      elim (Bool-cases (consume_outbound_rate_limit_token cfg.limits now w.bucket).0) [
        | inl go ↦
            rw go (
              dial_checked-IsCounted (parse_target_uri request_body) (record w { bucket = bucket }))
        | inr wait ↦ rw wait too_many
      ]

  authorised-IsCounted :
      (cfg : Settings) (now : ℕ) (request_body admin_key : Text) (w : World State)
      → IsCounted w (authorised api cfg now request_body admin_key w)
  unfolding authorised
  authorised-IsCounted cfg now request_body admin_key w =
      elim (Bool-cases (is_empty cfg.admin_api_key)) [
        | inl unset ↦ rw unset unavailable
        | inr configured ↦ elim (Bool-cases (is_empty admin_key)) [
          | inl missing ↦ rw (configured, missing) unauthorised
          | inr given ↦ elim (Bool-cases (constant_time_equals admin_key cfg.admin_api_key)) [
            | inl same ↦ rw (configured, given, same) (limited-IsCounted cfg now request_body w)
            | inr wrong ↦ rw (configured, given, wrong) forbidden
          ]
        ]
      ]

  -- An outbound request adds one to the requests and one to exactly one of the other outbound
  -- counters, the one that its status stands for, and changes no other counter.
  pub handle_outbound_call-Counted :
      (cfg : Settings) (now : ℕ) (request_body admin_key : Text) (w : World State)
      → let (r, w') = handle_outbound_call api cfg now request_body admin_key w in
        Counted (inc_admin_api_outbound_requests w.metrics) r.status_code w'.metrics
  unfolding handle_outbound_call
  handle_outbound_call-Counted cfg now request_body admin_key w =
      authorised-IsCounted cfg now request_body admin_key
        (record w { metrics = inc_admin_api_outbound_requests w.metrics })
