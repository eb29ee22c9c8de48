-- ===== src/HttpServer/Outbound/Placed.antt =====
-- How the answer to an outbound request depends on what the placing of the call gives back.
use vbgw_pjsip_v.Common.{
  ℕ, ◌≡◌, ◌≢◌, ◌⊎◌, inl, inr, refl, arith, Text, codes, is_empty, Option, none, some, is_some,
  Bool-cases,
}
use vbgw_pjsip_v.RuntimeMetrics.{inc_admin_api_outbound_requests}
use vbgw_pjsip_v.HttpServer.Parse.{after, parse_target_uri}
use vbgw_pjsip_v.HttpServer.Validate.{constant_time_equals, is_valid_sip_uri}
use vbgw_pjsip_v.HttpServer.RateLimit.{consume_outbound_rate_limit_token}
use vbgw_pjsip_v.HttpServer.Response.{
  Response, Settings, Dialled, dialled, not_dialled, Engine, World,
}
use vbgw_pjsip_v.HttpServer.Outbound.{
  dial_result, dial_from, dial, dial_checked, limited, authorised, handle_outbound_call,
}

abbrev pub IsAnswer : Dialled → ℕ → Type 0
IsAnswer (dialled _) status = status ≡ 202
IsAnswer (not_dialled _) status = status ≢ 202

module _ (api : Engine) where
  open api use {State}

  -- No call is placed, or one is and its result decides the answer.
  abbrev pub IsPlaced : World State → Response × World State → Type 0
  IsPlaced w (r, w') =
      ((r.status_code ≢ 202) × (w'.sessions ≡ w.sessions))
      ⊎ ((account : ℕ) × (target_uri : Text) × let d =
              api.make_outbound_call account target_uri (api.select_outbound_account w.engine).1
                w.sessions in
            (w'.sessions ≡ d.2) × IsAnswer d.0 r.status_code)

  dial_result-IsAnswer :
      (target_uri : Text) (d : Dialled) (w : World State)
      → let (r, w') = dial_result api target_uri d w in
        (w'.sessions ≡ w.sessions) × IsAnswer d r.status_code
  unfolding dial_result
  dial_result-IsAnswer target_uri (dialled session_id) w = (refl, refl)
  dial_result-IsAnswer target_uri (not_dialled message) w =
      elim (Bool-cases (is_some (after (codes "Maximum concurrent") message))) [
        | inl full ↦ rw full (refl, λ e. omega (arith, e))
        | inr other ↦ rw other (refl, λ e. omega (arith, e))
      ]

  dial-IsPlaced :
      (account : Option ℕ) (target_uri : Text) (w : World State)
      → IsPlaced w (
          dial_from api account target_uri
            (record w { engine = (api.select_outbound_account w.engine).1 }))
  unfolding dial_from
  dial-IsPlaced none target_uri w = inl (λ e. omega (arith, e), refl)
  dial-IsPlaced (some account) target_uri w =
      let (result, engine, sessions) =
        api.make_outbound_call account target_uri (api.select_outbound_account w.engine).1
          w.sessions in
      inr (
        account,
        target_uri,
        dial_result-IsAnswer target_uri result (record w { engine = engine; sessions = sessions }),
      )

  dial_checked-IsPlaced :
      (target : Option Text) (w : World State) → IsPlaced w (dial_checked api target w)
  unfolding dial_checked dial
  dial_checked-IsPlaced none w = inl (λ e. omega (arith, e), refl)
  dial_checked-IsPlaced (some target_uri) w = elim (Bool-cases (is_valid_sip_uri target_uri)) [
    | inl good ↦ rw good (dial-IsPlaced (api.select_outbound_account w.engine).0 target_uri w)
    | inr bad ↦ rw bad (inl (λ e. omega (arith, e), refl))
  ]

  limited-IsPlaced :
      (cfg : Settings) (now : ℕ) (request_body : Text) (w : World State)
      → IsPlaced w (limited api cfg now request_body w)
  unfolding limited
  limited-IsPlaced cfg now request_body w =
      let (granted, bucket) = consume_outbound_rate_limit_token cfg.limits now w.bucket in
      elim (Bool-cases (consume_outbound_rate_limit_token cfg.limits now w.bucket).0) [
        | inl go ↦
            rw go
              (dial_checked-IsPlaced (parse_target_uri request_body) (record w { bucket = bucket }))
        | inr wait ↦ rw wait (inl (λ e. omega (arith, e), refl))
      ]

  authorised-IsPlaced :
      (cfg : Settings) (now : ℕ) (request_body admin_key : Text) (w : World State)
      → IsPlaced w (authorised api cfg now request_body admin_key w)
  unfolding authorised
  authorised-IsPlaced cfg now request_body admin_key w =
      elim (Bool-cases (is_empty cfg.admin_api_key)) [
        | inl unset ↦ rw unset (inl (λ e. omega (arith, e), refl))
        | inr configured ↦ elim (Bool-cases (is_empty admin_key)) [
          | inl missing ↦ rw (configured, missing) (inl (λ e. omega (arith, e), refl))
          | inr given ↦ elim (Bool-cases (constant_time_equals admin_key cfg.admin_api_key)) [
            | inl same ↦ rw (configured, given, same) (limited-IsPlaced cfg now request_body w)
            | inr wrong ↦ rw (configured, given, wrong) (inl (λ e. omega (arith, e), refl))
          ]
        ]
      ]

  pub handle_outbound_call-IsPlaced :
      (cfg : Settings) (now : ℕ) (request_body admin_key : Text) (w : World State)
      → IsPlaced w (handle_outbound_call api cfg now request_body admin_key w)
  unfolding handle_outbound_call
  handle_outbound_call-IsPlaced cfg now request_body admin_key w =
      authorised-IsPlaced cfg now request_body admin_key
        (record w { metrics = inc_admin_api_outbound_requests w.metrics })
