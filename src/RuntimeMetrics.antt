-- ===== src/RuntimeMetrics.antt =====
-- src/utils/RuntimeMetrics.h: the process-wide registry of counters and gauges. Each member is an
-- atomic, so each method is one step; `decrementWithFloor`, a compare-and-swap loop, is in `Floor`.
pub mod Floor
mod Tests
use vbgw_pjsip_v.Common.{ℕ, ◌+◌, ◌-◌, ◌%◌, ◌^◌, Bool, true, false, not, ◌||◌, ◌&&◌, ◌==◌}

-- The atomics. A status code is a SIP code, which is not negative.
pub record RuntimeMetrics : Type 0 where
  pub sip_pbx_mode : Bool
  pub sip_registered : Bool
  pub sip_last_status_code : ℕ
  pub grpc_active_sessions : ℕ
  pub grpc_queued_frames : ℕ
  pub grpc_dropped_frames_total : ℕ
  pub grpc_reconnect_attempts_total : ℕ
  pub grpc_stream_errors_total : ℕ
  pub grpc_healthy : Bool
  pub vad_speech_events_total : ℕ
  pub barge_in_events_total : ℕ
  pub admin_api_outbound_requests_total : ℕ
  pub admin_api_outbound_accepted_total : ℕ
  pub admin_api_outbound_rejected_auth_total : ℕ
  pub admin_api_outbound_rejected_rate_limited_total : ℕ
  pub admin_api_outbound_rejected_invalid_total : ℕ
  pub admin_api_outbound_failed_total : ℕ

-- `std::atomic<std::uint64_t>::fetch_add` wraps.
abbrev pub add_u64 : ℕ → ℕ → ℕ
add_u64 a b = (a + b) % 2 ^ 64

-- The values at start-up, which are those of `resetForTest`.
abbrev pub initial : RuntimeMetrics
initial = record {
  sip_pbx_mode = false;
  sip_registered = false;
  sip_last_status_code = 0;
  grpc_active_sessions = 0;
  grpc_queued_frames = 0;
  grpc_dropped_frames_total = 0;
  grpc_reconnect_attempts_total = 0;
  grpc_stream_errors_total = 0;
  grpc_healthy = true;
  vad_speech_events_total = 0;
  barge_in_events_total = 0;
  admin_api_outbound_requests_total = 0;
  admin_api_outbound_accepted_total = 0;
  admin_api_outbound_rejected_auth_total = 0;
  admin_api_outbound_rejected_rate_limited_total = 0;
  admin_api_outbound_rejected_invalid_total = 0;
  admin_api_outbound_failed_total = 0;
}

unfoldable pub reset_for_test : RuntimeMetrics → RuntimeMetrics
reset_for_test m = initial

abbrev pub set_sip_mode : Bool → RuntimeMetrics → RuntimeMetrics
set_sip_mode pbx_mode m = record m { sip_pbx_mode = pbx_mode }

abbrev pub set_sip_registration : Bool → ℕ → RuntimeMetrics → RuntimeMetrics
set_sip_registration is_registered status_code m = record m {
  sip_registered = is_registered;
  sip_last_status_code = status_code;
}

-- A decrement that no other thread disturbs: it stops at 0.
abbrev pub sub_floor : ℕ → ℕ → ℕ
sub_floor current delta = current - delta

abbrev pub mark_grpc_healthy : RuntimeMetrics → RuntimeMetrics
mark_grpc_healthy m = record m { grpc_healthy = true }

abbrev pub mark_grpc_unhealthy : RuntimeMetrics → RuntimeMetrics
mark_grpc_unhealthy m = record m { grpc_healthy = false }

abbrev pub dec_grpc_active_sessions : RuntimeMetrics → RuntimeMetrics
dec_grpc_active_sessions m = record m { grpc_active_sessions = sub_floor m.grpc_active_sessions 1 }

abbrev pub add_grpc_queued_frames : ℕ → RuntimeMetrics → RuntimeMetrics
add_grpc_queued_frames delta m = record m {
  grpc_queued_frames = add_u64 m.grpc_queued_frames delta;
}

abbrev pub sub_grpc_queued_frames : ℕ → RuntimeMetrics → RuntimeMetrics
sub_grpc_queued_frames delta m = record m {
  grpc_queued_frames = sub_floor m.grpc_queued_frames delta;
}

abbrev pub inc_grpc_active_sessions : RuntimeMetrics → RuntimeMetrics
inc_grpc_active_sessions m = record m { grpc_active_sessions = add_u64 m.grpc_active_sessions 1 }

abbrev pub inc_grpc_dropped_frames : RuntimeMetrics → RuntimeMetrics
inc_grpc_dropped_frames m = record m {
  grpc_dropped_frames_total = add_u64 m.grpc_dropped_frames_total 1;
}

abbrev pub inc_grpc_reconnect_attempts : RuntimeMetrics → RuntimeMetrics
inc_grpc_reconnect_attempts m = record m {
  grpc_reconnect_attempts_total = add_u64 m.grpc_reconnect_attempts_total 1;
}

abbrev pub inc_grpc_stream_errors : RuntimeMetrics → RuntimeMetrics
inc_grpc_stream_errors m = record m {
  grpc_stream_errors_total = add_u64 m.grpc_stream_errors_total 1;
}

abbrev pub inc_vad_speech_events : RuntimeMetrics → RuntimeMetrics
inc_vad_speech_events m = record m { vad_speech_events_total = add_u64 m.vad_speech_events_total 1 }

abbrev pub inc_barge_in_events : RuntimeMetrics → RuntimeMetrics
inc_barge_in_events m = record m { barge_in_events_total = add_u64 m.barge_in_events_total 1 }

abbrev pub inc_admin_api_outbound_requests : RuntimeMetrics → RuntimeMetrics
inc_admin_api_outbound_requests m = record m {
  admin_api_outbound_requests_total = add_u64 m.admin_api_outbound_requests_total 1;
}

abbrev pub inc_admin_api_outbound_accepted : RuntimeMetrics → RuntimeMetrics
inc_admin_api_outbound_accepted m = record m {
  admin_api_outbound_accepted_total = add_u64 m.admin_api_outbound_accepted_total 1;
}

abbrev pub inc_admin_api_outbound_rejected_auth : RuntimeMetrics → RuntimeMetrics
inc_admin_api_outbound_rejected_auth m = record m {
  admin_api_outbound_rejected_auth_total = add_u64 m.admin_api_outbound_rejected_auth_total 1;
}

abbrev pub inc_admin_api_outbound_rejected_rate_limited : RuntimeMetrics → RuntimeMetrics
inc_admin_api_outbound_rejected_rate_limited m = record m {
  admin_api_outbound_rejected_rate_limited_total =
      add_u64 m.admin_api_outbound_rejected_rate_limited_total 1;
}

abbrev pub inc_admin_api_outbound_rejected_invalid : RuntimeMetrics → RuntimeMetrics
inc_admin_api_outbound_rejected_invalid m = record m {
  admin_api_outbound_rejected_invalid_total = add_u64 m.admin_api_outbound_rejected_invalid_total 1;
}

abbrev pub inc_admin_api_outbound_failed : RuntimeMetrics → RuntimeMetrics
inc_admin_api_outbound_failed m = record m {
  admin_api_outbound_failed_total = add_u64 m.admin_api_outbound_failed_total 1;
}
