-- ===== src/AppConfig/Plain.antt =====
-- The sections of the constructor in src/utils/AppConfig.h that hand on what was read, the check of
-- the address of the AI engine, and the whole constructor.
use vbgw_pjsip_v.Common.{Text, codes, Bool, true, false, ◌*◌}
use vbgw_pjsip_v.Common.Int.{ℤ, pos}
use vbgw_pjsip_v.AppConfig.Read.{Env, read_str, read_int, read_bool}
use vbgw_pjsip_v.AppConfig.Settings.{SipConfig, SessionConfig, PbxConfig, RtpConfig, JitterConfig}

pub record NatConfig : Type 0 where
  pub sip_stun_server : Text
  pub sip_stun_sip_enable : Bool
  pub sip_stun_media_enable : Bool
  pub sip_nat_contact_rewrite_enable : Bool
  pub sip_nat_contact_rewrite_mode : ℤ
  pub sip_nat_via_rewrite_enable : Bool
  pub sip_nat_sdp_rewrite_enable : Bool
  pub sip_nat_sip_outbound_enable : Bool
  pub sip_udp_keepalive_interval_secs : ℤ
  pub sip_ice_enable : Bool
  pub sip_turn_enable : Bool
  pub sip_turn_server : Text
  pub sip_turn_username : Text
  pub sip_turn_password : Text

unfoldable pub read_nat : Env → NatConfig
read_nat env = record {
  sip_stun_server = read_str env (codes "SIP_STUN_SERVER") (codes "");
  sip_stun_sip_enable = read_bool env (codes "SIP_STUN_SIP_ENABLE") false;
  sip_stun_media_enable = read_bool env (codes "SIP_STUN_MEDIA_ENABLE") false;
  sip_nat_contact_rewrite_enable = read_bool env (codes "SIP_NAT_CONTACT_REWRITE_ENABLE") true;
  sip_nat_contact_rewrite_mode =
      read_int env (codes "SIP_NAT_CONTACT_REWRITE_MODE") (pos 1) (pos 0) (pos 2);
  sip_nat_via_rewrite_enable = read_bool env (codes "SIP_NAT_VIA_REWRITE_ENABLE") true;
  sip_nat_sdp_rewrite_enable = read_bool env (codes "SIP_NAT_SDP_REWRITE_ENABLE") false;
  sip_nat_sip_outbound_enable = read_bool env (codes "SIP_NAT_SIP_OUTBOUND_ENABLE") true;
  sip_udp_keepalive_interval_secs =
      read_int env (codes "SIP_UDP_KEEPALIVE_INTERVAL_SECS") (pos 15) (pos 0) (pos 3600);
  sip_ice_enable = read_bool env (codes "SIP_ICE_ENABLE") false;
  sip_turn_enable = read_bool env (codes "SIP_TURN_ENABLE") false;
  sip_turn_server = read_str env (codes "SIP_TURN_SERVER") (codes "");
  sip_turn_username = read_str env (codes "SIP_TURN_USERNAME") (codes "");
  sip_turn_password = read_str env (codes "SIP_TURN_PASSWORD") (codes "");
}

pub record EngineConfig : Type 0 where
  pub ai_engine_addr : Text
  pub grpc_use_tls : Bool
  pub grpc_tls_ca_cert : Text
  pub grpc_tls_client_cert : Text
  pub grpc_tls_client_key : Text
  pub grpc_stream_deadline_secs : ℤ
  pub grpc_max_reconnect_retries : ℤ
  pub grpc_max_backoff_ms : ℤ

unfoldable pub read_engine : Env → EngineConfig
read_engine env = record {
  ai_engine_addr = read_str env (codes "AI_ENGINE_ADDR") (codes "localhost:50051");
  grpc_use_tls = read_bool env (codes "GRPC_USE_TLS") false;
  grpc_tls_ca_cert = read_str env (codes "GRPC_TLS_CA_CERT") (codes "");
  grpc_tls_client_cert = read_str env (codes "GRPC_TLS_CLIENT_CERT") (codes "");
  grpc_tls_client_key = read_str env (codes "GRPC_TLS_CLIENT_KEY") (codes "");
  grpc_stream_deadline_secs =
      read_int env (codes "GRPC_STREAM_DEADLINE_SECS") (pos 86400) (pos 1) (pos 86400);
  grpc_max_reconnect_retries =
      read_int env (codes "GRPC_MAX_RECONNECT_RETRIES") (pos 5) (pos 1) (pos 100);
  grpc_max_backoff_ms = read_int env (codes "GRPC_MAX_BACKOFF_MS") (pos 4000) (pos 500) (pos 60000);
}

-- The model of the VAD, the sessions, the speech filters and the logs.
pub record CallConfig : Type 0 where
  pub silero_vad_model_path : Text
  pub max_concurrent_calls : ℤ
  pub answer_delay_ms : ℤ
  pub tts_buffer_secs : ℤ
  pub speex_denoise_enable : Bool
  pub speex_agc_enable : Bool
  pub speex_agc_level : ℤ
  pub log_level : Text
  pub log_dir : Text
  pub pjsip_log_level : ℤ
  pub pjsip_null_audio : Bool
  pub routing_config_path : Text

unfoldable pub read_call : Env → CallConfig
read_call env = record {
  silero_vad_model_path =
      read_str env (codes "SILERO_VAD_MODEL_PATH") (codes "models/silero_vad.onnx");
  max_concurrent_calls = read_int env (codes "MAX_CONCURRENT_CALLS") (pos 100) (pos 1) (pos 10000);
  answer_delay_ms = read_int env (codes "ANSWER_DELAY_MS") (pos 200) (pos 0) (pos 5000);
  tts_buffer_secs = read_int env (codes "TTS_BUFFER_SECS") (pos 5) (pos 1) (pos 60);
  speex_denoise_enable = read_bool env (codes "SPEEX_DENOISE_ENABLE") true;
  speex_agc_enable = read_bool env (codes "SPEEX_AGC_ENABLE") true;
  speex_agc_level = read_int env (codes "SPEEX_AGC_LEVEL") (pos 16000) (pos 0) (pos 32768);
  log_level = read_str env (codes "LOG_LEVEL") (codes "info");
  log_dir = read_str env (codes "LOG_DIR") (codes "logs");
  pjsip_log_level = read_int env (codes "PJSIP_LOG_LEVEL") (pos 3) (pos 0) (pos 6);
  pjsip_null_audio = read_bool env (codes "PJSIP_NULL_AUDIO") false;
  routing_config_path = read_str env (codes "ROUTING_CONFIG_PATH") (codes "config/routing.yaml");
}

-- The admin server, the profile, the recordings and the webhook.
pub record AdminConfig : Type 0 where
  pub http_port : ℤ
  pub admin_api_key : Text
  pub admin_api_rate_limit_rps : ℤ
  pub admin_api_rate_limit_burst : ℤ
  pub admin_api_max_body_bytes : ℤ
  pub admin_api_max_header_bytes : ℤ
  pub runtime_profile : Text
  pub call_recording_enable : Bool
  pub call_recording_dir : Text
  pub call_recording_max_days : ℤ
  pub call_recording_max_mb : ℤ
  pub cdr_webhook_enable : Bool
  pub cdr_webhook_url : Text

unfoldable pub read_admin : Env → AdminConfig
read_admin env = record {
  http_port = read_int env (codes "HTTP_PORT") (pos 8080) (pos 1) (pos 65535);
  admin_api_key = read_str env (codes "ADMIN_API_KEY") (codes "changeme-admin-key");
  admin_api_rate_limit_rps =
      read_int env (codes "ADMIN_API_RATE_LIMIT_RPS") (pos 20) (pos 1) (pos 10000);
  admin_api_rate_limit_burst =
      read_int env (codes "ADMIN_API_RATE_LIMIT_BURST") (pos 40) (pos 1) (pos 100000);
  admin_api_max_body_bytes =
      read_int env (codes "ADMIN_API_MAX_BODY_BYTES") (pos 8192) (pos 256) (pos (1024 * 1024));
  admin_api_max_header_bytes =
      read_int env (codes "ADMIN_API_MAX_HEADER_BYTES") (pos 16384) (pos 1024) (pos (256 * 1024));
  runtime_profile = read_str env (codes "VBGW_PROFILE") (codes "dev");
  call_recording_enable = read_bool env (codes "CALL_RECORDING_ENABLE") false;
  call_recording_dir = read_str env (codes "CALL_RECORDING_DIR") (codes "recordings");
  call_recording_max_days =
      read_int env (codes "CALL_RECORDING_MAX_DAYS") (pos 30) (pos 1) (pos 3650);
  call_recording_max_mb =
      read_int env (codes "CALL_RECORDING_MAX_MB") (pos 1024) (pos 10) (pos 1048576);
  cdr_webhook_enable = read_bool env (codes "CDR_WEBHOOK_ENABLE") false;
  cdr_webhook_url = read_str env (codes "CDR_WEBHOOK_URL") (codes "");
}

pub record AppConfig : Type 0 where
  pub sip : SipConfig
  pub nat : NatConfig
  pub session : SessionConfig
  pub pbx_main : PbxConfig
  pub pbx_standby : PbxConfig
  pub pbx_mode : Bool
  pub engine : EngineConfig
  pub call : CallConfig
  pub rtp : RtpConfig
  pub jitter : JitterConfig
  pub admin : AdminConfig
  pub redis_addr : Text
