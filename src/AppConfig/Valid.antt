-- ===== src/AppConfig/Valid.antt =====
-- The ranges and the order that every setting that the constructor in src/utils/AppConfig.h leaves is to keep.
use vbgw_pjsip_v.Common.{ℕ, ◌≡◌, ◌⊎◌, is_empty, true, false, ◌||◌}
use vbgw_pjsip_v.Common.Int.{ℤ, pos, negsuc, ◌≤ℤ◌, ◌<ℤ◌}
use vbgw_pjsip_v.AppConfig.Settings.{SipConfig, SessionConfig, RtpConfig, JitterConfig}
use vbgw_pjsip_v.AppConfig.Plain.{NatConfig, EngineConfig, CallConfig, AdminConfig, AppConfig}

abbrev pub InRange : ℕ → ℕ → ℤ → Type 0
InRange lo hi v = (pos lo ≤ℤ v) × (v ≤ℤ pos hi)

-- From -1, which leaves the choice to PJSIP.
abbrev pub InAutoRange : ℕ → ℤ → Type 0
InAutoRange hi v = (negsuc 0 ≤ℤ v) × (v ≤ℤ pos hi)

-- One of the two is left to PJSIP, or they are in order.
abbrev pub Ordered : ℤ → ℤ → Type 0
Ordered a b = (a <ℤ pos 0) ⊎ (b <ℤ pos 0) ⊎ (a ≤ℤ b)

abbrev pub IsValidJitter : JitterConfig → Type 0
IsValidJitter j =
    InAutoRange 2000 j.jb_init_ms
    × InAutoRange 2000 j.jb_min_pre_ms
    × InAutoRange 2000 j.jb_max_pre_ms
    × InAutoRange 4000 j.jb_max_ms
    × Ordered j.jb_min_pre_ms j.jb_max_pre_ms
    × Ordered j.jb_max_pre_ms j.jb_max_ms

-- Some transport is enabled, and the numbers of a session and of RTP are in range and in order.
abbrev pub IsValidSip : SipConfig → SessionConfig → RtpConfig → Type 0
IsValidSip s t r =
    InRange 1 65535 s.sip_port
    × ((s.sip_transport_udp_enable || s.sip_transport_tcp_enable || s.sip_transport_tls_enable)
        ≡ true)
    × InRange 90 7200 t.sip_timer_min_se_secs
    × InRange 90 86400 t.sip_timer_sess_expires_secs
    × (t.sip_timer_min_se_secs ≤ℤ t.sip_timer_sess_expires_secs)
    × InRange 1024 65535 r.rtp_port_min
    × InRange 1024 65535 r.rtp_port_max
    × (r.rtp_port_min ≤ℤ r.rtp_port_max)

abbrev pub IsValidPlain : NatConfig → EngineConfig → CallConfig → AdminConfig → Type 0
IsValidPlain n e k a =
    InRange 0 2 n.sip_nat_contact_rewrite_mode
    × InRange 0 3600 n.sip_udp_keepalive_interval_secs
    × InRange 1 86400 e.grpc_stream_deadline_secs
    × InRange 1 100 e.grpc_max_reconnect_retries
    × InRange 500 60000 e.grpc_max_backoff_ms
    × InRange 1 10000 k.max_concurrent_calls
    × InRange 0 5000 k.answer_delay_ms
    × InRange 1 60 k.tts_buffer_secs
    × InRange 0 32768 k.speex_agc_level
    × InRange 0 6 k.pjsip_log_level
    × InRange 1 65535 a.http_port
    × InRange 1 10000 a.admin_api_rate_limit_rps
    × InRange 1 100000 a.admin_api_rate_limit_burst
    × InRange 256 1048576 a.admin_api_max_body_bytes
    × InRange 1024 262144 a.admin_api_max_header_bytes
    × InRange 1 3650 a.call_recording_max_days
    × InRange 10 1048576 a.call_recording_max_mb

abbrev pub IsValid : AppConfig → Type 0
IsValid c =
    IsValidSip c.sip c.session c.rtp
    × IsValidPlain c.nat c.engine c.call c.admin
    × IsValidJitter c.jitter
    × (c.pbx_mode ≡ (c.pbx_main.enabled || c.pbx_standby.enabled))
    × (is_empty c.redis_addr ≡ false)
