-- ===== src/AppConfig/Settings.antt =====
-- The fields of `AppConfig` in src/utils/AppConfig.h and the constructor that reads them, section by
-- section as its comments divide them. The sections that only hand on what was read stand in
-- AppConfig/Plain.
use vbgw_pjsip_v.Common.{Text, codes, is_empty, Bool, true, false, not, ◌&&◌, ◌||◌, if◌then◌else◌}
use vbgw_pjsip_v.Common.Int.{ℤ, pos, negsuc, ltb_ℤ}
use vbgw_pjsip_v.AppConfig.Read.{Env, read_str, read_int, read_bool}

pub record SipConfig : Type 0 where
  pub sip_port : ℤ
  pub sip_use_tls : Bool
  pub srtp_enable : Bool
  pub srtp_mandatory : Bool
  pub sip_tls_cert_file : Text
  pub sip_tls_privkey_file : Text
  pub sip_tls_ca_file : Text
  pub sip_transport_udp_enable : Bool
  pub sip_transport_tcp_enable : Bool
  pub sip_transport_tls_enable : Bool
  pub sip_transport_preferred : Text

-- The SIP section, with the forced UDP.
unfoldable pub read_sip : Env → SipConfig
read_sip env =
    let use_tls = read_bool env (codes "SIP_USE_TLS") false in
    let udp = read_bool env (codes "SIP_TRANSPORT_UDP_ENABLE") true in
    let tcp = read_bool env (codes "SIP_TRANSPORT_TCP_ENABLE") false in
    let tls = read_bool env (codes "SIP_TRANSPORT_TLS_ENABLE") use_tls in
    record {
      sip_port = read_int env (codes "SIP_PORT") (pos 5060) (pos 1) (pos 65535);
      sip_use_tls = use_tls;
      srtp_enable = read_bool env (codes "SRTP_ENABLE") false;
      srtp_mandatory = read_bool env (codes "SRTP_MANDATORY") false;
      sip_tls_cert_file = read_str env (codes "SIP_TLS_CERT_FILE") (codes "");
      sip_tls_privkey_file = read_str env (codes "SIP_TLS_PRIVKEY_FILE") (codes "");
      sip_tls_ca_file = read_str env (codes "SIP_TLS_CA_FILE") (codes "");
      sip_transport_udp_enable = if not udp && not tcp && not tls then true else udp;
      sip_transport_tcp_enable = tcp;
      sip_transport_tls_enable = tls;
      sip_transport_preferred =
          read_str env (codes "SIP_TRANSPORT_PREFERRED") (if tls then codes "tls" else codes "udp");
    }

pub record SessionConfig : Type 0 where
  pub sip_prack_mode : Text
  pub sip_session_timer_mode : Text
  pub sip_timer_min_se_secs : ℤ
  pub sip_timer_sess_expires_secs : ℤ
  pub sip_follow_redirect : Bool
  pub sip_redirect_replace_to : Bool
  pub sip_accept_refer : Bool
  pub sip_accept_replaces : Bool

-- The session controls, with the expiry clamped from below.
unfoldable pub read_session : Env → SessionConfig
read_session env =
    let min_se = read_int env (codes "SIP_TIMER_MIN_SE_SECS") (pos 90) (pos 90) (pos 7200) in
    let expires =
      read_int env (codes "SIP_TIMER_SESS_EXPIRES_SECS") (pos 1800) (pos 90) (pos 86400) in
    record {
      sip_prack_mode = read_str env (codes "SIP_PRACK_MODE") (codes "off");
      sip_session_timer_mode = read_str env (codes "SIP_SESSION_TIMER_MODE") (codes "optional");
      sip_timer_min_se_secs = min_se;
      sip_timer_sess_expires_secs = if ltb_ℤ expires min_se then min_se else expires;
      sip_follow_redirect = read_bool env (codes "SIP_FOLLOW_REDIRECT") true;
      sip_redirect_replace_to = read_bool env (codes "SIP_REDIRECT_REPLACE_TO") false;
      sip_accept_refer = read_bool env (codes "SIP_ACCEPT_REFER") true;
      sip_accept_replaces = read_bool env (codes "SIP_ACCEPT_REPLACES") true;
    }

pub record PbxConfig : Type 0 where
  pub uri : Text
  pub id_uri : Text
  pub username : Text
  pub password : Text
  pub register_enable : Bool
  pub enabled : Bool

-- A main PBX also has the older names of its variables.
unfoldable pub read_pbx_main : Env → PbxConfig
read_pbx_main env =
    let uri = read_str env (codes "PBX_MAIN_URI") (read_str env (codes "PBX_URI") (codes "")) in
    let id_uri =
      read_str env (codes "PBX_MAIN_ID_URI") (read_str env (codes "PBX_ID_URI") (codes "")) in
    record {
      uri = uri;
      id_uri = id_uri;
      username =
          read_str env (codes "PBX_MAIN_USERNAME") (read_str env (codes "PBX_USERNAME") (codes ""));
      password =
          read_str env (codes "PBX_MAIN_PASSWORD") (read_str env (codes "PBX_PASSWORD") (codes ""));
      register_enable =
          read_bool env (codes "PBX_MAIN_REGISTER_ENABLE")
            (read_bool env (codes "SIP_REGISTER_ENABLE") true);
      enabled = not (is_empty uri) && not (is_empty id_uri);
    }

unfoldable pub read_pbx_standby : Env → PbxConfig
read_pbx_standby env =
    let uri = read_str env (codes "PBX_STANDBY_URI") (codes "") in
    let id_uri = read_str env (codes "PBX_STANDBY_ID_URI") (codes "") in
    record {
      uri = uri;
      id_uri = id_uri;
      username = read_str env (codes "PBX_STANDBY_USERNAME") (codes "");
      password = read_str env (codes "PBX_STANDBY_PASSWORD") (codes "");
      register_enable = read_bool env (codes "PBX_STANDBY_REGISTER_ENABLE") true;
      enabled = not (is_empty uri) && not (is_empty id_uri);
    }

unfoldable pub pbx_mode : PbxConfig → PbxConfig → Bool
pbx_mode pbx_main pbx_standby = pbx_main.enabled || pbx_standby.enabled

pub record RtpConfig : Type 0 where
  pub rtp_port_min : ℤ
  pub rtp_port_max : ℤ
  pub rtp_stream_keepalive_enable : Bool
  pub rtp_rtcp_mux_enable : Bool
  pub rtp_rtcp_xr_enable : Bool
  pub rtp_rtcp_fb_nack_enable : Bool

-- The RTP section, with the ports swapped where they stand the wrong way round.
unfoldable pub read_rtp : Env → RtpConfig
read_rtp env =
    let low = read_int env (codes "RTP_PORT_MIN") (pos 16000) (pos 1024) (pos 65535) in
    let high = read_int env (codes "RTP_PORT_MAX") (pos 20000) (pos 1024) (pos 65535) in
    let swapped = ltb_ℤ high low in
    record {
      rtp_port_min = if swapped then high else low;
      rtp_port_max = if swapped then low else high;
      rtp_stream_keepalive_enable = read_bool env (codes "RTP_STREAM_KEEPALIVE_ENABLE") true;
      rtp_rtcp_mux_enable = read_bool env (codes "RTP_RTCP_MUX_ENABLE") false;
      rtp_rtcp_xr_enable = read_bool env (codes "RTP_RTCP_XR_ENABLE") true;
      rtp_rtcp_fb_nack_enable = read_bool env (codes "RTP_RTCP_FB_NACK_ENABLE") false;
    }

pub record JitterConfig : Type 0 where
  pub jb_init_ms : ℤ
  pub jb_min_pre_ms : ℤ
  pub jb_max_pre_ms : ℤ
  pub jb_max_ms : ℤ

-- `v >= 0`
abbrev pub is_set : ℤ → Bool
is_set v = not (ltb_ℤ v (pos 0))

-- The swap of the two prefetch bounds, then the clamp of the size.
unfoldable pub order_jitter : JitterConfig → JitterConfig
order_jitter j =
    let swapped =
      is_set j.jb_max_pre_ms && is_set j.jb_min_pre_ms && ltb_ℤ j.jb_max_pre_ms j.jb_min_pre_ms in
    let min_pre = if swapped then j.jb_max_pre_ms else j.jb_min_pre_ms in
    let max_pre = if swapped then j.jb_min_pre_ms else j.jb_max_pre_ms in
    record j {
      jb_min_pre_ms = min_pre;
      jb_max_pre_ms = max_pre;
      jb_max_ms =
          if is_set j.jb_max_ms && is_set max_pre && ltb_ℤ j.jb_max_ms max_pre
          then max_pre
          else j.jb_max_ms;
    }

unfoldable pub read_jitter : Env → JitterConfig
read_jitter env = order_jitter (record {
  jb_init_ms = read_int env (codes "JB_INIT_MS") (pos 100) (negsuc 0) (pos 2000);
  jb_min_pre_ms = read_int env (codes "JB_MIN_PRE_MS") (pos 60) (negsuc 0) (pos 2000);
  jb_max_pre_ms = read_int env (codes "JB_MAX_PRE_MS") (pos 240) (negsuc 0) (pos 2000);
  jb_max_ms = read_int env (codes "JB_MAX_MS") (pos 500) (negsuc 0) (pos 4000);
})

-- The fallback to the older variable, then to the local server.
unfoldable pub read_redis_addr : Env → Text
read_redis_addr env =
    let addr = read_str env (codes "REDIS_ADDR") (codes "") in
    let legacy_redis_url = read_str env (codes "REDIS_URL") (codes "") in
    if is_empty addr
    then if not (is_empty legacy_redis_url) then legacy_redis_url else codes "tcp://127.0.0.1:6379"
    else addr
