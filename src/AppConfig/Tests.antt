-- ===== src/AppConfig/Tests.antt =====
-- Runs of the readers of src/utils/AppConfig.h, and the theorems at concrete settings.
use vbgw_pjsip_v.Common.{
  ◌≡◌, ◌↔◌, refl, Text, codes, text_eq, none, some, List, [], ◌∷◌, ◌++◌, true, if◌then◌else◌,
}
use vbgw_pjsip_v.Common.Int.{pos, negsuc}
use vbgw_pjsip_v.AppConfig.Read.{
  Env, read_env, read_str, read_int, read_bool, stoi, signed, digits_value, is_true_word,
}
use vbgw_pjsip_v.AppConfig.Settings.{read_sip, read_session, read_rtp, read_jitter, order_jitter}
use vbgw_pjsip_v.AppConfig.Plain.{read_admin}
use vbgw_pjsip_v.AppConfig.Load.{settings, validate_ai_addr}
use vbgw_pjsip_v.AppConfig.Policy.{
  is_production_profile, is_strong_admin_api_key, validate_runtime_security_policy,
}
use vbgw_pjsip_v.AppConfig.Secure.{IsStrong, is_strong_admin_api_key_iff}
use vbgw_pjsip_v.AppConfig.Passes.{IsSecure, validate_runtime_security_policy_iff}
use vbgw_pjsip_v.AppConfig.Address.{validate_ai_addr_lem}
use vbgw_pjsip_v.HttpServer.Parse.{skip_spaces, to_lower}

abbrev env_of : List (Text × Text) → Env
env_of [] name = none
env_of ((key, val) ∷ rest) name = if text_eq key name then some val else env_of rest name

-- Settings that stand the wrong way round, out of range and in the wrong form.
abbrev test_env : Env
test_env = env_of (
    (codes "RTP_PORT_MIN", codes "30000")
    ∷ (codes "RTP_PORT_MAX", codes "20000")
    ∷ (codes "JB_MIN_PRE_MS", codes "300")
    ∷ (codes "JB_MAX_MS", codes "200")
    ∷ (codes "SIP_PORT", codes "70000")
    ∷ (codes "HTTP_PORT", codes " +9090x")
    ∷ (codes "SIP_TRANSPORT_UDP_ENABLE", codes "no")
    ∷ (codes "SIP_TIMER_MIN_SE_SECS", codes "3600")
    ∷ (codes "VBGW_PROFILE", codes "Prod")
    ∷ [])

stoi_runs :
    (stoi (codes " -12ab") ≡ some (negsuc 11))
    × (stoi (codes "2147483648") ≡ none)
    × (stoi (codes "-2147483648") ≡ some (negsuc 2147483647))
    × (stoi (codes "x1") ≡ none)
unfolding stoi signed digits_value skip_spaces
stoi_runs = (refl, refl, refl, refl)

settings_runs :
    ((settings test_env).rtp.rtp_port_min ≡ pos 20000)
    × ((settings test_env).rtp.rtp_port_max ≡ pos 30000)
    × ((settings test_env).jitter.jb_min_pre_ms ≡ pos 240)
    × ((settings test_env).jitter.jb_max_ms ≡ pos 300)
    × ((settings test_env).sip.sip_port ≡ pos 5060)
    × ((settings test_env).admin.http_port ≡ pos 9090)
    × ((settings test_env).sip.sip_transport_udp_enable ≡ true)
    × ((settings test_env).session.sip_timer_sess_expires_secs ≡ pos 3600)
    × (is_production_profile (settings test_env) ≡ true)
unfolding settings read_sip read_session read_rtp read_jitter order_jitter read_admin read_int
    read_bool read_str read_env stoi signed digits_value skip_spaces is_true_word to_lower text_eq
    is_production_profile
settings_runs = (refl, refl, refl, refl, refl, refl, refl, refl, refl)

validate_runtime_security_policy_iff_example :
    ((validate_runtime_security_policy (λ path. true) [] (settings test_env)).0 ≡ true)
    ↔ IsSecure (λ path. true) (settings test_env)
unfolding is_production_profile settings read_admin read_str read_env to_lower text_eq
validate_runtime_security_policy_iff_example =
    validate_runtime_security_policy_iff (λ path. true) [] (settings test_env) refl

is_strong_admin_api_key_iff_example :
    (is_strong_admin_api_key (codes "Abcdefgh-1234567") ≡ true)
    ↔ IsStrong (codes "Abcdefgh-1234567")
is_strong_admin_api_key_iff_example = is_strong_admin_api_key_iff (codes "Abcdefgh-1234567")

-- The exception that leaves the constructor.
validate_ai_addr_lem_example : validate_ai_addr (codes "ai" ++ codes ":50051000000") ≡ none
unfolding digits_value
validate_ai_addr_lem_example =
    validate_ai_addr_lem (codes "ai") (codes "50051000000") refl refl refl
