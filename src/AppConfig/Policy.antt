-- ===== src/AppConfig/Policy.antt =====
-- `validateRuntimeSecurityPolicy` of src/utils/AppConfig.h, and the checks it calls. Which files exist
-- is an argument.
use vbgw_pjsip_v.Common.{
  ℕ, ◌*◌, Text, codes, text_eq, is_empty, [], ◌∷◌, ◌++◌, List, Bool, true, false, not, ◌&&◌, ◌||◌,
  ltb, leb, if◌then◌else◌, length,
}
use vbgw_pjsip_v.Common.Int.{ℤ, pos, ltb_ℤ, eqb_ℤ}
use vbgw_pjsip_v.HttpServer.Parse.{to_lower}
use vbgw_pjsip_v.AppConfig.Read.{is_digit}
use vbgw_pjsip_v.AppConfig.Plain.{AppConfig, NatConfig}

unfoldable pub is_production_profile : AppConfig → Bool
is_production_profile c =
    let profile = to_lower c.admin.runtime_profile in
    text_eq profile (codes "prod") || text_eq profile (codes "production")

abbrev pub is_upper : ℕ → Bool
is_upper c = leb 65 c && leb c 90

abbrev pub is_lower : ℕ → Bool
is_lower c = leb 97 c && leb c 122

-- The four flags of `isStrongAdminApiKey`.
pub record Classes : Type 0 where
  pub has_upper : Bool
  pub has_lower : Bool
  pub has_digit : Bool
  pub has_symbol : Bool

unfoldable pub classify : ℕ → Classes → Classes
classify c k =
    if is_upper c
    then record k { has_upper = true }
    else if is_lower c
    then record k { has_lower = true }
    else if is_digit c
    then record k { has_digit = true }
    else record k { has_symbol = true }

-- The loop over the key.
unfoldable pub classes_loop : Text → Classes → Classes
classes_loop [] k = k
classes_loop (c ∷ cs) k = classes_loop cs (classify c k)

abbrev pub no_classes : Classes
no_classes = record { has_upper = false; has_lower = false; has_digit = false; has_symbol = false }

unfoldable pub is_strong_admin_api_key : Text → Bool
is_strong_admin_api_key key =
    let k = classes_loop key no_classes in
    if is_empty key || text_eq key (codes "changeme-admin-key") || ltb (length key) 16
    then false
    else k.has_upper && k.has_lower && k.has_digit && k.has_symbol

-- One message for each check that fails.
unfoldable pub error_if : Bool → Text → List Text
error_if failed message = if failed then message ∷ [] else []

-- `exists` answers for `std::filesystem::exists`; that this may throw is left out.
unfoldable pub validate_file_for_prod : (Text → Bool) → Text → Text → List Text
validate_file_for_prod exists path name =
    if is_empty path
    then (name ++ codes " is required in production profile.") ∷ []
    else error_if (not (exists path)) (name ++ (codes " path does not exist: " ++ path))

-- `range` is how the message prints the two bounds.
unfoldable pub validate_int_range_for_prod : ℤ → ℤ → ℤ → Text → Text → List Text
validate_int_range_for_prod value min_val max_val name range =
    error_if (ltb_ℤ value min_val || ltb_ℤ max_val value)
      (name ++ (codes " must be in range [" ++ (range ++ codes "] in production profile.")))

-- The checks of the transports and of media encryption.
unfoldable pub transport_errors : AppConfig → List Text
transport_errors c =
    error_if (not c.sip.sip_transport_tls_enable) (
      codes
        "SIP transport TLS must be enabled in production profile (SIP_TRANSPORT_TLS_ENABLE=1 or SIP_USE_TLS=1).")
    ++ (error_if (not c.engine.grpc_use_tls)
          (codes "GRPC_USE_TLS must be enabled in production profile.")
        ++ (error_if (not c.sip.srtp_enable)
              (codes "SRTP_ENABLE must be enabled in production profile.")
            ++ error_if (not c.sip.srtp_mandatory)
                (codes "SRTP_MANDATORY must be enabled in production profile.")))

unfoldable pub file_errors : (Text → Bool) → AppConfig → List Text
file_errors exists c =
    validate_file_for_prod exists c.sip.sip_tls_cert_file (codes "SIP_TLS_CERT_FILE")
    ++ (validate_file_for_prod exists c.sip.sip_tls_privkey_file (codes "SIP_TLS_PRIVKEY_FILE")
        ++ (validate_file_for_prod exists c.sip.sip_tls_ca_file (codes "SIP_TLS_CA_FILE")
            ++ (validate_file_for_prod exists c.engine.grpc_tls_ca_cert (codes "GRPC_TLS_CA_CERT")
                ++ (validate_file_for_prod exists c.engine.grpc_tls_client_cert
                      (codes "GRPC_TLS_CLIENT_CERT")
                    ++ validate_file_for_prod exists c.engine.grpc_tls_client_key
                        (codes "GRPC_TLS_CLIENT_KEY")))))

-- The checks of the admin server, of the sound device and of the ports.
unfoldable pub admin_errors : AppConfig → List Text
admin_errors c =
    error_if (not (is_strong_admin_api_key c.admin.admin_api_key)) (
      codes
        "ADMIN_API_KEY must be strong (>=16 chars, upper/lower/digit/symbol, non-default) in production profile.")
    ++ (error_if c.call.pjsip_null_audio
          (codes "PJSIP_NULL_AUDIO must be disabled in production profile.")
        ++ (validate_int_range_for_prod c.admin.admin_api_rate_limit_rps (pos 1) (pos 10000)
              (codes "ADMIN_API_RATE_LIMIT_RPS") (codes "1,10000")
            ++ (validate_int_range_for_prod c.admin.admin_api_rate_limit_burst (pos 1) (pos 100000)
                  (codes "ADMIN_API_RATE_LIMIT_BURST") (codes "1,100000")
                ++ (validate_int_range_for_prod c.admin.admin_api_max_body_bytes (pos 256)
                      (pos (1024 * 1024)) (codes "ADMIN_API_MAX_BODY_BYTES") (codes "256,1048576")
                    ++ (validate_int_range_for_prod c.admin.admin_api_max_header_bytes (pos 1024)
                          (pos (256 * 1024)) (codes "ADMIN_API_MAX_HEADER_BYTES")
                          (codes "1024,262144")
                        ++ (error_if
                              (ltb_ℤ c.admin.admin_api_rate_limit_burst
                                c.admin.admin_api_rate_limit_rps)
                              (codes
                                "ADMIN_API_RATE_LIMIT_BURST must be >= ADMIN_API_RATE_LIMIT_RPS in production profile.")
                            ++ error_if (eqb_ℤ c.sip.sip_port c.admin.http_port) (
                                codes
                                  "SIP_PORT and HTTP_PORT must not be the same in production profile.")))))))

unfoldable pub nat_errors : NatConfig → List Text
nat_errors n =
    error_if
      ((n.sip_ice_enable || n.sip_turn_enable || (n.sip_stun_sip_enable || n.sip_stun_media_enable))
        && is_empty n.sip_stun_server
        && not n.sip_turn_enable)
      (codes "NAT traversal is enabled but SIP_STUN_SERVER is empty and TURN is disabled.")
    ++ (if n.sip_turn_enable
        then error_if (is_empty n.sip_turn_server)
            (codes "SIP_TURN_SERVER is required when SIP_TURN_ENABLE=1.")
          ++ error_if (is_empty n.sip_turn_username || is_empty n.sip_turn_password)
              (codes "SIP_TURN_USERNAME and SIP_TURN_PASSWORD are required when SIP_TURN_ENABLE=1.")
        else [])

-- `local_errors` at the end.
unfoldable pub policy_errors : (Text → Bool) → AppConfig → List Text
policy_errors exists c =
    if is_production_profile c
    then transport_errors c ++ (file_errors exists c ++ (admin_errors c ++ nat_errors c.nat))
    else []

-- The result and what the vector behind `errors` has afterwards.
unfoldable pub validate_runtime_security_policy :
    (Text → Bool) → List Text → AppConfig → Bool × List Text
validate_runtime_security_policy exists errors c =
    let local_errors = policy_errors exists c in (is_empty local_errors, errors ++ local_errors)
