-- ===== src/AppConfig/Passes.antt =====
-- What a configuration satisfies that passes `validateRuntimeSecurityPolicy` of src/utils/AppConfig.h.
use vbgw_pjsip_v.Common.{
  ℕ, ◌≡◌, ◌↔◌, ◌≢◌, ◌⊎◌, refl, sym, Text, is_empty, List, [], ◌∷◌, ◌++◌, Bool, true, false, not,
  ◌||◌, arith,
}
use vbgw_pjsip_v.Common.Int.{ℤ, pos, ◌≤ℤ◌, ltb_ℤ, eqb_ℤ, eqb_ℤ_iff}
use vbgw_pjsip_v.AppConfig.Plain.{AppConfig, NatConfig}
use vbgw_pjsip_v.AppConfig.Policy.{
  is_production_profile, is_strong_admin_api_key, error_if, validate_file_for_prod,
  validate_int_range_for_prod, transport_errors, file_errors, admin_errors, nat_errors,
  policy_errors, validate_runtime_security_policy,
}
use vbgw_pjsip_v.AppConfig.Valid.{InRange}
use vbgw_pjsip_v.AppConfig.Secure.{IsStrong, is_strong_admin_api_key_iff}

abbrev pub IsEncrypted : AppConfig → Type 0
IsEncrypted c =
    (c.sip.sip_transport_tls_enable ≡ true)
    × (c.engine.grpc_use_tls ≡ true)
    × (c.sip.srtp_enable ≡ true)
    × (c.sip.srtp_mandatory ≡ true)

abbrev pub IsFile : (Text → Bool) → Text → Type 0
IsFile exists path = (is_empty path ≡ false) × (exists path ≡ true)

abbrev pub HasFiles : (Text → Bool) → AppConfig → Type 0
HasFiles exists c =
    IsFile exists c.sip.sip_tls_cert_file
    × IsFile exists c.sip.sip_tls_privkey_file
    × IsFile exists c.sip.sip_tls_ca_file
    × IsFile exists c.engine.grpc_tls_ca_cert
    × IsFile exists c.engine.grpc_tls_client_cert
    × IsFile exists c.engine.grpc_tls_client_key

abbrev pub IsGuarded : AppConfig → Type 0
IsGuarded c =
    IsStrong c.admin.admin_api_key
    × (c.call.pjsip_null_audio ≡ false)
    × InRange 1 10000 c.admin.admin_api_rate_limit_rps
    × InRange 1 100000 c.admin.admin_api_rate_limit_burst
    × InRange 256 1048576 c.admin.admin_api_max_body_bytes
    × InRange 1024 262144 c.admin.admin_api_max_header_bytes
    × (c.admin.admin_api_rate_limit_rps ≤ℤ c.admin.admin_api_rate_limit_burst)
    × (c.sip.sip_port ≢ c.admin.http_port)

-- With TURN, all that TURN needs; without it, a STUN server or nothing that wants one.
abbrev pub HasTraversal : NatConfig → Type 0
HasTraversal n =
    ((n.sip_turn_enable ≡ true)
      × (is_empty n.sip_turn_server ≡ false)
      × (is_empty n.sip_turn_username ≡ false)
      × (is_empty n.sip_turn_password ≡ false))
    ⊎ ((n.sip_turn_enable ≡ false)
        × ((is_empty n.sip_stun_server ≡ false)
            ⊎ ((n.sip_ice_enable ≡ false)
                × (n.sip_stun_sip_enable ≡ false)
                × (n.sip_stun_media_enable ≡ false))))

abbrev pub IsSecure : (Text → Bool) → AppConfig → Type 0
IsSecure exists c = IsEncrypted c × HasFiles exists c × IsGuarded c × HasTraversal c.nat

-- There is no message among `errors` exactly if `P`.
record Decides (errors : List Text) (P : Type 0) : Type 0 where
  empty_if : P → is_empty errors ≡ true
  if_empty : is_empty errors ≡ true → P

split_iff :
    {xs ys : List Text} {P Q : Type 0} → Decides xs P → Decides ys Q → Decides (xs ++ ys) (P × Q)
split_iff {xs = []} {ys = ys} p q = record {
  empty_if = λ (a, b). q.empty_if b;
  if_empty = λ e. (p.if_empty refl, q.if_empty e);
}
split_iff {xs = x ∷ xs} {ys = ys} p q = record {
  empty_if = λ (a, b). p.empty_if a;
  if_empty = λ e. absurd (cc);
}

check_iff :
    (failed : Bool) (message : Text) {P : Type 0}
    → ((failed ≡ false) ↔ P)
    → Decides (error_if failed message) P
unfolding error_if
check_iff true message (p, p') = record { empty_if = λ a. sym (p' a); if_empty = λ e. absurd (cc) }
check_iff false message (p, p') = record { empty_if = λ a. refl; if_empty = λ e. p refl }

not_iff : (b : Bool) → (not b ≡ false) ↔ (b ≡ true)
not_iff b = ground arith

validate_file_for_prod_iff :
    (exists : Text → Bool) (path : Text) (name : Text)
    → Decides (validate_file_for_prod exists path name) (IsFile exists path)
unfolding validate_file_for_prod error_if
validate_file_for_prod_iff exists [] name = record {
  empty_if = λ (a, b). absurd (cc);
  if_empty = λ e. absurd (cc);
}
validate_file_for_prod_iff exists (c ∷ cs) name = record {
  empty_if = λ (a, b). rw b refl;
  if_empty = λ e. (refl, ground arith);
}

validate_int_range_for_prod_iff :
    (v : ℤ) (lo hi : ℕ) (name range : Text)
    → Decides (validate_int_range_for_prod v (pos lo) (pos hi) name range) (InRange lo hi v)
unfolding validate_int_range_for_prod
validate_int_range_for_prod_iff v lo hi name range =
    check_iff (ltb_ℤ v (pos lo) || ltb_ℤ (pos hi) v) _ (ground arith)

transport_errors_iff : (c : AppConfig) → Decides (transport_errors c) (IsEncrypted c)
unfolding transport_errors
transport_errors_iff c =
    let parts =
      split_iff
        (check_iff (not c.sip.sip_transport_tls_enable) _ (not_iff c.sip.sip_transport_tls_enable))
        (split_iff (check_iff (not c.engine.grpc_use_tls) _ (not_iff c.engine.grpc_use_tls)) (
          split_iff (check_iff (not c.sip.srtp_enable) _ (not_iff c.sip.srtp_enable))
            (check_iff (not c.sip.srtp_mandatory) _ (not_iff c.sip.srtp_mandatory)))) in
    record {
      empty_if = λ (p, q, r, s). parts.empty_if (p, (q, (r, s)));
      if_empty = λ e. let (p, (q, (r, s))) = parts.if_empty e in (p, q, r, s);
    }

file_errors_iff :
    (exists : Text → Bool) (c : AppConfig) → Decides (file_errors exists c) (HasFiles exists c)
unfolding file_errors
file_errors_iff exists c =
    let file = validate_file_for_prod_iff exists in
    let parts = split_iff (file c.sip.sip_tls_cert_file _) (
      split_iff (file c.sip.sip_tls_privkey_file _) (
        split_iff (file c.sip.sip_tls_ca_file _) (
          split_iff (file c.engine.grpc_tls_ca_cert _) (
            split_iff (file c.engine.grpc_tls_client_cert _)
              (file c.engine.grpc_tls_client_key _))))) in
    record {
      empty_if = λ (p, q, r, s, t, u). parts.empty_if (p, (q, (r, (s, (t, u)))));
      if_empty = λ e. let (p, (q, (r, (s, (t, u))))) = parts.if_empty e in (p, q, r, s, t, u);
    }

IsStrong-iff : (key : Text) → (not (is_strong_admin_api_key key) ≡ false) ↔ IsStrong key
IsStrong-iff key =
    let (f, g) = is_strong_admin_api_key_iff key in
    let (n, n') = not_iff (is_strong_admin_api_key key) in (λ e. f (n e), λ s. n' (g s))

admin_errors_iff : (c : AppConfig) → Decides (admin_errors c) (IsGuarded c)
unfolding admin_errors
admin_errors_iff c =
    let rps = c.admin.admin_api_rate_limit_rps in
    let burst = c.admin.admin_api_rate_limit_burst in
    let parts =
      split_iff
        (check_iff (not (is_strong_admin_api_key c.admin.admin_api_key)) _
          (IsStrong-iff c.admin.admin_api_key))
        (split_iff (check_iff c.call.pjsip_null_audio _ (λ e. e, λ e. e)) (
          split_iff (validate_int_range_for_prod_iff rps 1 10000 _ _) (
            split_iff (validate_int_range_for_prod_iff burst 1 100000 _ _) (
              split_iff
                (validate_int_range_for_prod_iff c.admin.admin_api_max_body_bytes 256 1048576 _ _)
                (split_iff
                  (validate_int_range_for_prod_iff c.admin.admin_api_max_header_bytes 1024 262144 _
                    _)
                  (split_iff (check_iff (ltb_ℤ burst rps) _ (ground arith)) (
                    check_iff (eqb_ℤ c.sip.sip_port c.admin.http_port) _
                      (ground (arith, eqb_ℤ_iff c.sip.sip_port c.admin.http_port))))))))) in
    record {
      empty_if = λ (p, q, r, s, t, u, v, w). parts.empty_if (p, (q, (r, (s, (t, (u, (v, w)))))));
      if_empty = λ e.
          let (p, (q, (r, (s, (t, (u, (v, w))))))) = parts.if_empty e in (p, q, r, s, t, u, v, w);
    }

nat_errors_iff : (n : NatConfig) → Decides (nat_errors n) (HasTraversal n)
unfolding nat_errors error_if
nat_errors_iff n = record { empty_if = ground arith; if_empty = ground arith }

-- Under the production profile the policy passes exactly when SIP, media and gRPC are encrypted,
-- the six certificate files are named and exist, the admin key has sixteen characters of all four
-- classes, the limits are in range and in order, the ports differ, the sound device is on, and NAT
-- traversal has its servers.
pub validate_runtime_security_policy_iff :
    (exists : Text → Bool) (errors : List Text) (c : AppConfig)
    → is_production_profile c ≡ true
    → ((validate_runtime_security_policy exists errors c).0 ≡ true) ↔ IsSecure exists c
unfolding validate_runtime_security_policy policy_errors
validate_runtime_security_policy_iff exists errors c h =
    let parts = split_iff (transport_errors_iff c) (
      split_iff (file_errors_iff exists c)
        (split_iff (admin_errors_iff c) (nat_errors_iff c.nat))) in
    rw h (
      λ e. let (p, (q, (r, s))) = parts.if_empty e in (p, q, r, s),
      λ (p, q, r, s). parts.empty_if (p, (q, (r, s))),
    )
