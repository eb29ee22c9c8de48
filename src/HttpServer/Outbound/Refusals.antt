-- ===== src/HttpServer/Outbound/Refusals.antt =====
-- An outbound request without the key.
use vbgw_pjsip_v.Common.{ℕ, ◌≡◌, ◌≢◌, inl, inr, refl, Text, is_empty, none, Bool-cases}
use vbgw_pjsip_v.HttpServer.Validate.{constant_time_equals}
use vbgw_pjsip_v.HttpServer.Response.{Settings, Engine, World, check_admin_key}
use vbgw_pjsip_v.HttpServer.Outbound.{authorised, handle_outbound_call}

pub handle_outbound_call-refused :
    (api : Engine) (cfg : Settings) (now : ℕ) (body key : Text) (w : World api.State)
    → check_admin_key cfg key ≢ none
    → let w' = (handle_outbound_call api cfg now body key w).1 in
      (w'.engine ≡ w.engine) × (w'.sessions ≡ w.sessions) × (w'.bucket ≡ w.bucket)
unfolding handle_outbound_call authorised check_admin_key
handle_outbound_call-refused api cfg now body key w bad =
    elim (Bool-cases (is_empty cfg.admin_api_key)) [
      | inl unset ↦ rw unset (refl, refl, refl)
      | inr configured ↦ elim (Bool-cases (is_empty key)) [
        | inl missing ↦ rw (configured, missing) (refl, refl, refl)
        | inr given ↦ elim (Bool-cases (constant_time_equals key cfg.admin_api_key)) [
          | inr wrong ↦ rw (configured, given, wrong) (refl, refl, refl)
          | inl right ↦ absurd (bad (rw (configured, given, right) refl))
        ]
      ]
    ]
