-- ===== src/HttpServer/Handlers.antt =====
-- The handlers of src/api/HttpServer.cpp that act on a call.
use vbgw_pjsip_v.Common.{
  Text, codes, text_eq, Option, none, some, [], ◌++◌, Bool, true, not, ◌||◌, if◌then◌else◌,
}
use vbgw_pjsip_v.AppConfig.{json_escape}
use vbgw_pjsip_v.SessionManager.{CallRef, CallPtr, get_call}
use vbgw_pjsip_v.HttpServer.Parse.{parse_json_string_field, trim, to_lower}
use vbgw_pjsip_v.HttpServer.Validate.{is_valid_dtmf_digits, is_valid_sip_uri}
use vbgw_pjsip_v.HttpServer.Response.{
  Response, Settings, Engine, World, check_admin_key, unless_answered, call_not_found,
  invalid_request, answer,
}

module _ (api : Engine) where
  open api use {
    State, send_dtmf_to_peer, send_dtmf_to_ai, transfer_to, start_recording, stop_recording,
    recording_file_path, bridge_with, unbridge_with,
  }

  -- A handler goes on with the call, or answers that there is none.
  abbrev pub with_call :
      CallPtr → World State → (CallRef → Response × World State) → Response × World State
  with_call none w next = (call_not_found, w)
  with_call (some call) w next = next call

  -- The first argument is the result so far.
  send_ai : (Bool × Text) × State → Bool → CallRef → Text → (Bool × Text) × State
  send_ai ((true, message), s) true call digits = send_dtmf_to_ai call digits s
  send_ai sent _ call digits = sent

  unfoldable pub send_digits : Text → CallRef → Text → State → (Bool × Text) × State
  unfolding send_ai
  send_digits target call digits s =
      let both = text_eq target (codes "both") in
      send_ai
        (if text_eq target (codes "peer") || both
          then send_dtmf_to_peer call digits s
          else ((true, []), s))
        (text_eq target (codes "ai") || both) call digits

  abbrev is_target : Text → Bool
  is_target target =
      text_eq target (codes "peer") || text_eq target (codes "ai") || text_eq target (codes "both")

  abbrev target_or_peer : Option Text → Text
  target_or_peer none = codes "peer"
  target_or_peer (some target) = target

  dtmf_with : Option Text → Text → Text → World State → Response × World State
  dtmf_with none session_id json_body w =
      (invalid_request (codes "digits must be valid DTMF chars"), w)
  dtmf_with (some digits) session_id json_body w =
      let target =
        to_lower (trim (target_or_peer (parse_json_string_field json_body (codes "target")))) in
      if not (is_valid_dtmf_digits digits)
      then (invalid_request (codes "digits must be valid DTMF chars"), w)
      else if not (is_target target)
      then (invalid_request (codes "target must be peer|ai|both"), w)
      else with_call (get_call session_id w.sessions) w (λ call.
        answer (send_digits target call digits w.engine) w (codes "dtmf_send_failed") (λ s.
          codes "{\"status\":\"Accepted\",\"session_id\":\""
          ++ session_id
          ++ codes "\",\"target\":\""
          ++ target
          ++ codes "\",\"digits\":\""
          ++ json_escape digits
          ++ codes "\"}"))

  unfoldable pub handle_call_dtmf :
      Settings → Text → Text → Text → World State → Response × World State
  unfolding dtmf_with
  handle_call_dtmf cfg session_id json_body admin_key w =
      unless_answered (check_admin_key cfg admin_key) w
        (dtmf_with (parse_json_string_field json_body (codes "digits")) session_id json_body w)

  transfer_with : Option Text → Text → World State → Response × World State
  transfer_with none session_id w =
      (invalid_request (codes "target_uri must be a valid sip/sips URI"), w)
  transfer_with (some target_uri) session_id w =
      if not (is_valid_sip_uri target_uri)
      then (invalid_request (codes "target_uri must be a valid sip/sips URI"), w)
      else with_call (get_call session_id w.sessions) w (λ call.
        answer (transfer_to call target_uri w.engine) w (codes "transfer_failed") (λ s.
          codes "{\"status\":\"Accepted\",\"session_id\":\""
          ++ session_id
          ++ codes "\",\"target_uri\":\""
          ++ json_escape target_uri
          ++ codes "\"}"))

  unfoldable pub handle_call_transfer :
      Settings → Text → Text → Text → World State → Response × World State
  unfolding transfer_with
  handle_call_transfer cfg session_id json_body admin_key w =
      unless_answered (check_admin_key cfg admin_key) w
        (transfer_with (parse_json_string_field json_body (codes "target_uri")) session_id w)

  abbrev path_or_empty : Option Text → Text
  path_or_empty none = []
  path_or_empty (some path) = path

  unfoldable pub handle_call_record_start :
      Settings → Text → Text → Text → World State → Response × World State
  handle_call_record_start cfg session_id json_body admin_key w =
      unless_answered (check_admin_key cfg admin_key) w (
        with_call (get_call session_id w.sessions) w (λ call.
          let path = path_or_empty (parse_json_string_field json_body (codes "file_path")) in
          answer (start_recording call path w.engine) w (codes "record_start_failed") (λ s.
            codes "{\"status\":\"Accepted\",\"session_id\":\""
            ++ session_id
            ++ codes "\",\"recording\":true,\"file_path\":\""
            ++ json_escape (recording_file_path call s)
            ++ codes "\"}")))

  unfoldable pub handle_call_record_stop :
      Settings → Text → Text → World State → Response × World State
  handle_call_record_stop cfg session_id admin_key w =
      unless_answered (check_admin_key cfg admin_key) w (
        with_call (get_call session_id w.sessions) w (λ call.
          answer (stop_recording call w.engine) w (codes "record_stop_failed") (λ s.
            codes "{\"status\":\"Accepted\",\"session_id\":\""
            ++ session_id
            ++ codes "\",\"recording\":false,\"file_path\":\""
            ++ json_escape (recording_file_path call s)
            ++ codes "\"}")))

  bridge_sessions : Bool → Option Text → Option Text → World State → Response × World State
  bridge_sessions unbridge (some session_a) (some session_b) w =
      with_call (get_call session_a w.sessions) w (λ a.
        with_call (get_call session_b w.sessions) w (λ b.
          answer (if unbridge then unbridge_with a b w.engine else bridge_with a b w.engine) w
            (codes "bridge_failed")
            (λ s.
              codes "{\"status\":\"Accepted\",\"action\":\""
              ++ (if unbridge then codes "unbridge" else codes "bridge")
              ++ codes "\",\"session_a\":\""
              ++ session_a
              ++ codes "\",\"session_b\":\""
              ++ session_b
              ++ codes "\"}")))
  bridge_sessions unbridge _ _ w = (invalid_request (codes "call_a and call_b must be strings"), w)

  unfoldable pub handle_bridge_calls :
      Settings → Text → Text → Bool → World State → Response × World State
  unfolding bridge_sessions
  handle_bridge_calls cfg json_body admin_key unbridge w =
      unless_answered (check_admin_key cfg admin_key) w (
        bridge_sessions unbridge (parse_json_string_field json_body (codes "call_a"))
          (parse_json_string_field json_body (codes "call_b")) w)
