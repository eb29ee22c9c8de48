-- ===== src/VoicebotCall/Control.antt =====
-- What the admin server, the menu and the timers have a call of src/engine/VoicebotCall.cpp do.
use vbgw_pjsip_v.Common.{
  ℕ, Text, codes, is_empty, Option, none, some, List, [], ◌∷◌, Bool, true, false, not, ◌||◌, ltb,
  if◌then◌else◌, length, any, all, is_some,
}
use vbgw_pjsip_v.RuntimeMetrics.{RuntimeMetrics}
use vbgw_pjsip_v.HttpServer.Parse.{strip_prefix}
use vbgw_pjsip_v.HttpServer.Validate.{is_dtmf_char, contains_char, injection_chars}
use vbgw_pjsip_v.VoicebotAiClient.{Client, send_dtmf}
use vbgw_pjsip_v.IvrManager.{
  Callback, dtmf_forward, transfer_requested, disconnect_requested, repeat_menu, enter_ai_chat,
  handle_dtmf,
}
use vbgw_pjsip_v.VoicebotCall.{Platform, World, hung_up, transferred, dialled_dtmf, emit, set_call}

unfoldable pub is_valid_dtmf_digits : Text → Bool
is_valid_dtmf_digits digits = if is_empty digits then false else all is_dtmf_char digits

unfoldable pub is_valid_transfer_target : Text → Bool
is_valid_transfer_target target_uri =
    let scheme_ok =
      is_some (strip_prefix (codes "sip:") target_uri)
      || is_some (strip_prefix (codes "sips:") target_uri) in
    if ltb (length target_uri) 8 || ltb 256 (length target_uri)
    then false
    else if not scheme_ok || not (contains_char target_uri 64)
    then false
    else if any (contains_char injection_chars) target_uri
    then false
    else true

-- The codes of `PJSIP_SC_…` that the call answers.
abbrev pub sc_decline : ℕ
sc_decline = 603

abbrev pub sc_service_unavailable : ℕ
sc_service_unavailable = 503

-- The loop of `sendDtmfToAi`.
unfoldable pub send_each : Text → Client × RuntimeMetrics → Client × RuntimeMetrics
send_each [] q = q
send_each (c ∷ cs) q = send_each cs (send_dtmf (c ∷ []) q)

module _ (p : Platform) where
  -- The answer of PJSIP, and the effect where there was no error.
  abbrev pub try_effect : Option Text → World p → World p → (Bool × Text) × World p
  try_effect none w after = ((true, []), after)
  try_effect (some info) w after = ((false, info), w)

  unfoldable pub send_dtmf_to_peer : Text → Option Text → World p → (Bool × Text) × World p
  send_dtmf_to_peer digits pj_error w =
      if not (is_valid_dtmf_digits digits)
      then ((false, codes "invalid_dtmf_digits"), w)
      else try_effect pj_error w (emit p (dialled_dtmf digits) w)

  unfoldable pub send_to : Text → Option Client → World p → (Bool × Text) × World p
  send_to digits none w = ((false, codes "ai_session_not_ready"), w)
  send_to digits (some client) w =
      let (after, metrics) = send_each digits (client, w.metrics) in
      ((true, []), record w { call = record w.call { ai_client = some after }; metrics = metrics })

  unfoldable pub send_dtmf_to_ai : Text → World p → (Bool × Text) × World p
  unfolding send_to
  send_dtmf_to_ai digits w =
      if not (is_valid_dtmf_digits digits)
      then ((false, codes "invalid_dtmf_digits"), w)
      else send_to digits w.call.ai_client w

  unfoldable pub transfer_to : Text → Option Text → World p → (Bool × Text) × World p
  transfer_to target_uri pj_error w =
      if not (is_valid_transfer_target target_uri)
      then ((false, codes "invalid_transfer_target"), w)
      else try_effect pj_error w (emit p (transferred target_uri) w)

  unfoldable pub create_player : Text → Option Text → World p → (Bool × Text) × World p
  create_player file_path none w =
      ((true, []), set_call p (record w.call { announcement_player = some file_path }) w)
  create_player file_path (some info) w =
      ((false, info), set_call p (record w.call { announcement_player = none }) w)

  unfoldable pub play_announcement : Text → Option Text → World p → (Bool × Text) × World p
  unfolding create_player
  play_announcement file_path pj_error w =
      if is_empty file_path then ((false, []), w) else create_player file_path pj_error w

  unfoldable pub on_cushion_timeout : Option Text → World p → World p
  on_cushion_timeout pj_error w = (play_announcement (codes "ivr/please-wait.wav") pj_error w).1

  -- The call-backs that `onCallMediaState` registers; it leaves the last two empty. The one for a
  -- transfer only writes a log line.
  unfoldable pub run_callback : Callback → World p → World p
  run_callback (dtmf_forward digit) w = (send_dtmf_to_ai digit w).1
  run_callback transfer_requested w = w
  run_callback disconnect_requested w = emit p (hung_up sc_decline) w
  run_callback repeat_menu w = w
  run_callback enter_ai_chat w = w

  unfoldable pub run_callbacks : List Callback → World p → World p
  run_callbacks [] w = w
  run_callbacks (cb ∷ cbs) w = run_callbacks cbs (run_callback cb w)

  unfoldable pub on_dtmf_digit : Text → World p → World p
  on_dtmf_digit digit w =
      let (ivr, callbacks) = handle_dtmf digit w.call.ivr_manager in
      run_callbacks callbacks (set_call p (record w.call { ivr_manager = ivr }) w)

-- The answers to requests of the peer; `accepts` is the setting.
unfoldable pub on_call_transfer_request : Bool → ℕ
on_call_transfer_request accepts = if not accepts then 488 else 202

-- The code, and the reason where it is set.
unfoldable pub on_call_replace_request : Bool → ℕ × Option Text
on_call_replace_request accepts =
    if not accepts then (488, some (codes "Replaces disabled by policy")) else (200, none)

pub data RedirectOp : Type 0 where
  redirect_stop redirect_accept redirect_accept_replace : RedirectOp

unfoldable pub on_call_redirected : Bool → Bool → RedirectOp
on_call_redirected follows replaces_to =
    if not follows
    then redirect_stop
    else if replaces_to
    then redirect_accept_replace
    else redirect_accept
