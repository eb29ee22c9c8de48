-- ===== src/VoicebotCall/History.antt =====
-- The histories of a call of src/engine/VoicebotCall.cpp.
use vbgw_pjsip_v.Common.{ℕ, Text, Option, List, [], ◌∷◌, Bool}
use vbgw_pjsip_v.VoicebotCall.{Platform, World, set_call}
use vbgw_pjsip_v.VoicebotCall.Cdr.{CdrEnv}
use vbgw_pjsip_v.VoicebotCall.Recording.{RecordingEnv, start_recording, stop_recording}
use vbgw_pjsip_v.VoicebotCall.Control.{
  send_dtmf_to_peer, send_dtmf_to_ai, transfer_to, play_announcement, on_cushion_timeout,
  on_dtmf_digit,
}
use vbgw_pjsip_v.VoicebotCall.Bridge.{set_paused}
use vbgw_pjsip_v.VoicebotCall.Life.{
  RedisEnv, on_lease_heartbeat, end_ai_session, reap_without_disconnect, on_call_state,
}
use vbgw_pjsip_v.VoicebotCall.Media.{
  MediaEnv, on_tts, on_tts_clear, on_ai_error, on_speech_start, on_speech_end, on_call_media_state,
}

module _ (p : Platform) where
  -- The calls and call-backs of one call, with what they read.
  pub data CallEvent : Type 0 where
    media_state : MediaEnv → List Bool → CallEvent
    call_state : RedisEnv → CdrEnv → Option Text → ℕ → Bool → Text → CallEvent
    reaped : RedisEnv → CdrEnv → Option Text → Text → CallEvent
    session_ended : CallEvent
    dtmf_digit : Text → CallEvent
    tts : List ℕ → CallEvent
    tts_cleared : CallEvent
    ai_error : CallEvent
    speech_started : CallEvent
    speech_ended : Option Text → CallEvent
    heartbeat : RedisEnv → ℕ → CallEvent
    cushion_over : Option Text → CallEvent
    peer_dtmf : Text → Option Text → CallEvent
    ai_dtmf : Text → CallEvent
    transfer : Text → Option Text → CallEvent
    announcement : Text → Option Text → CallEvent
    recording_started : Text → RecordingEnv → CallEvent
    recording_stopped : Option Text → CallEvent
    bridged : Bool → CallEvent

  unfoldable pub apply : CallEvent → World p → World p
  apply (media_state env media) w = on_call_media_state p env media w
  apply (call_state env cdr error now disconnected reason) w =
      on_call_state p env cdr error now disconnected reason w
  apply (reaped env cdr error reason) w = reap_without_disconnect p env cdr error reason w
  apply session_ended w = end_ai_session p w
  apply (dtmf_digit digit) w = on_dtmf_digit p digit w
  apply (tts bytes) w = on_tts p bytes w
  apply tts_cleared w = set_call p (on_tts_clear p w.call) w
  apply ai_error w = on_ai_error p w
  apply speech_started w = set_call p (on_speech_start p w.call) w
  apply (speech_ended error) w = on_speech_end p error w
  apply (heartbeat env now) w = on_lease_heartbeat p env now w
  apply (cushion_over error) w = on_cushion_timeout p error w
  apply (peer_dtmf digits error) w = (send_dtmf_to_peer p digits error w).1
  apply (ai_dtmf digits) w = (send_dtmf_to_ai p digits w).1
  apply (transfer target error) w = (transfer_to p target error w).1
  apply (announcement file error) w = (play_announcement p file error w).1
  apply (recording_started path env) w = set_call p (start_recording p path env w.call).1 w
  apply (recording_stopped error) w = set_call p (stop_recording p error w.call).1 w
  apply (bridged paused) w = set_call p (set_paused p paused w.call) w

  unfoldable pub run : List CallEvent → World p → World p
  run [] w = w
  run (e ∷ es) w = run es (apply e w)
