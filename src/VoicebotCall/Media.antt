-- ===== src/VoicebotCall/Media.antt =====
-- `onCallMediaState` of src/engine/VoicebotCall.cpp, and the call-backs that it gives to the AI client
-- and to the media port.
use vbgw_pjsip_v.Common.{
  ℕ, ◌+◌, ◌%◌, ◌^◌, Text, codes, Option, none, some, List, [], ◌∷◌, Bool, true, false, not, ◌&&◌,
  ◌==◌, if◌then◌else◌,
}
use vbgw_pjsip_v.Common.Int.{pos, to_int32, ltb_ℤ}
use vbgw_pjsip_v.IvrManager.{
  set_dtmf_forward_callback, set_transfer_callback, set_disconnect_callback, activate_menu,
}
use vbgw_pjsip_v.VoicebotAiClient.{Client, start_session}
use vbgw_pjsip_v.VoicebotAiClient
use vbgw_pjsip_v.VoicebotMediaPort.{
  MediaPort, set_ai_client, set_vad_speech_start_callback, set_vad_speech_end_callback,
  write_tts_audio, clear_tts_audio, reset_vad,
}
use vbgw_pjsip_v.VoicebotMediaPort
use vbgw_pjsip_v.VoicebotCall.{
  Platform, VoicebotCall, World, hung_up, cushion_timer_set, cushion_timer_cancelled, emit,
  set_call,
}
use vbgw_pjsip_v.VoicebotCall.Recording.{RecordingEnv, start_recording}
use vbgw_pjsip_v.VoicebotCall.Control.{sc_service_unavailable, transfer_to}
use vbgw_pjsip_v.VoicebotCall.Life.{start_lease_heartbeat}

-- The settings, and what gRPC answers: whether the channel could not be made, and whether the stream
-- of the session opened.
pub record MediaEnv : Type 0 where
  pub channel_fails : Bool
  pub opened : Bool
  pub max_reconnect_retries : ℕ
  pub max_backoff_ms : ℕ
  pub tts_buffer_secs : ℕ
  pub call_recording_enable : Bool
  pub recording : RecordingEnv

-- `fetch_add(1)` of an `atomic<int>`.
abbrev pub bump : ℕ → ℕ
bump n = (n + 1) % 2 ^ 32

-- The target of the turn limit.
abbrev pub agent_uri : Text
agent_uri = codes "sip:agent@pbx-main"

module _ (p : Platform) where
  unfoldable pub on_port :
      (MediaPort p.network p.dsp → MediaPort p.network p.dsp)
      → Option (MediaPort p.network p.dsp)
      → Option (MediaPort p.network p.dsp)
  on_port f none = none
  on_port f (some port) = some (f port)

  unfoldable pub cancel_cushion : World p → World p
  cancel_cushion w =
      if not (w.call.cushion_timer_id == 0)
      then emit p cushion_timer_cancelled (set_call p (record w.call { cushion_timer_id = 0 }) w)
      else w

  -- The call-back for speech of the AI service.
  unfoldable pub on_tts : List ℕ → World p → World p
  unfolding on_port
  on_tts bytes w =
      let quiet = cancel_cushion w in
      set_call p
        (record quiet.call {
          media_port = on_port (write_tts_audio p.network p.dsp bytes) quiet.call.media_port;
        })
        quiet

  -- The call-back for a caller who breaks in.
  unfoldable pub on_tts_clear : VoicebotCall p → VoicebotCall p
  unfolding on_port
  on_tts_clear c = record c {
    bargein_count = bump c.bargein_count;
    media_port =
        on_port (λ port. (reset_vad p.network p.dsp (clear_tts_audio p.network p.dsp port)).1)
          c.media_port;
  }

  -- The call-back for an error of the AI client; what `hangup` throws is only logged.
  unfoldable pub on_ai_error : World p → World p
  on_ai_error w = emit p (hung_up sc_service_unavailable) w

  unfoldable pub on_speech_start : VoicebotCall p → VoicebotCall p
  on_speech_start c = record c { vad_trigger_count = bump c.vad_trigger_count }

  unfoldable pub set_cushion : World p → World p
  set_cushion w =
      emit p cushion_timer_set (set_call p (record w.call { cushion_timer_id = 5678 }) w)

  -- The call-back for the end of speech. `pj_error` is what the transfer answers. The test is
  -- `turns >= 20`, although the comment beside it speaks of more than 20 turns.
  unfoldable pub on_speech_end : Option Text → World p → World p
  unfolding set_cushion
  on_speech_end pj_error w =
      let turns = bump w.call.turn_count in
      let counted = set_call p (record w.call { turn_count = turns }) w in
      if not (ltb_ℤ (to_int32 turns) (pos 20))
      then (transfer_to p agent_uri pj_error counted).1
      else set_cushion counted

  -- A new client with its session started; a start that fails runs its call-back for errors.
  unfoldable pub connect_ai : MediaEnv → World p → World p
  connect_ai env w =
      let fresh = VoicebotAiClient.create env.max_reconnect_retries env.max_backoff_ms in
      let (client, metrics) = start_session w.call.session_id env.opened (fresh, w.metrics) in
      let connected = record w {
        call = record w.call { ai_client = some client };
        metrics = metrics;
      } in
      start_lease_heartbeat p (if env.opened then connected else on_ai_error connected)

  -- `if (!ai_client_)`, and whether to hang up.
  unfoldable pub unless_connected : Option Client → MediaEnv → World p → Bool × World p
  unless_connected (some client) env w = (false, w)
  unless_connected none env w = if env.channel_fails then (true, w) else (false, connect_ai env w)

  unfoldable pub wire : MediaPort p.network p.dsp → MediaPort p.network p.dsp
  wire port =
      set_vad_speech_end_callback p.network p.dsp true (
        set_vad_speech_start_callback p.network p.dsp true
          (set_ai_client p.network p.dsp true port))

  -- `if (!media_port_)`; `none` for an exception of the constructor, which leaves the function.
  unfoldable pub unless_ported :
      Option (MediaPort p.network p.dsp) → MediaEnv → Option (MediaPort p.network p.dsp)
  unfolding on_port
  unless_ported (some port) env = some port
  unless_ported none env =
      on_port wire (VoicebotMediaPort.create p.network p.dsp env.tts_buffer_secs)

  -- From the first `startTransmit` on, with the medium at this index.
  unfoldable pub connect_medium : MediaEnv → ℕ → VoicebotCall p → VoicebotCall p
  connect_medium env i c =
      let indexed = record c { primary_audio_media_index = pos i } in
      let recorded =
        if env.call_recording_enable && not indexed.recording_active
        then (start_recording p [] env.recording indexed).1
        else indexed in
      let ivr =
        set_disconnect_callback true
          (set_transfer_callback true (set_dtmf_forward_callback true recorded.ivr_manager)) in
      record recorded { ivr_manager = (activate_menu ivr).0 }

  unfoldable pub with_port :
      Option (MediaPort p.network p.dsp) → MediaEnv → ℕ → World p → Bool × World p
  with_port none env i w = (true, w)
  with_port (some port) env i w =
      (false, set_call p (connect_medium env i (record w.call { media_port = some port })) w)

  unfoldable pub after_client : Bool × World p → MediaEnv → ℕ → Bool × World p
  after_client (true, w) env i = (true, emit p (hung_up sc_service_unavailable) w)
  after_client (false, w) env i = with_port (unless_ported w.call.media_port env) env i w

  -- One pass of the loop for an audio medium: whether the function is left, and the world.
  unfoldable pub on_audio_medium : MediaEnv → ℕ → World p → Bool × World p
  unfolding after_client with_port unless_ported unless_connected on_port wire
  on_audio_medium env i w = after_client (unless_connected w.call.ai_client env w) env i

  unfoldable pub next_medium : Bool × World p → (World p → World p) → World p
  next_medium (true, w) rest = w
  next_medium (false, w) rest = rest w

  -- The loop, from this index on; `media` says which are audio and have an `AudioMedia`.
  unfoldable pub media_loop : MediaEnv → List Bool → ℕ → World p → World p
  unfolding next_medium
  media_loop env [] i w = w
  media_loop env (audio ∷ media) i w =
      if not audio
      then media_loop env media (i + 1) w
      else next_medium (on_audio_medium env i w) (λ after. media_loop env media (i + 1) after)

  -- `onCallMediaState`
  unfoldable pub on_call_media_state : MediaEnv → List Bool → World p → World p
  on_call_media_state env media w = media_loop env media 0 w
