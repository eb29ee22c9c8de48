-- ===== src/VoicebotCall/Connected.antt =====
-- `onCallMediaState` of src/engine/VoicebotCall.cpp leaves a call's end and its slot as they are.
use vbgw_pjsip_v.Common.{
  ℕ, ◌+◌, refl, Option, none, some, List, [], ◌∷◌, Bool, true, false, not, ◌&&◌, if◌then◌else◌,
  either,
}
use vbgw_pjsip_v.VoicebotMediaPort.{MediaPort}
use vbgw_pjsip_v.VoicebotAiClient
use vbgw_pjsip_v.VoicebotAiClient.{Client, start_session}
use vbgw_pjsip_v.Common.Int.{pos}
use vbgw_pjsip_v.VoicebotCall.{Platform, VoicebotCall, World, hung_up, set_call}
use vbgw_pjsip_v.VoicebotCall.Recording.{start_recording}
use vbgw_pjsip_v.VoicebotCall.Control.{sc_service_unavailable}
use vbgw_pjsip_v.VoicebotCall.Media.{
  MediaEnv, on_ai_error, connect_ai, unless_connected, unless_ported, connect_medium, with_port,
  after_client, on_audio_medium, next_medium, media_loop, on_call_media_state,
}
use vbgw_pjsip_v.VoicebotCall.Keeps.{
  Keeps, Keeps-self, Keeps-trans, emit-Keeps, call-Keeps, start_recording-Keeps,
}
use vbgw_pjsip_v.VoicebotCall.Steady.{start_lease_heartbeat-Keeps}

module _ (p : Platform) where
  connect_medium-Keeps :
      (env : MediaEnv) (i : ℕ) (w : World p)
      → Keeps p w (set_call p (connect_medium p env i w.call) w)
  unfolding connect_medium
  connect_medium-Keeps env i w =
      let indexed = set_call p (record w.call { primary_audio_media_index = pos i }) w in
      let tests = env.call_recording_enable && not indexed.call.recording_active in
      let recorded =
        if tests then (start_recording p [] env.recording indexed.call).1 else indexed.call in
      Keeps-trans p (call-Keeps p indexed.call w refl refl (λ h. h)) (
        Keeps-trans p
          (either (λ (c : VoicebotCall p). Keeps p indexed (set_call p c indexed)) tests
            (start_recording-Keeps p [] env.recording indexed) (Keeps-self p indexed))
          (call-Keeps p _ (set_call p recorded indexed) refl refl (λ h. h)))

  connect_ai-Keeps : (env : MediaEnv) (w : World p) → Keeps p w (connect_ai p env w)
  unfolding connect_ai on_ai_error
  connect_ai-Keeps env w =
      let (client, metrics) =
        start_session w.call.session_id env.opened
          (VoicebotAiClient.create env.max_reconnect_retries env.max_backoff_ms, w.metrics) in
      let connected = record w {
        call = record w.call { ai_client = some client };
        metrics = metrics;
      } in
      let kept : Keeps p w connected = record {
        finalized = refl;
        cdrs_same = refl;
        slot_same = refl;
        recorded = λ h. h;
      } in
      Keeps-trans p
        (either (Keeps p w) env.opened kept
          (Keeps-trans p kept (emit-Keeps p (hung_up sc_service_unavailable) connected refl)))
        (start_lease_heartbeat-Keeps p _)

  abbrev KeepsIn : World p → Bool × World p → Type 0
  KeepsIn w r = Keeps p w r.1

  unless_connected-Keeps :
      (client : Option Client) (env : MediaEnv) (w : World p)
      → KeepsIn w (unless_connected p client env w)
  unfolding unless_connected
  unless_connected-Keeps (some client) env w = Keeps-self p w
  unless_connected-Keeps none env w =
      either (KeepsIn w) env.channel_fails (Keeps-self p w) (connect_ai-Keeps env w)

  with_port-Keeps :
      (port : Option (MediaPort p.network p.dsp)) (env : MediaEnv) (i : ℕ) (w : World p)
      → KeepsIn w (with_port p port env i w)
  unfolding with_port
  with_port-Keeps none env i w = Keeps-self p w
  with_port-Keeps (some port) env i w =
      let ported = set_call p (record w.call { media_port = some port }) w in
      Keeps-trans p (call-Keeps p ported.call w refl refl (λ h. h))
        (connect_medium-Keeps env i ported)

  after_client-Keeps :
      (r : Bool × World p) (env : MediaEnv) (i : ℕ) → Keeps p r.1 (after_client p r env i).1
  unfolding after_client
  after_client-Keeps (true, w) env i = emit-Keeps p (hung_up sc_service_unavailable) w refl
  after_client-Keeps (false, w) env i =
      with_port-Keeps (unless_ported p w.call.media_port env) env i w

  on_audio_medium-Keeps :
      (env : MediaEnv) (i : ℕ) (w : World p) → KeepsIn w (on_audio_medium p env i w)
  unfolding on_audio_medium
  on_audio_medium-Keeps env i w =
      Keeps-trans p (unless_connected-Keeps w.call.ai_client env w)
        (after_client-Keeps (unless_connected p w.call.ai_client env w) env i)

  next_medium-Keeps :
      (r : Bool × World p) (rest : World p → World p)
      → ((w : World p) → Keeps p w (rest w))
      → Keeps p r.1 (next_medium p r rest)
  unfolding next_medium
  next_medium-Keeps (true, w) rest h = Keeps-self p w
  next_medium-Keeps (false, w) rest h = h w

  media_loop-Keeps :
      (env : MediaEnv) (media : List Bool) (i : ℕ) (w : World p)
      → Keeps p w (media_loop p env media i w)
  unfolding media_loop
  media_loop-Keeps env [] i w = Keeps-self p w
  media_loop-Keeps env (audio ∷ media) i w =
      either (Keeps p w) (not audio) (media_loop-Keeps env media (i + 1) w) (
        Keeps-trans p (on_audio_medium-Keeps env i w) (
          next_medium-Keeps (on_audio_medium p env i w)
            (λ after. media_loop p env media (i + 1) after)
            (λ after. media_loop-Keeps env media (i + 1) after)))

  pub on_call_media_state-Keeps :
      (env : MediaEnv) (media : List Bool) (w : World p)
      → Keeps p w (on_call_media_state p env media w)
  unfolding on_call_media_state
  on_call_media_state-Keeps env media w = media_loop-Keeps env media 0 w
