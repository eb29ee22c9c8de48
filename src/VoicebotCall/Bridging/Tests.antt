-- ===== src/VoicebotCall/Bridging/Tests.antt =====
-- A conference bridge that has the documented behaviour, and a bridge of two calls through it.
use vbgw_pjsip_v.Common.{
  ℕ, ◌≡◌, ◌≢◌, ◌⊎◌, inl, refl, none, some, [], ◌∷◌, Bool, true, false, ◌&&◌, ◌==◌, if◌then◌else◌,
  arith,
}
use vbgw_pjsip_v.VoicebotCall.Conference.{Conference, Laws}
use vbgw_pjsip_v.VoicebotCall.Bridge.{another, audio_media, bridge_with, unbridge_with, set_paused}
use vbgw_pjsip_v.VoicebotCall.Bridging.{IsBridge, unbridge_with-bridge_with}
use vbgw_pjsip_v.SileroVad
use vbgw_pjsip_v.SileroVad.Conserve.{recorder}
use vbgw_pjsip_v.VoicebotMediaPort.{MediaPort}
use vbgw_pjsip_v.VoicebotCall.{VoicebotCall}
use vbgw_pjsip_v.VoicebotCall.Tests.{plain, platform, call}

abbrev put : Bool → ℕ → ℕ → (ℕ → ℕ → Bool) → ℕ → ℕ → Bool
put v a b s x y = if x == a && y == b then v else s x y

-- The links are a test of two ports.
abbrev table : Conference
table = record {
  Links = ℕ → ℕ → Bool;
  start_transmit = λ a b s. (none, put true a b s);
  stop_transmit = λ a b s. (none, put false a b s);
  transmits = λ a b s. s a b;
}

put-here : (v : Bool) (a b : ℕ) (s : ℕ → ℕ → Bool) → put v a b s a b ≡ v
put-here v a b s = ground arith

put-there :
    (v : Bool) (a b c d : ℕ) (s : ℕ → ℕ → Bool) → (c ≢ a) ⊎ (d ≢ b) → put v a b s c d ≡ s c d
put-there v a b c d s h = ground (arith, h)

table-Laws : Laws table
table-Laws = record {
  started = λ a b s h. put-here true a b s;
  start_other = put-there true;
  stopped = λ a b s h. put-here false a b s;
  stop_other = put-there false;
}

-- No port is linked.
abbrev silent : ℕ → ℕ → Bool
silent a b = false

-- A port that listens.
abbrev port : MediaPort recorder plain
port = record {
  tts_buffer = record { buffer = 0 ∷ 0 ∷ []; head = 0; tail = 0; count = 0 };
  ai_client = true;
  vad = SileroVad.create recorder;
  speex_dsp = tt;
  on_vad_speech_start = true;
  on_vad_speech_end = true;
  last_vad_state = false;
  ai_paused = false;
  shutting_down = false;
  unregister_requested = false;
}

abbrev caller : VoicebotCall platform
caller = record call { media_port = some port }

unbridge_with-bridge_with_example :
    let r =
      bridge_with platform table (audio_media 5) (audio_media 7) caller (another call) silent in
    let q = unbridge_with platform table (audio_media 5) (audio_media 7) r.call r.peer r.links in
    IsBridge platform table 5 7 r
    × (q.call ≡ caller)
    × (q.peer ≡ another call)
    × (q.links 5 7 ≡ false)
    × (q.links 7 5 ≡ false)
    × (q.links 1 2 ≡ false)
unfolding bridge_with unbridge_with set_paused
unbridge_with-bridge_with_example =
    unbridge_with-bridge_with platform table table-Laws 5 7 1 2 caller call silent (omega arith)
      (omega arith) refl tt (λ e. ground (arith, e)) (inl (λ e. ground (arith, e)))
      (inl (λ e. ground (arith, e))) refl refl
