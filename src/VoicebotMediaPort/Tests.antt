-- ===== src/VoicebotMediaPort/Tests.antt =====
-- Runs of a port.
use vbgw_pjsip_v.Common.{
  ◌-◌, ◌≡◌, refl, some, List, [], ◌∷◌, ◌++◌, true, false, arith, take, drop, replicate,
}
use vbgw_pjsip_v.RingBuffer.Refine.{contents}
use vbgw_pjsip_v.RuntimeMetrics.{initial}
use vbgw_pjsip_v.SileroVad
use vbgw_pjsip_v.SileroVad.Conserve.{recorder}
use vbgw_pjsip_v.VoicebotMediaPort.{Dsp, MediaPort, on_frame_requested}
use vbgw_pjsip_v.VoicebotMediaPort.Frames.{
  Op, received, reset, paused, quiesced, run, track, on_frame_requested_lem, run-track,
}

abbrev plain : Dsp
plain = record { State = Unit {0}; initial = tt; process = λ s samples. (samples, s) }

-- A port with room for four bytes, three of them filled.
abbrev port : MediaPort recorder plain
port = record {
  tts_buffer = record { buffer = 7 ∷ 8 ∷ 9 ∷ 0 ∷ []; head = 0; tail = 3; count = 3 };
  ai_client = true;
  vad = SileroVad.create recorder;
  speex_dsp = tt;
  on_vad_speech_start = true;
  on_vad_speech_end = true;
  last_vad_state = false;
  ai_paused = false;
  shutting_down = false;
  unregister_requested = false;
}

on_frame_requested_lem_example :
    let (frame, after) = on_frame_requested recorder plain 5 port in
    (frame ≡ take 5 (contents port.tts_buffer) ++ replicate (5 - 3) 0)
    × (contents after.tts_buffer ≡ drop 5 (contents port.tts_buffer))
on_frame_requested_lem_example =
    on_frame_requested_lem recorder plain 5 port
      (record {
        nonempty = omega arith;
        small = omega arith;
        head_in = omega arith;
        fits = omega arith;
        tail_at = refl;
      })
      refl

abbrev ops : List (Op recorder plain)
ops =
    received true (replicate 1024 1)
    ∷ paused true
    ∷ reset
    ∷ received true (1 ∷ 2 ∷ [])
    ∷ quiesced
    ∷ []

run-track_example :
    let (out, (after, m')) = run recorder plain ops (port, initial) in
    track false out ≡ some after.last_vad_state
run-track_example = run-track recorder plain ops port initial (refl, refl)
