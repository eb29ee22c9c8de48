-- ===== src/VoicebotMediaPort/Frames.antt =====
-- What src/engine/VoicebotMediaPort.cpp plays, hears and reports over the life of a port.
use vbgw_pjsip_v.Common.{
  ℕ, ◌%◌, ◌==◌, ◌-◌, ◌≡◌, refl, ap, ap₂, ◌∙◌, inl, inr, Option, none, some, List, [], ◌∷◌, ◌++◌,
  Bool, true, false, not, ◌&&◌, ◌||◌, arith, either, Bool-cases, ltb, if◌then◌else◌, length, take,
  drop, replicate, length-take,
}
use vbgw_pjsip_v.RingBuffer.Inv
use vbgw_pjsip_v.RingBuffer.Refine.{contents, read_refines, length-contents}
use vbgw_pjsip_v.SileroVad.{Network}
use vbgw_pjsip_v.RuntimeMetrics.{RuntimeMetrics}
use vbgw_pjsip_v.VoicebotMediaPort.{
  Dsp, Output, speech_start, speech_end, vad_reset, to_ai, MediaPort, quiesce, shutdown,
  set_ai_client, set_ai_paused, edges, hear_samples, on_frame_received, on_frame_requested,
  write_tts_audio, clear_tts_audio, reset_vad,
}

module _ (n : Network) (d : Dsp) where
  -- A frame asked of a port that is not shutting down, with a valid buffer, has the oldest bytes of
  -- the buffer and silence for what is missing, and these bytes leave the buffer.
  pub on_frame_requested_lem :
      (size : ℕ) (p : MediaPort n d)
      → Inv.IsValid p.tts_buffer
      → p.shutting_down ≡ false
      → let (frame, after) = on_frame_requested n d size p in
        (frame ≡ take size (contents p.tts_buffer) ++ replicate (size - p.tts_buffer.count) 0)
        × (contents after.tts_buffer ≡ drop size (contents p.tts_buffer))
  unfolding on_frame_requested
  on_frame_requested_lem size p v h =
      let (out, left) = read_refines size v in
      let missing : size - length (take size (contents p.tts_buffer)) ≡ size - p.tts_buffer.count =
        omega (arith, length-take size (contents p.tts_buffer), length-contents p.tts_buffer) in
      elim (Bool-cases (ltb 0 size)) [
        | inl e ↦
            rw (h, e)
              (
                ap₂ (◌++◌) out (ap (λ k. replicate k 0) (ap (λ s. size - length s) out ∙ missing)),
                left,
              )
        | inr e ↦
            let none_asked : size ≡ 0 = ground arith in
            let silence : 0 - p.tts_buffer.count ≡ 0 = omega arith in
            rw (h, e, none_asked, silence) (refl, refl)
      ]

  -- What happens to a port.
  pub data Op : Type 0 where
    received : Bool → List ℕ → Op
    requested : ℕ → Op
    written : List ℕ → Op
    cleared : Op
    reset : Op
    paused : Bool → Op
    client_set : Bool → Op
    quiesced : Op
    shut : Op

  unfoldable pub apply :
      Op → MediaPort n d × RuntimeMetrics → List Output × (MediaPort n d × RuntimeMetrics)
  apply (received audio bytes) p = on_frame_received n d audio bytes p
  apply (requested size) (p, m) = ([], ((on_frame_requested n d size p).1, m))
  apply (written bytes) (p, m) = ([], (write_tts_audio n d bytes p, m))
  apply cleared (p, m) = ([], (clear_tts_audio n d p, m))
  apply reset (p, m) = let (out, after) = reset_vad n d p in (out, (after, m))
  apply (paused b) (p, m) = ([], (set_ai_paused n d b p, m))
  apply (client_set b) (p, m) = ([], (set_ai_client n d b p, m))
  apply quiesced (p, m) = ([], (quiesce n d p, m))
  apply shut (p, m) = ([], ((shutdown n d p).0, m))

  unfoldable pub run :
      List Op → MediaPort n d × RuntimeMetrics → List Output × (MediaPort n d × RuntimeMetrics)
  run [] p = ([], p)
  run (op ∷ ops) p =
      let (out, after) = apply op p in let (rest, end) = run ops after in (out ++ rest, end)

-- The edges of speech, in the order they may come: a start in silence, an end in speech. A reset of
-- the VAD leaves silence.
pub track : Bool → List Output → Option Bool
track speaking [] = some speaking
track speaking (speech_start ∷ out) = if speaking then none else track true out
track speaking (speech_end ∷ out) = if speaking then track false out else none
track speaking (vad_reset ∷ out) = track false out
track speaking (to_ai bytes now ∷ out) = track speaking out

track-append :
    (speaking : Bool) (out rest : List Output) (after : Bool)
    → track speaking out ≡ some after
    → track speaking (out ++ rest) ≡ track after rest
unfolding track
track-append speaking [] rest after h =
    let same : speaking ≡ after = cc in ap (λ b. track b rest) same
track-append true (speech_start ∷ out) rest after h = absurd (cc)
track-append false (speech_start ∷ out) rest after h = track-append true out rest after h
track-append true (speech_end ∷ out) rest after h = track-append false out rest after h
track-append false (speech_end ∷ out) rest after h = absurd (cc)
track-append speaking (vad_reset ∷ out) rest after h = track-append false out rest after h
track-append speaking (to_ai bytes now ∷ out) rest after h = track-append speaking out rest after h

module _ (n : Network) (d : Dsp) where
  abbrev Step : Type 0
  Step = List Output × (MediaPort n d × RuntimeMetrics)

  -- Both call-backs are set.
  abbrev pub IsWired : MediaPort n d → Type 0
  IsWired p = (p.on_vad_speech_start ≡ true) × (p.on_vad_speech_end ≡ true)

  abbrev Tracks : Bool → Step → Type 0
  Tracks speaking r = IsWired r.1.0 × (track speaking r.0 ≡ some r.1.0.last_vad_state)

  edges-track :
      (now last wired_start wired_end : Bool) (rest : List Output)
      → wired_start ≡ true
      → wired_end ≡ true
      → track last (
          (if now && not last && wired_start
            then speech_start ∷ []
            else if not now && last && wired_end
            then speech_end ∷ []
            else [])
          ++ rest)
        ≡ track now rest
  unfolding track
  edges-track true true s e rest p q = refl
  edges-track true false s e rest p q = rw p refl
  edges-track false true s e rest p q = rw q refl
  edges-track false false s e rest p q = refl

  hear_samples-track :
      (bytes : List ℕ) (p : MediaPort n d) (m : RuntimeMetrics)
      → IsWired p
      → Tracks p.last_vad_state (hear_samples n d bytes (p, m))
  unfolding hear_samples edges track
  hear_samples-track bytes p m (s, e) =
      ((s, e), edges-track _ p.last_vad_state p.on_vad_speech_start p.on_vad_speech_end _ s e)

  apply-track :
      (op : Op n d) (p : MediaPort n d) (m : RuntimeMetrics)
      → IsWired p
      → Tracks p.last_vad_state (apply n d op (p, m))
  unfolding apply on_frame_received on_frame_requested write_tts_audio clear_tts_audio reset_vad
      set_ai_paused set_ai_client quiesce shutdown track
  apply-track (received audio bytes) p m w =
      let holds = Tracks p.last_vad_state in
      let size = length bytes - length bytes % 2 in
      either holds (p.shutting_down || p.ai_paused) (w, refl)
        (either holds (not (audio && ltb 0 (length bytes) && p.ai_client)) (w, refl)
          (either holds (size == 0) (w, refl) (hear_samples-track (take size bytes) p m w)))
  apply-track (requested size) p m w =
      let holds : List ℕ × MediaPort n d → Type 0 = λ r. Tracks p.last_vad_state ([], (r.1, m)) in
      either holds p.shutting_down (w, refl) (either holds (ltb 0 size) (w, refl) (w, refl))
  apply-track (written bytes) p m w =
      either (λ (q : MediaPort n d). Tracks p.last_vad_state ([], (q, m))) p.shutting_down (w, refl)
        (w, refl)
  apply-track cleared p m w =
      either (λ (q : MediaPort n d). Tracks p.last_vad_state ([], (q, m))) p.shutting_down (w, refl)
        (w, refl)
  apply-track reset p m w =
      either (λ (r : List Output × MediaPort n d). Tracks p.last_vad_state (r.0, (r.1, m)))
        p.shutting_down (w, refl) (w, refl)
  apply-track (paused b) p m w = (w, refl)
  apply-track (client_set b) p m w = (w, refl)
  apply-track quiesced p m w = (w, refl)
  apply-track shut p m w =
      either (λ (r : MediaPort n d × Bool). Tracks p.last_vad_state ([], (r.0, m)))
        p.unregister_requested (w, refl) (w, refl)

  -- Over any life of a port with both call-backs set, speech starts are reported in silence and
  -- speech ends in speech, where a reset of the VAD leaves silence, and the last of these states is
  -- the one the port keeps.
  pub run-track :
      (ops : List (Op n d)) (p : MediaPort n d) (m : RuntimeMetrics)
      → IsWired p
      → let (out, (after, m')) = run n d ops (p, m) in
        track p.last_vad_state out ≡ some after.last_vad_state
  unfolding run track
  run-track [] p m w = refl
  run-track (op ∷ ops) p m w =
      let (out, (after, m')) = apply n d op (p, m) in
      let (w', now) = apply-track op p m w in
      track-append p.last_vad_state out (run n d ops (after, m')).0 after.last_vad_state now
      ∙ run-track ops after m' w'
