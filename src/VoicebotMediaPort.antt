-- ===== src/VoicebotMediaPort.antt =====
-- src/engine/VoicebotMediaPort.h and VoicebotMediaPort.cpp: the port between the sound of a call, the
-- VAD and the AI client. What PJSIP and the Speex library do is a parameter or an argument; the AI
-- client gets what is among the outputs.
pub mod Frames
mod Tests
use vbgw_pjsip_v.Common.{
  ℕ, zero, suc, ◌+◌, ◌-◌, ◌*◌, ◌/◌, ◌%◌, Option, none, some, List, [], ◌∷◌, ◌++◌, Bool, true, false,
  not, ◌&&◌, ◌||◌, is_empty, ltb, leb, ◌==◌, if◌then◌else◌, length, take, replicate,
}
use vbgw_pjsip_v.RingBuffer.{RingBuffer, write, read, clear}
use vbgw_pjsip_v.RingBuffer
use vbgw_pjsip_v.SileroVad.{Network, Vad, is_speaking, reset_state}
use vbgw_pjsip_v.SileroVad
use vbgw_pjsip_v.RuntimeMetrics.{RuntimeMetrics}

-- `SpeexDsp::process`, which works in place.
pub record Dsp : Type 1 where
  pub State : Type 0
  pub initial : State
  pub process : State → List ℕ → List ℕ × State

-- What reaches the call and its AI client; a reset of the VAD is recorded too.
pub data Output : Type 0 where
  speech_start : Output
  speech_end : Output
  vad_reset : Output
  to_ai : List ℕ → Bool → Output

-- The bytes of a frame as 16-bit samples, little end first.
unfoldable pub samples_of : List ℕ → List ℕ
samples_of [] = []
samples_of (lo ∷ []) = []
samples_of (lo ∷ hi ∷ bytes) = (lo + 256 * hi) ∷ samples_of bytes

unfoldable pub bytes_of : List ℕ → List ℕ
bytes_of [] = []
bytes_of (s ∷ samples) = s % 256 ∷ s / 256 % 256 ∷ bytes_of samples

-- `kRetiredMediaPortGracePeriod`, in nanoseconds.
abbrev pub grace_period : ℕ
grace_period = 45 * 1000000000

module _ (n : Network) (d : Dsp) where
  open d use {State, initial, process}

  pub record MediaPort : Type 0 where
    pub tts_buffer : RingBuffer
    pub ai_client : Bool
    pub vad : Vad n
    pub speex_dsp : State
    pub on_vad_speech_start : Bool
    pub on_vad_speech_end : Bool
    pub last_vad_state : Bool
    pub ai_paused : Bool
    pub shutting_down : Bool
    pub unregister_requested : Bool

  with_buffer : Option RingBuffer → Option MediaPort
  with_buffer none = none
  with_buffer (some buffer) = some (record {
    tts_buffer = buffer;
    ai_client = false;
    vad = SileroVad.create n;
    speex_dsp = initial;
    on_vad_speech_start = false;
    on_vad_speech_end = false;
    last_vad_state = false;
    ai_paused = false;
    shutting_down = false;
    unregister_requested = false;
  })

  -- The constructor, with `tts_buffer_secs`; `none` for the exception of the buffer. The
  -- exception of `SileroVad` for a model that is not there is left out.
  unfoldable pub create : ℕ → Option MediaPort
  unfolding with_buffer
  create tts_buffer_secs = with_buffer (RingBuffer.create (32000 * tts_buffer_secs))

  unfoldable pub quiesce : MediaPort → MediaPort
  quiesce p = record p { shutting_down = true; ai_paused = true; ai_client = false }

  -- The port, and whether `unregisterMediaPort` is called.
  unfoldable pub shutdown : MediaPort → MediaPort × Bool
  shutdown p =
      let quiet = quiesce p in
      if quiet.unregister_requested
      then (quiet, false)
      else (record quiet { unregister_requested = true }, true)

  unfoldable pub cleanup_retired_ports : ℕ → List (ℕ × MediaPort) → List (ℕ × MediaPort)
  cleanup_retired_ports now [] = []
  cleanup_retired_ports now ((since, port) ∷ ports) =
      let rest = cleanup_retired_ports now ports in
      if leb grace_period (now - since) then rest else (since, port) ∷ rest

  unfoldable pub retire : ℕ → Option MediaPort → List (ℕ × MediaPort) → List (ℕ × MediaPort)
  retire now none ports = ports
  retire now (some port) ports = cleanup_retired_ports now ports ++ (now, (shutdown port).0) ∷ []

  unfoldable pub set_ai_client : Bool → MediaPort → MediaPort
  set_ai_client client p = record p { ai_client = client }

  unfoldable pub set_vad_speech_start_callback : Bool → MediaPort → MediaPort
  set_vad_speech_start_callback cb p = record p { on_vad_speech_start = cb }

  unfoldable pub set_vad_speech_end_callback : Bool → MediaPort → MediaPort
  set_vad_speech_end_callback cb p = record p { on_vad_speech_end = cb }

  unfoldable pub set_ai_paused : Bool → MediaPort → MediaPort
  set_ai_paused paused p = record p { ai_paused = paused }

  -- The call-backs at the edges of speech.
  unfoldable pub edges : Bool → MediaPort → List Output
  edges speaking p =
      if speaking && not p.last_vad_state && p.on_vad_speech_start
      then speech_start ∷ []
      else if not speaking && p.last_vad_state && p.on_vad_speech_end
      then speech_end ∷ []
      else []

  -- The part of `onFrameReceived` below the test for an odd byte.
  unfoldable pub hear_samples :
      List ℕ → MediaPort × RuntimeMetrics → List Output × (MediaPort × RuntimeMetrics)
  hear_samples bytes (p, m) =
      let (samples, dsp) = process p.speex_dsp (samples_of bytes) in
      let (speaking, (vad, m')) = is_speaking n samples (p.vad, m) in
      (
        edges speaking p ++ to_ai (bytes_of samples) speaking ∷ [],
        (record p { vad = vad; speex_dsp = dsp; last_vad_state = speaking }, m'),
      )

  -- `onFrameReceived`, of a frame with these bytes; `audio` is the test of its type.
  unfoldable pub on_frame_received :
      Bool → List ℕ → MediaPort × RuntimeMetrics → List Output × (MediaPort × RuntimeMetrics)
  on_frame_received audio bytes (p, m) =
      let safe_size = length bytes - length bytes % 2 in
      if p.shutting_down || p.ai_paused
      then ([], (p, m))
      else if not (audio && ltb 0 (length bytes) && p.ai_client)
      then ([], (p, m))
      else if safe_size == 0
      then ([], (p, m))
      else hear_samples (take safe_size bytes) (p, m)

  -- `onFrameRequested`: the bytes of the frame, whose buffer has room for `size`.
  unfoldable pub on_frame_requested : ℕ → MediaPort → List ℕ × MediaPort
  on_frame_requested size p =
      let (bytes, buffer) = read p.tts_buffer size in
      if p.shutting_down
      then (replicate size 0, p)
      else if ltb 0 size
      then (bytes ++ replicate (size - length bytes) 0, record p { tts_buffer = buffer })
      else ([], p)

  unfoldable pub write_tts_audio : List ℕ → MediaPort → MediaPort
  write_tts_audio bytes p =
      if p.shutting_down then p else record p { tts_buffer = write p.tts_buffer bytes }

  unfoldable pub clear_tts_audio : MediaPort → MediaPort
  clear_tts_audio p = if p.shutting_down then p else record p { tts_buffer = clear p.tts_buffer }

  unfoldable pub reset_vad : MediaPort → List Output × MediaPort
  reset_vad p =
      if p.shutting_down
      then ([], p)
      else (vad_reset ∷ [], record p { vad = reset_state n p.vad; last_vad_state = false })
