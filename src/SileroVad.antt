-- ===== src/SileroVad.antt =====
-- src/ai/SileroVad.h and SileroVad.cpp: the buffering of samples around the network that tells speech
-- from silence. A method holds `vad_mutex_` for its whole body, so it is one step. The network, with
-- the conversion of a window to floats, is a parameter.
pub mod Windows
pub mod Conserve
mod Tests
use vbgw_pjsip_v.Common.{
  ℕ, ◌+◌, ◌-◌, Option, none, some, List, [], ◌++◌, Bool, true, false, not, ◌&&◌, is_empty, ltb, leb,
  if◌then◌else◌, length, take, drop,
}
use vbgw_pjsip_v.RuntimeMetrics.{RuntimeMetrics, inc_vad_speech_events}

-- The ONNX session. `run` has whether the output is over the threshold and the next state tensor, or
-- `none` for an exception.
pub record Network : Type 1 where
  pub State : Type 0
  pub initial : State
  pub run : State → List ℕ → Option (Bool × State)

module _ (n : Network) where
  open n use {State, initial, run}

  pub record Vad : Type 0 where
    pub state : State
    pub pcm_buffer : List ℕ
    pub pcm_head : ℕ
    pub last_speaking_state : Bool

  unfoldable pub create : Vad
  create = record { state = initial; pcm_buffer = []; pcm_head = 0; last_speaking_state = false }

  unfoldable pub reset_state : Vad → Vad
  reset_state v = record {
    state = initial;
    pcm_buffer = [];
    pcm_head = 0;
    last_speaking_state = false;
  }

  -- `erase(begin, begin + pcm_head_)`
  abbrev pub compact : Vad → Vad
  compact v = record v { pcm_buffer = drop v.pcm_head v.pcm_buffer; pcm_head = 0 }

  -- The branch on `kMaxPcmBufferSize`.
  unfoldable pub bound_buffer : ℕ → Vad → Vad
  bound_buffer count v =
      let packed = if ltb 0 v.pcm_head then compact v else v in
      if not (ltb 16384 (length v.pcm_buffer + count))
      then v
      else if ltb 16384 (length packed.pcm_buffer + count)
      then record packed { pcm_buffer = []; pcm_head = 0 }
      else packed

  -- The reply of the network; an exception keeps the last state.
  abbrev pub heard : Option (Bool × State) → Vad → Vad
  heard none v = v
  heard (some (speaking, state)) v = record v { state = state; last_speaking_state = speaking }

  -- From the insertion on.
  unfoldable pub next_window : Vad → Vad
  next_window v =
      let chunk = take 512 (drop v.pcm_head v.pcm_buffer) in
      let moved = record v { pcm_head = v.pcm_head + 512 } in
      if ltb (length v.pcm_buffer - v.pcm_head) 512
      then v
      else heard (run v.state chunk) (if leb 1024 moved.pcm_head then compact moved else moved)

  -- `isSpeakingImpl`, less its count of speech events.
  unfoldable pub listen : List ℕ → Vad → Vad
  listen data' v =
      let bounded = bound_buffer (length data') v in
      next_window (record bounded { pcm_buffer = bounded.pcm_buffer ++ data' })

  -- `isSpeaking`. The early return where too few samples are there keeps the state, so its count is
  -- the same.
  unfoldable pub is_speaking : List ℕ → Vad × RuntimeMetrics → Bool × (Vad × RuntimeMetrics)
  is_speaking samples (v, m) =
      let after = listen samples v in
      if is_empty samples then (v.last_speaking_state, (v, m)) else (
        after.last_speaking_state,
        (
          after,
          if after.last_speaking_state && not v.last_speaking_state
              then inc_vad_speech_events m
              else m,
        ),
      )
