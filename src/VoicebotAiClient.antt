-- ===== src/VoicebotAiClient.antt =====
-- src/ai/VoicebotAiClient.h and VoicebotAiClient.cpp: the stream of a call's audio to the AI service.
-- The gRPC library is given by what it answers: whether a stream could be opened or written, and how a
-- read ended. `stream` and `context` say whether the pointers are set. A method that works on the queue
-- holds its mutex, and counts under it, so it is one step.
pub mod Breaks
pub mod Queue
pub mod Reading
pub mod Reconnect
pub mod Worker
mod Tests
use vbgw_pjsip_v.Common.{
  ℕ, ◌+◌, ◌-◌, ◌*◌, ◌^◌, min, Text, codes, Option, none, some, List, [], ◌∷◌, ◌++◌, Bool, true,
  false, not, ◌&&◌, ◌||◌, leb, ltb, ◌==◌, if◌then◌else◌, length,
}
use vbgw_pjsip_v.RuntimeMetrics.{
  RuntimeMetrics, inc_grpc_active_sessions, dec_grpc_active_sessions, inc_grpc_dropped_frames,
  inc_grpc_stream_errors, inc_grpc_reconnect_attempts, add_grpc_queued_frames,
  sub_grpc_queued_frames, mark_grpc_healthy, mark_grpc_unhealthy,
}

pub data StreamState : Type 0 where
  idle starting streaming backoff reconnecting closing closed failed : StreamState

pub record AudioItem : Type 0 where
  pub pcm_data : List ℕ
  pub is_speaking : Bool
  pub is_dtmf : Bool
  pub dtmf_digit : Text

pub record Client : Type 0 where
  pub stream : Bool
  pub context : Bool
  pub current_session_id : Text
  pub audio_queue : List AudioItem
  pub is_running : Bool
  pub cleanup_done : Bool
  pub state : StreamState
  pub max_reconnect_retries : ℕ
  pub max_backoff_ms : ℕ
  pub reconnect_attempts : ℕ

-- A client, and the process-wide metrics that it counts in.
abbrev pub Process : Type 0
Process = Client × RuntimeMetrics

unfoldable pub create : ℕ → ℕ → Client
create retries max_backoff_ms = record {
  stream = false;
  context = false;
  current_session_id = [];
  audio_queue = [];
  is_running = false;
  cleanup_done = false;
  state = idle;
  max_reconnect_retries = retries;
  max_backoff_ms = max_backoff_ms;
  reconnect_attempts = 0;
}

-- `kMaxAudioQueueSize`
abbrev pub max_audio_queue_size : ℕ
max_audio_queue_size = 200

-- `opened`: whether `StreamSession` gave a stream.
unfoldable pub start_session : Text → Bool → Process → Process
start_session session_id opened (c, m) =
    if c.is_running
    then (c, m)
    else if not opened
    then (
      record c { current_session_id = session_id; is_running = false; state = failed },
      mark_grpc_unhealthy (inc_grpc_stream_errors m),
    )
    else (
      record c {
        current_session_id = session_id;
        is_running = true;
        stream = true;
        context = true;
        reconnect_attempts = 0;
        state = streaming;
      },
      mark_grpc_healthy (inc_grpc_active_sessions m),
    )

unfoldable pub send_audio : List ℕ → Bool → Process → Process
send_audio pcm_data is_speaking (c, m) =
    let item : AudioItem = record {
      pcm_data = pcm_data;
      is_speaking = is_speaking;
      is_dtmf = false;
      dtmf_digit = [];
    } in
    if not c.is_running
    then (c, m)
    else if leb max_audio_queue_size (length c.audio_queue)
    then (c, inc_grpc_dropped_frames m)
    else (record c { audio_queue = c.audio_queue ++ item ∷ [] }, add_grpc_queued_frames 1 m)

abbrev pub is_streaming : StreamState → Bool
is_streaming streaming = true
is_streaming _ = false

unfoldable pub send_dtmf : Text → Process → Process
send_dtmf digit (c, m) =
    let item : AudioItem = record {
      pcm_data = [];
      is_speaking = false;
      is_dtmf = true;
      dtmf_digit = digit;
    } in
    if not (length digit == 1)
    then (c, m)
    else if not c.is_running
    then (c, m)
    else if not (is_streaming c.state)
    then (c, m)
    else (record c { audio_queue = c.audio_queue ++ item ∷ [] }, add_grpc_queued_frames 1 m)

write_item : Bool → Process → Process
write_item written (c, m) =
    if c.stream && not written
    then (record c { state = reconnecting }, mark_grpc_unhealthy (inc_grpc_stream_errors m))
    else (c, m)

take_item : List AudioItem → Bool → Process → Process
take_item [] written p = p
take_item (item ∷ items) written (c, m) =
    write_item written (record c { audio_queue = items }, sub_grpc_queued_frames 1 m)

-- One round of `streamWorker`, which waits while the queue is empty. `written`: what `Write` returned.
unfoldable pub stream_worker_round : Bool → Process → Process
unfolding take_item write_item
stream_worker_round written (c, m) = take_item c.audio_queue written (c, m)

-- `endSession`, with the threads joined in it.
unfoldable pub end_session : Process → Process
end_session (c, m) = if c.cleanup_done then (record c { is_running = false }, m) else (
  record c {
    is_running = false;
    cleanup_done = true;
    audio_queue = [];
    stream = false;
    context = false;
    state = closed;
  },
  dec_grpc_active_sessions (sub_grpc_queued_frames (length c.audio_queue) m),
)

pub data ReadOutcomeKind : Type 0 where
  stopped completed reconnect permanent_failure : ReadOutcomeKind

-- `min(500 * (1 << n), max_backoff_ms)`; `none` where the product overflows `int`, which C++ does not
-- define.
unfoldable pub wait_ms : ℕ → ℕ → Option ℕ
wait_ms attempts max_backoff_ms =
    let wait = 500 * 2 ^ attempts in
    if leb (2 ^ 31) wait then none else some (min wait max_backoff_ms)

-- How a round of `readWorker` ends: the thread leaves its loop or goes on, and it may have slept.
pub data Round : Type 0 where
  left : Process → Round
  goes_on : ℕ → Process → Round
  overflowed : Round

abbrev pub gave_up : Process → Round
gave_up (c, m) = left (
  record c { state = failed; is_running = false },
  mark_grpc_unhealthy (inc_grpc_stream_errors m),
)

-- From the backoff on. `opened` as above.
unfoldable pub reopen : Bool → Process → Process
reopen opened (c, m) =
    if not opened
    then (record c { state = reconnecting }, mark_grpc_unhealthy (inc_grpc_stream_errors m))
    else (
      record c {
        stream = true;
        context = true;
        audio_queue = [];
        reconnect_attempts = 0;
        state = streaming;
      },
      mark_grpc_healthy (sub_grpc_queued_frames (length c.audio_queue) m),
    )

slept : Option ℕ → Bool → Process → Round
slept none opened p = overflowed
slept (some ms) opened (c, m) = goes_on ms (
    reopen opened
      (record c { reconnect_attempts = c.reconnect_attempts + 1 }, inc_grpc_reconnect_attempts m))

retry : Bool → Process → Round
retry opened (c, m) =
    if leb c.max_reconnect_retries c.reconnect_attempts
    then gave_up (c, m)
    else slept (wait_ms c.reconnect_attempts c.max_backoff_ms) opened (c, m)

-- One round of `readWorker` while the session runs, after `tryConnectAndRead` has ended so.
unfoldable pub read_worker_round : ReadOutcomeKind → Bool → Process → Round
unfolding retry slept
read_worker_round stopped opened (c, m) = left (record c { state = closed }, m)
read_worker_round completed opened (c, m) = left (record c { state = closed }, m)
read_worker_round permanent_failure opened p = gave_up p
read_worker_round reconnect opened p = retry opened p
