-- ===== src/VoicebotAiClient/Reading.antt =====
-- src/ai/VoicebotAiClient.cpp: what a client does with the responses of the AI service
-- (tryConnectAndRead), and the rounds of readWorker with it. The responses are the ones that `Read`
-- gives before the loop ends, and the status is the one of `Finish`.
use vbgw_pjsip_v.Common.{
  ℕ, Text, List, [], ◌∷◌, ◌++◌, Bool, true, false, not, ◌&&◌, if◌then◌else◌, is_empty,
}
use vbgw_pjsip_v.RuntimeMetrics.{
  RuntimeMetrics, mark_grpc_healthy, mark_grpc_unhealthy, inc_barge_in_events,
}
use vbgw_pjsip_v.VoicebotAiClient.{
  Process, ReadOutcomeKind, stopped, completed, reconnect, permanent_failure, Round,
  read_worker_round,
}

pub data ResponseType : Type 0 where
  stt_result tts_audio end_of_turn : ResponseType

pub record AiResponse : Type 0 where
  pub kind : ResponseType
  pub text_content : Text
  pub audio_data : List ℕ
  pub clear_buffer : Bool

-- The codes that the source names, and any other.
pub data StatusCode : Type 0 where
  ok unavailable : StatusCode
  invalid_argument permission_denied unauthenticated failed_precondition : StatusCode
  unimplemented internal data_loss : StatusCode
  other_code : ℕ → StatusCode

unfoldable pub is_permanent_failure_status : StatusCode → Bool
is_permanent_failure_status invalid_argument = true
is_permanent_failure_status permission_denied = true
is_permanent_failure_status unauthenticated = true
is_permanent_failure_status failed_precondition = true
is_permanent_failure_status unimplemented = true
is_permanent_failure_status internal = true
is_permanent_failure_status data_loss = true
is_permanent_failure_status _ = false

-- A call of one of the two callbacks.
pub data Told : Type 0 where
  tts_received : List ℕ → Told
  tts_clear : Told

-- Whether the callbacks are set.
pub record Callbacks : Type 0 where
  pub on_tts_received : Bool
  pub on_tts_clear : Bool

-- The branches on the type of a response.
unfoldable pub handle_response :
    Callbacks → ResponseType → AiResponse → RuntimeMetrics → List Told × RuntimeMetrics
handle_response cb stt_result r m = ([], m)
handle_response cb tts_audio r m =
    if cb.on_tts_received && not (is_empty r.audio_data)
    then (tts_received r.audio_data ∷ [], m)
    else ([], m)
handle_response cb end_of_turn r m =
    if r.clear_buffer && cb.on_tts_clear then (tts_clear ∷ [], inc_barge_in_events m) else ([], m)

-- The loop over the responses.
unfoldable pub read_all : Callbacks → List AiResponse → Process → List Told × Process
read_all cb [] p = ([], p)
read_all cb (r ∷ rs) (c, m) =
    let (told, m') = handle_response cb r.kind r (mark_grpc_healthy m) in
    let (later, p) = read_all cb rs (record c { reconnect_attempts = 0 }, m') in (told ++ later, p)

-- `status.ok()`
unfoldable pub is_ok : StatusCode → Bool
is_ok ok = true
is_ok _ = false

-- After the loop, where the session still runs.
unfoldable pub finish_stream : StatusCode → Process → ReadOutcomeKind × Process
finish_stream status (c, m) = if is_ok status then (completed, (c, m)) else (
  if is_permanent_failure_status status then permanent_failure else reconnect,
  (c, mark_grpc_unhealthy m),
)

-- `ended`: whether another thread ends the session before the loop does.
unfoldable pub try_connect_and_read :
    Callbacks
    → List AiResponse
    → Bool
    → StatusCode
    → Process
    → ReadOutcomeKind × List Told × Process
try_connect_and_read cb rs ended status (c, m) =
    if not c.stream
    then (reconnect, [], (c, m))
    else if not c.is_running
    then (stopped, [], (c, m))
    else let (told, (c', m')) = read_all cb rs (c, m) in
      let (kind, p) = finish_stream status (c', m') in
      if ended then (stopped, told, (record c' { is_running = false }, m')) else (kind, told, p)

-- A whole round of `readWorker`, with what it calls.
unfoldable pub read_round :
    Callbacks → List AiResponse → Bool → StatusCode → Bool → Process → List Told × Round
read_round cb rs ended status opened p =
    let (kind, told, p') = try_connect_and_read cb rs ended status p in
    (told, read_worker_round kind opened p')
