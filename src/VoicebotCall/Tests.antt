-- ===== src/VoicebotCall/Tests.antt =====
-- Runs of a call, and the theorems at concrete calls.
use vbgw_pjsip_v.Common.{
  ◌≡◌, refl, inr, codes, none, some, List, [], ◌∷◌, true, false, arith, text_eq,
}
use vbgw_pjsip_v.Common.Int.{pos}
use vbgw_pjsip_v.Redis.Memory.{memory, memory-Laws, empty}
use vbgw_pjsip_v.RuntimeMetrics.{initial, add_grpc_queued_frames}
use vbgw_pjsip_v.CapacityManager.{ran_both}
use vbgw_pjsip_v.SessionManager.{CallRef}
use vbgw_pjsip_v.SessionManager.Tables.{find}
use vbgw_pjsip_v.IvrManager.{IvrManager, menu}
use vbgw_pjsip_v.VoicebotAiClient.{Client, streaming}
use vbgw_pjsip_v.SileroVad.Conserve.{recorder}
use vbgw_pjsip_v.VoicebotMediaPort.{Dsp}
use vbgw_pjsip_v.VoicebotCall.{Platform, VoicebotCall, World, transferred}
use vbgw_pjsip_v.VoicebotCall.Cdr.{CdrEnv, decimal, digits, duration_text}
use vbgw_pjsip_v.VoicebotCall.Bridge.{stats_media_index, first_audio}
use vbgw_pjsip_v.VoicebotCall.Life.{RedisEnv, on_call_state}
use vbgw_pjsip_v.VoicebotCall.Media.{agent_uri, on_speech_end}
use vbgw_pjsip_v.VoicebotCall.Control.{on_dtmf_digit}
use vbgw_pjsip_v.VoicebotCall.History.{CallEvent, run, dtmf_digit, speech_ended, call_state, reaped}
use vbgw_pjsip_v.VoicebotCall.Once.{IsOnce, run-IsOnce}
use vbgw_pjsip_v.VoicebotCall.Keeps.{cdrs}
use vbgw_pjsip_v.VoicebotCall.Ended.{IsReleased, on_call_state-Released}
use vbgw_pjsip_v.VoicebotCall.Turns.{on_speech_end_lem}
use vbgw_pjsip_v.VoicebotCall.Digits.{dtmf_item, on_dtmf_digit-queued}

-- A Speex library that changes nothing.
abbrev pub plain : Dsp
plain = record { State = Unit {0}; initial = tt; process = λ s samples. (samples, s) }

abbrev pub platform : Platform
platform = record { redis = memory; network = recorder; dsp = plain }

abbrev open_menu : IvrManager
open_menu = record {
  current_state = menu;
  on_dtmf_forward = true;
  on_transfer = true;
  on_disconnect = true;
  on_repeat_menu = false;
  on_enter_ai_chat = false;
}

abbrev client : Client
client = record {
  stream = true;
  context = true;
  current_session_id = codes "s";
  audio_queue = [];
  is_running = true;
  cleanup_done = false;
  state = streaming;
  max_reconnect_retries = 3;
  max_backoff_ms = 4000;
  reconnect_attempts = 0;
}

abbrev pub call : VoicebotCall platform
call = record {
  media_port = none;
  ai_client = some client;
  ivr_manager = open_menu;
  recorder = some (codes "a.wav");
  announcement_player = none;
  recording_active = true;
  recording_file_path = codes "a.wav";
  primary_audio_media_index = pos 0;
  initial_call_id = pos 3;
  session_id = codes "s";
  service_name = codes "sales";
  entry_number = codes "1001";
  route_type = codes "ai";
  slot_id = codes "u";
  start_time = 0;
  vad_trigger_count = 0;
  bargein_count = 0;
  turn_count = 19;
  lifecycle_finalized = false;
  lease_timer_id = 1234;
  cushion_timer_id = 0;
}

abbrev this : CallRef
this = record { object = 1; initial_call_id = pos 3; session_id = codes "s" }

abbrev world : World platform
world = record {
  call = call;
  metrics = initial;
  sessions = record {
    max_calls = 2;
    calls = (codes "s", some this) ∷ [];
    zombies = [];
    redis = false;
  };
  store = empty;
  webhook = record { queue = []; stop = false; is_running = true };
  effects = [];
}

abbrev cdr_env : CdrEnv
cdr_env = record {
  end_time = 61000000000;
  end_time_text = codes "1970-01-01T00:01:01Z";
  cdr_webhook_enable = true;
  cdr_webhook_url = codes "http://cdr";
}

abbrev redis_env : RedisEnv
redis_env = record { connected = true; get_fails = false; ran = ran_both }

abbrev life : List (CallEvent platform)
life =
    dtmf_digit (codes "5")
    ∷ speech_ended none
    ∷ call_state redis_env cdr_env none 0 true (codes "Normal")
    ∷ reaped redis_env cdr_env none (codes "again")
    ∷ []

run-IsOnce_example : IsOnce platform (run platform life world)
unfolding cdrs
run-IsOnce_example = run-IsOnce platform life world (refl, refl)

on_call_state-Released_example :
    IsReleased platform
      (codes "sales")
      (codes "u")
      (on_call_state platform redis_env cdr_env none 0 true (codes "Normal") world)
unfolding find text_eq
on_call_state-Released_example =
    on_call_state-Released platform memory-Laws false cdr_env none 0 (codes "Normal") world this
      (refl, tt) refl refl (λ e. ground (arith, e)) (λ e. ground (arith, e))

on_speech_end_lem_example :
    ((on_speech_end platform none world).call.turn_count ≡ 20)
    × ((on_speech_end platform none world).effects ≡ transferred agent_uri ∷ [])
on_speech_end_lem_example = on_speech_end_lem platform world (omega arith)

on_dtmf_digit-queued_example :
    let w' = on_dtmf_digit platform (codes "5") world in
    (w'.call.ai_client ≡ some (record client { audio_queue = dtmf_item (codes "5") ∷ [] }))
    × (w'.metrics ≡ add_grpc_queued_frames 1 initial)
    × (w'.call.ivr_manager ≡ open_menu)
on_dtmf_digit-queued_example =
    on_dtmf_digit-queued platform 53 world client refl
      (
        refl,
        inr (refl, λ e. ground (arith, e)),
        λ e. ground (arith, e),
        λ e. ground (arith, e),
        λ e. ground (arith, e),
      )
      refl refl refl

-- A stale index is kept where no medium is audio.
stale_index : stats_media_index (false ∷ []) (pos 0) ≡ pos 0
unfolding stats_media_index first_audio
stale_index = refl

durations :
    (duration_text 0 61000000000 ≡ codes "61")
    × (duration_text 5000000000 0 ≡ codes "-5")
    × (duration_text 500000000 0 ≡ codes "0")
unfolding duration_text decimal digits
durations = (refl, refl, refl)
