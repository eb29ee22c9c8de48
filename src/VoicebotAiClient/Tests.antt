-- ===== src/VoicebotAiClient/Tests.antt =====
-- Runs of the AI client.
use vbgw_pjsip_v.Common.{◌≡◌, refl, min, codes, List, [], ◌∷◌, true, false, ◌||◌, arith, replicate}
use vbgw_pjsip_v.RuntimeMetrics.{initial}
use vbgw_pjsip_v.VoicebotAiClient.{Client, streaming, create, reconnect}
use vbgw_pjsip_v.VoicebotAiClient.Queue.{
  Op, sends, dials, works, reads, ends, IsGauged, run, run-IsGauged,
}
use vbgw_pjsip_v.VoicebotAiClient.Reading.{
  AiResponse, tts_audio, end_of_turn, unavailable, other_code, is_ok, is_permanent_failure_status,
  handle_response, read_all, read_round,
}
use vbgw_pjsip_v.VoicebotAiClient.Worker.{
  audio, sent, asked, all_set, IsTold, read_all-IsTold, IsRoundEnd, read_round_lem,
}
use vbgw_pjsip_v.VoicebotAiClient.Breaks.{Break, IsFresh, worker_rounds, worker_rounds_lem}

abbrev fresh : Client
fresh = create 5 4000

-- Three retries, in a session that streams.
abbrev active : Client
active = record {
  stream = true;
  context = true;
  current_session_id = codes "s";
  audio_queue = [];
  is_running = true;
  cleanup_done = false;
  state = streaming;
  max_reconnect_retries = 3;
  max_backoff_ms = 4000;
  reconnect_attempts = 0;
}

abbrev history : List Op
history = sends (1 ∷ []) true ∷ dials (codes "5") ∷ works true ∷ reads reconnect true ∷ ends ∷ []

run-IsGauged_example : IsGauged 0 (run history (active, initial))
run-IsGauged_example = run-IsGauged 0 history active initial refl (omega arith)

-- Two pieces of speech, and an end of the turn that asks to clear the playback.
abbrev responses : List AiResponse
responses =
    record { kind = tts_audio; text_content = []; audio_data = 7 ∷ 8 ∷ []; clear_buffer = false }
    ∷ record { kind = end_of_turn; text_content = []; audio_data = []; clear_buffer = true }
    ∷ record { kind = tts_audio; text_content = []; audio_data = 9 ∷ []; clear_buffer = false }
    ∷ []

-- A stream that breaks at once, and one that breaks after responses.
abbrev breaks : List Break
breaks =
    record { responses = []; status = unavailable }
    ∷ record { responses = responses; status = other_code 1 }
    ∷ []

active-IsFresh : IsFresh 3 4000 active
active-IsFresh = record {
  streams = refl;
  runs = refl;
  unused = refl;
  retries_left = refl;
  backoff = refl;
}

worker_rounds_lem_example :
    (worker_rounds all_set breaks (active, initial)).0 ≡ replicate 2 (min 500 4000)
unfolding is_ok is_permanent_failure_status
worker_rounds_lem_example =
    worker_rounds_lem all_set breaks active initial ((refl, refl), ((refl, refl), tt))
      active-IsFresh (omega arith)

read_all-IsTold_example :
    let (told, p) = read_all all_set responses (active, initial) in
    IsTold (sent responses) (asked responses) 0 told p.1.barge_in_events_total
read_all-IsTold_example = read_all-IsTold responses active initial

heard : audio (read_all all_set responses (active, initial)).0 ≡ 7 ∷ 8 ∷ 9 ∷ []
unfolding read_all handle_response audio
heard = refl

read_round_lem_example :
    let r = (read_round all_set responses false unavailable true (active, initial)).1 in
    IsRoundEnd active (false || is_ok unavailable) (is_permanent_failure_status unavailable) r
read_round_lem_example =
    read_round_lem all_set responses false unavailable true active initial refl refl
      (λ e. absurd (cc)) (omega arith)
