-- ===== src/VoicebotAiClient/Worker.antt =====
-- What the callbacks are told of the responses, and how a round of readWorker ends.
use vbgw_pjsip_v.Common.{
  ℕ, suc, ◌+◌, ◌%◌, ◌^◌, ◌<◌, ◌≡◌, ◌≢◌, inl, inr, refl, ap, ◌∙◌, sym, append_assoc, append-nil, min,
  List, [], ◌∷◌, ◌++◌, Bool, true, false, not, ◌||◌, arith, if◌then◌else◌, is_empty, Bool-cases,
}
use vbgw_pjsip_v.RuntimeMetrics.{RuntimeMetrics, mark_grpc_healthy, mark_grpc_unhealthy}
use vbgw_pjsip_v.VoicebotAiClient.{
  Client, Process, closed, failed, ReadOutcomeKind, stopped, completed, permanent_failure,
  reconnect, Round, left, goes_on, read_worker_round,
}
use vbgw_pjsip_v.VoicebotAiClient.Reconnect.{wait_ms_lem, round_goes_on}
use vbgw_pjsip_v.VoicebotAiClient.Reading.{
  ResponseType, stt_result, tts_audio, end_of_turn, AiResponse, StatusCode, is_ok,
  is_permanent_failure_status, Told, tts_received, tts_clear, Callbacks, handle_response, read_all,
  finish_stream, try_connect_and_read, read_round,
}

-- The bytes that the callback for audio is told, and those of the audio responses.
unfoldable pub audio : List Told → List ℕ
audio [] = []
audio (tts_received bytes ∷ ts) = bytes ++ audio ts
audio (tts_clear ∷ ts) = audio ts

unfoldable pub speech : ResponseType → AiResponse → List ℕ
speech tts_audio r = r.audio_data
speech _ r = []

unfoldable pub sent : List AiResponse → List ℕ
sent [] = []
sent (r ∷ rs) = speech r.kind r ++ sent rs

-- The calls of the callback for a flush, and the responses that ask for one.
unfoldable pub clears : List Told → ℕ
clears [] = 0
clears (tts_received _ ∷ ts) = clears ts
clears (tts_clear ∷ ts) = suc (clears ts)

unfoldable pub flush : ResponseType → AiResponse → ℕ
flush end_of_turn r = if r.clear_buffer then 1 else 0
flush _ r = 0

unfoldable pub asked : List AiResponse → ℕ
asked [] = 0
asked (r ∷ rs) = flush r.kind r + asked rs

abbrev pub all_set : Callbacks
all_set = record { on_tts_received = true; on_tts_clear = true }

audio-++ : (ts us : List Told) → audio (ts ++ us) ≡ audio ts ++ audio us
unfolding audio
audio-++ [] us = refl
audio-++ (tts_received bytes ∷ ts) us =
    ap (λ l. bytes ++ l) (audio-++ ts us) ∙ sym (append_assoc bytes (audio ts) (audio us))
audio-++ (tts_clear ∷ ts) us = audio-++ ts us

clears-++ : (ts us : List Told) → clears (ts ++ us) ≡ clears ts + clears us
unfolding clears
clears-++ [] us = omega arith
clears-++ (tts_received _ ∷ ts) us = clears-++ ts us
clears-++ (tts_clear ∷ ts) us = omega (arith, clears-++ ts us)

-- The bytes and the flushes that are told, and the count of the flushes.
abbrev pub IsTold : List ℕ → ℕ → ℕ → List Told → ℕ → Type 0
IsTold bytes flushes before told after =
    (audio told ≡ bytes) × (clears told ≡ flushes) × (after % 2 ^ 64 ≡ (before + flushes) % 2 ^ 64)

spoken-IsTold :
    (bytes : List ℕ) (m : RuntimeMetrics)
    → let r : List Told × RuntimeMetrics =
        if not (is_empty bytes) then (tts_received bytes ∷ [], m) else ([], m) in
      IsTold bytes 0 m.barge_in_events_total r.0 r.1.barge_in_events_total
unfolding audio clears
spoken-IsTold [] m = (refl, refl, omega arith)
spoken-IsTold (x ∷ xs) m = (append-nil (x ∷ xs), refl, omega arith)

handle_response-IsTold :
    (k : ResponseType) (r : AiResponse) (m : RuntimeMetrics)
    → let (told, m') = handle_response all_set k r m in
      IsTold (speech k r) (flush k r) m.barge_in_events_total told m'.barge_in_events_total
unfolding handle_response speech flush audio clears
handle_response-IsTold stt_result r m = (refl, refl, omega arith)
handle_response-IsTold tts_audio r m = spoken-IsTold r.audio_data m
handle_response-IsTold end_of_turn r m = elim (Bool-cases r.clear_buffer) [
  | inl clears_it ↦ rw clears_it (refl, refl, omega arith)
  | inr keeps_it ↦ rw keeps_it (refl, refl, omega arith)
]

-- Where both callbacks are set, the audio that the caller is to hear is the audio of the responses,
-- byte for byte in their order, the playback is cleared once for each end of a turn that asks for
-- it, and the count of barge-ins grows by as many, modulo 2 ^ 64.
pub read_all-IsTold :
    (rs : List AiResponse) (c : Client) (m : RuntimeMetrics)
    → let (told, p) = read_all all_set rs (c, m) in
      IsTold (sent rs) (asked rs) m.barge_in_events_total told p.1.barge_in_events_total
unfolding read_all sent asked audio clears
read_all-IsTold [] c m = (refl, refl, omega arith)
read_all-IsTold (r ∷ rs) c m =
    let (told, m') = handle_response all_set r.kind r (mark_grpc_healthy m) in
    let c' = record c { reconnect_attempts = 0 } in
    let later = (read_all all_set rs (c', m')).0 in
    let (bytes, flushes, count) = handle_response-IsTold r.kind r (mark_grpc_healthy m) in
    let (bytes', flushes', count') = read_all-IsTold rs c' m' in
    (
      audio-++ told later ∙ ap (λ l. l ++ audio later) bytes ∙ ap (◌++◌ (speech r.kind r)) bytes',
      omega (arith, clears-++ told later, flushes, flushes'),
      omega (arith, count, count'),
    )

-- Any response sets the count of attempts back, and nothing else of the client is changed.
read_all-client :
    (cb : Callbacks) (rs : List AiResponse) (c : Client) (m : RuntimeMetrics)
    → let c' = record c { reconnect_attempts = 0 } in (read_all cb rs (c', m)).1.0 ≡ c'
unfolding read_all
read_all-client cb [] c m = refl
read_all-client cb (r ∷ rs) c m =
    read_all-client cb rs c (handle_response cb r.kind r (mark_grpc_healthy m)).1

read_all-reset :
    (cb : Callbacks) (rs : List AiResponse) (c : Client) (m : RuntimeMetrics)
    → rs ≢ []
    → (read_all cb rs (c, m)).1.0 ≡ record c { reconnect_attempts = 0 }
unfolding read_all
read_all-reset cb [] c m some_read = absurd (some_read refl)
read_all-reset cb (r ∷ rs) c m some_read =
    read_all-client cb rs c (handle_response cb r.kind r (mark_grpc_healthy m)).1

-- How a round ends, by whether the session was ended or the stream finished well, and whether the
-- failure is permanent.
abbrev pub IsRoundEnd : Client → Bool → Bool → Round → Type 0
IsRoundEnd c true _ r = (q : Process) × (r ≡ left q) × (q.0.state ≡ closed)
IsRoundEnd c false true r =
    (q : Process) × (r ≡ left q) × (q.0.state ≡ failed) × (q.0.is_running ≡ false)
IsRoundEnd c false false r = (q : Process) × (r ≡ goes_on (min 500 c.max_backoff_ms) q)

retried :
    (opened : Bool) (c d : Client) (m : RuntimeMetrics)
    → d ≡ record c { reconnect_attempts = 0 }
    → 0 < c.max_reconnect_retries
    → (q : Process) × (read_worker_round reconnect opened (d, m)
        ≡ goes_on (min 500 c.max_backoff_ms) q)
retried opened c d m e more = (
  _,
  ap (λ x. read_worker_round reconnect opened (x, m)) e
      ∙ round_goes_on opened (record c { reconnect_attempts = 0 }) m more
          (wait_ms_lem 0 c.max_backoff_ms (omega arith)),
)

round_end :
    (opened : Bool) (c : Client) (told : List Told) (d : Client) (m m' : RuntimeMetrics)
    (ended good permanent : Bool)
    → d ≡ record c { reconnect_attempts = 0 }
    → 0 < c.max_reconnect_retries
    → let finished : ReadOutcomeKind × Process =
        if good
        then (completed, (d, m))
        else (if permanent then permanent_failure else reconnect, (d, m')) in
      let outcome : ReadOutcomeKind × List Told × Process =
        if ended
        then (stopped, told, (record d { is_running = false }, m))
        else (finished.0, told, finished.1) in
      IsRoundEnd c (ended || good) permanent (read_worker_round outcome.0 opened outcome.2)
unfolding read_worker_round
round_end opened c told d m m' true good permanent e more = (_, refl, refl)
round_end opened c told d m m' false true permanent e more = (_, refl, refl)
round_end opened c told d m m' false false true e more = (_, refl, refl, refl)
round_end opened c told d m m' false false false e more = retried opened c d m' e more

pub passed {ℓ κ} :
    {X : Type ℓ} (P : X → Type κ) (b : Bool) (x : X) {y : X}
    → b ≡ true
    → P y
    → P (if not b then x else y)
passed P true x h p = p
passed P false x h p = absurd (cc)

-- After at least one response on a stream of a running client that may retry, a round closes the
-- client if another thread ends the session or the stream finishes well, makes it fail and stop at
-- a permanent failure, and otherwise goes on with the first wait, whatever the attempts so far.
pub read_round_lem :
    (cb : Callbacks) (rs : List AiResponse) (ended : Bool) (status : StatusCode) (opened : Bool)
    (c : Client) (m : RuntimeMetrics)
    → c.stream ≡ true
    → c.is_running ≡ true
    → rs ≢ []
    → 0 < c.max_reconnect_retries
    → let r = (read_round cb rs ended status opened (c, m)).1 in
      IsRoundEnd c (ended || is_ok status) (is_permanent_failure_status status) r
unfolding read_round try_connect_and_read finish_stream
read_round_lem cb rs ended status opened c m h h' some_read more =
    let good = is_ok status in
    let permanent = is_permanent_failure_status status in
    let P : ReadOutcomeKind × List Told × Process → Type 0 =
      λ o. IsRoundEnd c (ended || good) permanent (read_worker_round o.0 opened o.2) in
    let (told, (d, m')) = read_all cb rs (c, m) in
    passed P c.stream _ h (
      passed P c.is_running _ h' (
        round_end opened c told d m' (mark_grpc_unhealthy m') ended good permanent
          (read_all-reset cb rs c m some_read) more))
