-- ===== src/VoicebotAiClient/Breaks.antt =====
-- Whole rounds of readWorker in src/ai/VoicebotAiClient.cpp, over streams that break again and again.
use vbgw_pjsip_v.Common.{
  ℕ, ◌<◌, ◌≡◌, refl, ap, ap₂, ◌∙◌, min, List, [], ◌∷◌, Bool, true, false, arith, if◌then◌else◌,
  length, replicate,
}
use vbgw_pjsip_v.RuntimeMetrics.{RuntimeMetrics, mark_grpc_healthy, mark_grpc_unhealthy}
use vbgw_pjsip_v.VoicebotAiClient.{
  Client, Process, reconnect, completed, permanent_failure, ReadOutcomeKind, Round, goes_on, reopen,
  wait_ms, read_worker_round,
}
use vbgw_pjsip_v.VoicebotAiClient.Reconnect.{next, wait_ms_lem, round_goes_on}
use vbgw_pjsip_v.VoicebotAiClient.Reading.{
  AiResponse, StatusCode, is_ok, is_permanent_failure_status, Told, Callbacks, handle_response,
  read_all, finish_stream, try_connect_and_read, read_round,
}
use vbgw_pjsip_v.VoicebotAiClient.Worker.{passed}

-- What a stream gives until it breaks, and the status that `Finish` then answers.
pub record Break : Type 0 where
  pub responses : List AiResponse
  pub status : StatusCode

-- The status is one after which the client connects anew.
abbrev pub IsTransient : StatusCode → Type 0
IsTransient status = (is_ok status ≡ false) × (is_permanent_failure_status status ≡ false)

abbrev pub AllTransient : List Break → Type 0
AllTransient [] = Unit {0}
AllTransient (b ∷ bs) = IsTransient b.status × AllTransient bs

-- The rounds of a session that no other thread ends, where each new stream is given: the waits, and
-- the last round.
unfoldable pub worker_rounds : Callbacks → List Break → Process → List ℕ × Round
worker_rounds cb [] p = ([], goes_on 0 p)
worker_rounds cb (b ∷ bs) p =
    next (read_round cb b.responses false b.status true p).1 (worker_rounds cb bs)

-- A client that streams and has no attempt behind it, with these settings.
pub record IsFresh (retries max_backoff_ms : ℕ) (c : Client) : Type 0 where
  pub streams : c.stream ≡ true
  pub runs : c.is_running ≡ true
  pub unused : c.reconnect_attempts ≡ 0
  pub retries_left : c.max_reconnect_retries ≡ retries
  pub backoff : c.max_backoff_ms ≡ max_backoff_ms

read_all-IsFresh :
    {n k : ℕ} (cb : Callbacks) (rs : List AiResponse) (c : Client) (m : RuntimeMetrics)
    → IsFresh n k c
    → IsFresh n k (read_all cb rs (c, m)).1.0
unfolding read_all
read_all-IsFresh cb [] c m f = f
read_all-IsFresh cb (r ∷ rs) c m f =
    read_all-IsFresh cb rs (record c { reconnect_attempts = 0 })
      (handle_response cb r.kind r (mark_grpc_healthy m)).1
      (record {
        streams = f.streams;
        runs = f.runs;
        unused = refl;
        retries_left = f.retries_left;
        backoff = f.backoff;
      })

-- A round that waits so and leaves a fresh client.
abbrev Renewed : ℕ → ℕ → Round → Type 0
Renewed n k r = (q : Process) × (r ≡ goes_on (min 500 k) q) × IsFresh n k q.0

retried-Renewed :
    {n k : ℕ} (d : Client) (m : RuntimeMetrics)
    → IsFresh n k d
    → 0 < n
    → Renewed n k (read_worker_round reconnect true (d, m))
unfolding reopen
retried-Renewed {n} {k} d m f more =
    let wait = ap₂ (λ a b. wait_ms a b) f.unused f.backoff ∙ wait_ms_lem 0 k (omega arith) in
    (
      _,
      round_goes_on true d m (omega (arith, f.unused, f.retries_left, more)) wait,
      record {
        streams = refl;
        runs = f.runs;
        unused = refl;
        retries_left = f.retries_left;
        backoff = f.backoff;
      },
    )

finished-Renewed :
    {n k : ℕ} (good permanent : Bool) (d : Client) (m m' : RuntimeMetrics)
    → good ≡ false
    → permanent ≡ false
    → IsFresh n k d
    → 0 < n
    → let finished : ReadOutcomeKind × Process =
        if good
        then (completed, (d, m))
        else (if permanent then permanent_failure else reconnect, (d, m')) in
      Renewed n k (read_worker_round finished.0 true finished.1)
finished-Renewed true permanent d m m' h h' f more = absurd (cc)
finished-Renewed false true d m m' h h' f more = absurd (cc)
finished-Renewed false false d m m' h h' f more = retried-Renewed d m' f more

round-Renewed :
    {n k : ℕ} (cb : Callbacks) (b : Break) (c : Client) (m : RuntimeMetrics)
    → IsTransient b.status
    → IsFresh n k c
    → 0 < n
    → Renewed n k (read_round cb b.responses false b.status true (c, m)).1
unfolding read_round try_connect_and_read finish_stream
round-Renewed {n} {k} cb b c m (bad, transient) f more =
    let P : ReadOutcomeKind × List Told × Process → Type 0 =
      λ o. Renewed n k (read_worker_round o.0 true o.2) in
    let (told, (d, m')) = read_all cb b.responses (c, m) in
    passed P c.stream _ f.streams (
      passed P c.is_running _ f.runs (
        finished-Renewed (is_ok b.status) (is_permanent_failure_status b.status) d m'
          (mark_grpc_unhealthy m') bad transient (read_all-IsFresh cb b.responses c m f) more))

-- A client that streams, has no attempt behind it and may retry, whose stream breaks in every
-- round, after any responses, with a status that is neither OK nor permanent, and is given anew
-- each time, never gives up, and each of its waits is the first one, the smaller of 500 ms and the
-- maximum backoff.
pub worker_rounds_lem :
    {n k : ℕ} (cb : Callbacks) (bs : List Break) (c : Client) (m : RuntimeMetrics)
    → AllTransient bs
    → IsFresh n k c
    → 0 < n
    → (worker_rounds cb bs (c, m)).0 ≡ replicate (length bs) (min 500 k)
unfolding worker_rounds
worker_rounds_lem cb [] c m t f more = refl
worker_rounds_lem {n} {k} cb (b ∷ bs) c m (t, ts) f more =
    let (q, e, fresh) = round-Renewed cb b c m t f more in
    ap (λ r. (next r (worker_rounds cb bs)).0) e
    ∙ ap (◌∷◌ (min 500 k)) (worker_rounds_lem cb bs q.0 q.1 ts fresh more)
