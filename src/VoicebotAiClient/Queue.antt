-- ===== src/VoicebotAiClient/Queue.antt =====
-- The queue of a session through any history of its methods.
use vbgw_pjsip_v.Common.{
  ℕ, suc, ◌+◌, ◌^◌, ◌≤◌, ◌<◌, ◌≡◌, inl, inr, refl, ap, Text, List, [], ◌∷◌, ◌++◌, Option, none,
  some, Bool, true, false, not, ◌&&◌, ◌==◌, arith, leb, if◌then◌else◌, length, length-append,
  Bool-cases,
}
use vbgw_pjsip_v.RuntimeMetrics.{RuntimeMetrics, add_grpc_queued_frames}
use vbgw_pjsip_v.VoicebotAiClient.{
  AudioItem, Client, Process, max_audio_queue_size, is_streaming, start_session, send_audio,
  send_dtmf, write_item, take_item, stream_worker_round, end_session, ReadOutcomeKind, stopped,
  completed, reconnect, permanent_failure, wait_ms, Round, left, goes_on, overflowed, reopen, slept,
  retry, read_worker_round,
}

-- What happens to a client, with what the library answers.
pub data Op : Type 0 where
  starts : Text → Bool → Op
  sends : List ℕ → Bool → Op
  dials : Text → Op
  works : Bool → Op
  reads : ReadOutcomeKind → Bool → Op
  ends : Op

-- The process after a round; a round that overflows, which C++ leaves undefined, is taken to stop there.
abbrev pub resulting : Round → Process → Process
resulting (left p) before = p
resulting (goes_on ms p) before = p
resulting overflowed before = before

unfoldable pub apply : Op → Process → Process
apply (starts session_id opened) p = start_session session_id opened p
apply (sends pcm is_speaking) p = send_audio pcm is_speaking p
apply (dials digit) p = send_dtmf digit p
apply (works written) p = stream_worker_round written p
apply (reads kind opened) p = resulting (read_worker_round kind opened p) p
apply ends p = end_session p

unfoldable pub run : List Op → Process → Process
run [] p = p
run (o ∷ os) p = run os (apply o p)

-- The gauge counts this queue, and `others` frames of the other sessions.
abbrev pub IsGauged : ℕ → Process → Type 0
IsGauged others (c, m) = m.grpc_queued_frames ≡ others + length c.audio_queue

-- A step keeps the gauge and adds one item at most.
abbrev Steps : ℕ → Process → Process → Type 0
Steps others (c, m) (c', m') =
    IsGauged others (c', m') × (length c'.audio_queue ≤ suc (length c.audio_queue))

take_item-Steps :
    (others : ℕ) (q : List AudioItem) (written : Bool) (c : Client) (m : RuntimeMetrics)
    → c.audio_queue ≡ q
    → IsGauged others (c, m)
    → Steps others (c, m) (take_item q written (c, m))
unfolding take_item write_item
take_item-Steps others [] written c m e g = (g, omega arith)
take_item-Steps others (item ∷ items) written c m e g =
    elim (Bool-cases (c.stream && not written)) [
      | inl broken ↦ rw broken (omega (arith, g, ap length e), omega (arith, ap length e))
      | inr sent ↦ rw sent (omega (arith, g, ap length e), omega (arith, ap length e))
    ]

reopen-Steps :
    (others : ℕ) (opened : Bool) (c : Client) (m : RuntimeMetrics)
    → IsGauged others (c, m)
    → Steps others (c, m) (reopen opened (c, m))
unfolding reopen
reopen-Steps others true c m g = (omega (arith, g), omega arith)
reopen-Steps others false c m g = (omega (arith, g), omega arith)

slept-Steps :
    (others : ℕ) (wait : Option ℕ) (opened : Bool) (c : Client) (m : RuntimeMetrics)
    → IsGauged others (c, m)
    → Steps others (c, m) (resulting (slept wait opened (c, m)) (c, m))
unfolding slept
slept-Steps others none opened c m g = (g, omega arith)
slept-Steps others (some ms) opened c m g =
    reopen-Steps others opened (record c { reconnect_attempts = c.reconnect_attempts + 1 }) _ g

read-Steps :
    (others : ℕ) (kind : ReadOutcomeKind) (opened : Bool) (c : Client) (m : RuntimeMetrics)
    → IsGauged others (c, m)
    → Steps others (c, m) (resulting (read_worker_round kind opened (c, m)) (c, m))
unfolding read_worker_round retry
read-Steps others stopped opened c m g = (g, omega arith)
read-Steps others completed opened c m g = (g, omega arith)
read-Steps others permanent_failure opened c m g = (g, omega arith)
read-Steps others reconnect opened c m g =
    elim (Bool-cases (leb c.max_reconnect_retries c.reconnect_attempts)) [
      | inl spent ↦ rw spent (g, omega arith)
      | inr more ↦
          rw more (slept-Steps others (wait_ms c.reconnect_attempts c.max_backoff_ms) opened c m g)
    ]

if-Steps :
    (others : ℕ) (b : Bool) (p first second : Process)
    → Steps others p first
    → Steps others p second
    → Steps others p (if b then first else second)
if-Steps others true p first second s t = s
if-Steps others false p first second s t = t

push-Steps :
    (others : ℕ) (item : AudioItem) (c : Client) (m : RuntimeMetrics)
    → IsGauged others (c, m)
    → others + length c.audio_queue + 1 < 2 ^ 64
    → Steps others
        (c, m)
        (record c { audio_queue = c.audio_queue ++ item ∷ [] }, add_grpc_queued_frames 1 m)
push-Steps others item c m g p = (
  omega (arith, g, p, length-append c.audio_queue (item ∷ [])),
  omega (arith, length-append c.audio_queue (item ∷ [])),
)

apply-Steps :
    (others : ℕ) (o : Op) (c : Client) (m : RuntimeMetrics)
    → IsGauged others (c, m)
    → others + length c.audio_queue + 1 < 2 ^ 64
    → Steps others (c, m) (apply o (c, m))
unfolding apply start_session send_audio send_dtmf stream_worker_round end_session
apply-Steps others (starts session_id opened) c m g p = ground (arith, g)
apply-Steps others (sends pcm is_speaking) c m g p =
    if-Steps others (not c.is_running) (c, m) _ _ (g, omega arith)
      (if-Steps others (leb max_audio_queue_size (length c.audio_queue)) (c, m) _ _ (g, omega arith)
        (push-Steps others _ c m g p))
apply-Steps others (dials digit) c m g p =
    if-Steps others (not (length digit == 1)) (c, m) _ _ (g, omega arith)
      (if-Steps others (not c.is_running) (c, m) _ _ (g, omega arith)
        (if-Steps others (not (is_streaming c.state)) (c, m) _ _ (g, omega arith)
          (push-Steps others _ c m g p)))
apply-Steps others (works written) c m g p = take_item-Steps others c.audio_queue written c m refl g
apply-Steps others (reads kind opened) c m g p = read-Steps others kind opened c m g
apply-Steps others ends c m g p = ground (arith, g)

-- Through any history of a client, the gauge of queued frames is the length of its queue and the
-- frames of the other sessions, if their sum and the number of steps stay below 2 ^ 64.
pub run-IsGauged :
    (others : ℕ) (os : List Op) (c : Client) (m : RuntimeMetrics)
    → IsGauged others (c, m)
    → others + length c.audio_queue + length os < 2 ^ 64
    → IsGauged others (run os (c, m))
unfolding run
run-IsGauged others [] c m g p = g
run-IsGauged others (o ∷ os) c m g p =
    let (g', more) = apply-Steps others o c m g (omega (arith, p)) in
    let (c', m') = apply o (c, m) in run-IsGauged others os c' m' g' (omega (arith, more, p))
