-- ===== src/VoicebotAiClient/Reconnect.antt =====
-- The reconnection of a session whose stream keeps breaking, and the count of active sessions.
use native.Mathlib.Nat.{pow-le-pow_right}
use vbgw_pjsip_v.Common.{
  ℕ, ◌+◌, ◌-◌, ◌*◌, ◌^◌, ◌≤◌, ◌<◌, ◌≡◌, ◌⊎◌, inl, inr, refl, min, Text, List, [], ◌∷◌, some, Bool,
  false, arith, leb, Bool-cases,
}
use vbgw_pjsip_v.RuntimeMetrics.{RuntimeMetrics, inc_grpc_reconnect_attempts}
use vbgw_pjsip_v.VoicebotAiClient.{
  Client, Process, closed, failed, ReadOutcomeKind, create, start_session, end_session, reconnect,
  wait_ms, Round, left, goes_on, overflowed, reopen, slept, retry, read_worker_round,
}

-- What follows a round that goes on.
abbrev pub next : Round → (Process → List ℕ × Round) → List ℕ × Round
next (goes_on ms p) f = let (waits, r) = f p in (ms ∷ waits, r)
next (left p) f = ([], left p)
next overflowed f = ([], overflowed)

-- Rounds whose reads come back with these outcomes, and in which no new stream is given: the waits, and
-- the last round.
unfoldable pub refused_rounds : List ReadOutcomeKind → Process → List ℕ × Round
refused_rounds [] p = ([], goes_on 0 p)
refused_rounds (o ∷ os) p = next (read_worker_round o false p) (refused_rounds os)

pub wait_ms_lem :
    (attempts max_backoff_ms : ℕ)
    → attempts ≤ 22
    → wait_ms attempts max_backoff_ms ≡ some (min (500 * 2 ^ attempts) max_backoff_ms)
unfolding wait_ms
wait_ms_lem attempts max_backoff_ms h =
    let bound = pow-le-pow_right {n = 2} (omega arith) h in ground (arith, bound)

-- A round while retries are left.
pub round_goes_on :
    (opened : Bool) (c : Client) (m : RuntimeMetrics) {ms : ℕ}
    → c.reconnect_attempts < c.max_reconnect_retries
    → wait_ms c.reconnect_attempts c.max_backoff_ms ≡ some ms
    → read_worker_round reconnect opened (c, m)
      ≡ goes_on ms (
          reopen opened (
            record c { reconnect_attempts = c.reconnect_attempts + 1 },
            inc_grpc_reconnect_attempts m,
          ))
unfolding read_worker_round retry slept
round_goes_on opened c m {ms} more wait =
    elim (Bool-cases (leb c.max_reconnect_retries c.reconnect_attempts)) [
      | inl spent ↦ absurd (ground (arith, spent, more))
      | inr left_over ↦ rw (left_over, wait) refl
    ]

-- How a client leaves its loop.
abbrev pub IsLeft : Round → Type 0
IsLeft r =
    (q : Process) × (r ≡ left q)
    × ((q.0.state ≡ closed) ⊎ ((q.0.state ≡ failed) × (q.0.is_running ≡ false)))

-- endSession takes one session off the gauge of active sessions also for a client that was never
-- started, or whose start was refused.
pub end_session_unstarted :
    (session_id : Text) (retries max_backoff_ms : ℕ) (m : RuntimeMetrics)
    → let unstarted = create retries max_backoff_ms in
      let refused = start_session session_id false (unstarted, m) in
      ((end_session (unstarted, m)).1.grpc_active_sessions ≡ m.grpc_active_sessions - 1)
      × ((end_session refused).1.grpc_active_sessions ≡ m.grpc_active_sessions - 1)
unfolding end_session start_session create
end_session_unstarted session_id retries max_backoff_ms m = (refl, refl)
