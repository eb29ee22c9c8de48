-- ===== src/SessionManager.antt =====
-- src/engine/SessionManager.h and SessionManager.cpp: the table of active calls, and the removed calls
-- that are kept alive for a while. Each method locks the manager's mutex for its whole table access, so
-- it is one step. `std::unordered_map` is an association list; nothing is claimed of its order. The
-- clock is `std::chrono::steady_clock`, in nanoseconds, read once for each call. `max_calls` is the
-- limit after its cast to `size_t`.
pub mod Tables
pub mod Admission
pub mod Retention
mod Tests
use vbgw_pjsip_v.Common.{
  ℕ, ◌+◌, ◌-◌, ◌*◌, ◌/◌, ◌^◌, Text, text_eq, Option, none, some, List, [], ◌∷◌, ◌++◌, map, Bool,
  true, false, not, ◌||◌, ltb, leb, if◌then◌else◌, length,
}
use vbgw_pjsip_v.Common.Int.{ℤ, eqb_ℤ}
use vbgw_pjsip_v.SessionManager.Tables.{Table, find, insert, erase}

-- A `VoicebotCall` object, by its identity and the members that never change.
pub record CallRef : Type 0 where
  pub object : ℕ
  pub initial_call_id : ℤ
  pub session_id : Text

-- `std::shared_ptr<VoicebotCall>`
abbrev pub CallPtr : Type 0
CallPtr = Option CallRef

-- What is sent to Redis; its failures are ignored by the code.
pub data Command : Type 0 where
  set_active : Text → Command
  del_call : Text → Command

pub record SessionManager : Type 0 where
  pub max_calls : ℕ
  pub calls : Table CallPtr
  pub zombies : List (ℕ × CallPtr)
  pub redis : Bool

-- What a method leaves: the state, the pointers that it drops on return, and its Redis commands.
pub record Done : Type 0 where
  pub state : SessionManager
  pub to_delete : List CallPtr
  pub commands : List Command

unfoldable pub create : ℕ → Bool → SessionManager
create max_calls redis = record { max_calls = max_calls; calls = []; zombies = []; redis = redis }

-- `duration_cast<seconds>(now - it->first).count() >= 30`
abbrev pub is_over : ℕ → ℕ → Bool
is_over now since = leb 30 ((now - since) / 10 ^ 9)

unfoldable pub expired : ℕ → List (ℕ × CallPtr) → List CallPtr
expired now [] = []
expired now ((since, call) ∷ zs) =
    let rest = expired now zs in if is_over now since then call ∷ rest else rest

unfoldable pub kept : ℕ → List (ℕ × CallPtr) → List (ℕ × CallPtr)
kept now [] = []
kept now ((since, call) ∷ zs) =
    let rest = kept now zs in if is_over now since then rest else (since, call) ∷ rest

-- `cleanupZombiesLocked`, and the Redis command that follows the lock.
unfoldable pub cleanup_zombies_locked : ℕ → SessionManager → SessionManager × List CallPtr
cleanup_zombies_locked now m = (record m { zombies = kept now m.zombies }, expired now m.zombies)

abbrev pub finish : ℕ → SessionManager → List Command → Done
finish now m commands =
    let (m', dropped) = cleanup_zombies_locked now m in
    record { state = m'; to_delete = dropped; commands = if m.redis then commands else [] }

unfoldable pub add_call : ℕ → Text → CallPtr → SessionManager → Done
unfolding cleanup_zombies_locked
add_call now session_id call m =
    finish now (record m { calls = insert session_id call m.calls }) (set_active session_id ∷ [])

unfoldable pub try_add_call : ℕ → Text → CallPtr → SessionManager → Bool × Done
unfolding cleanup_zombies_locked
try_add_call now session_id call m =
    if leb m.max_calls (length m.calls)
    then (false, record { state = m; to_delete = []; commands = [] })
    else (
      true,
      finish now (record m { calls = insert session_id call m.calls }) (set_active session_id ∷ []),
    )

-- The pointer found, put among the zombies.
bury : ℕ → Text → Option CallPtr → SessionManager → SessionManager
bury now session_id none m = m
bury now session_id (some call) m = record m {
  zombies = m.zombies ++ (now, call) ∷ [];
  calls = erase session_id m.calls;
}

unfoldable pub remove_call : ℕ → Text → SessionManager → Done
unfolding bury cleanup_zombies_locked
remove_call now session_id m =
    finish now (bury now session_id (find session_id m.calls) m) (del_call session_id ∷ [])

unfoldable pub has_id : ℤ → CallPtr → Bool
has_id id none = false
has_id id (some call) = eqb_ℤ call.initial_call_id id

-- The first entry of the loop over `calls_` that is not skipped.
unfoldable pub find_by_pjsip_id : ℤ → Table CallPtr → Option (Text × CallPtr)
find_by_pjsip_id id [] = none
find_by_pjsip_id id ((session_id, call) ∷ calls) =
    if has_id id call then some (session_id, call) else find_by_pjsip_id id calls

take_found : ℕ → Option (Text × CallPtr) → SessionManager → Option (Text × CallPtr) × Done
take_found now (some (session_id, some call)) m = (
  some (session_id, some call),
  finish now (bury now session_id (some (some call)) m) (del_call call.session_id ∷ []),
)
take_found now _ m = (none, finish now m [])

-- `takeCallByPjsipId`: the call with the session id that the out-parameter receives.
unfoldable pub take_call_by_pjsip_id : ℕ → ℤ → SessionManager → Option (Text × CallPtr) × Done
unfolding take_found bury cleanup_zombies_locked
take_call_by_pjsip_id now id m = take_found now (find_by_pjsip_id id m.calls) m

-- The value of an entry, `nullptr` where there is none.
abbrev pub or_null : Option CallPtr → CallPtr
or_null none = none
or_null (some call) = call

unfoldable pub get_call : Text → SessionManager → CallPtr
get_call session_id m = or_null (find session_id m.calls)

unfoldable pub can_accept_call : SessionManager → Bool
can_accept_call m = ltb (length m.calls) m.max_calls

unfoldable pub get_active_call_count : SessionManager → ℕ
get_active_call_count m = length m.calls

-- Also the calls that `hangupAllCalls` and `endAllAiSessions` go through.
unfoldable pub get_active_calls_snapshot : SessionManager → List CallPtr
get_active_calls_snapshot m = map (λ e. e.1) m.calls

unfoldable pub clear_all_calls : SessionManager → SessionManager
clear_all_calls m = record m { calls = []; zombies = [] }
