-- ===== src/SessionManager/Admission.antt =====
-- The table of active calls under any sequence of calls of the manager's methods.
use vbgw_pjsip_v.Common.{
  ℕ, ◌≤◌, ◌≡◌, ◌≢◌, refl, Text, text_eq_iff, text_eq_refl, Option, none, some, List, [], ◌∷◌, Bool,
  true, false, arith, length,
}
use vbgw_pjsip_v.Common.Int.{ℤ}
use vbgw_pjsip_v.SessionManager.{
  CallPtr, SessionManager, create, cleanup_zombies_locked, try_add_call, bury, remove_call,
  find_by_pjsip_id, take_found, take_call_by_pjsip_id, get_call, can_accept_call, clear_all_calls,
}
use vbgw_pjsip_v.SessionManager.Tables.{
  find, IsUnique, find-insert, insert-IsUnique, erase-IsUnique, length-insert-le, length-erase-le,
}

-- What a well-formed manager keeps: a key stands once in the table, which is within the limit.
pub record IsValid (m : SessionManager) : Type 0 where
  pub unique : IsUnique m.calls
  pub within : length m.calls ≤ m.max_calls

-- A call of a public method that changes the manager, other than `addCall`, with the time of the call.
pub data Op : Type 0 where
  try_adds : ℕ → Text → CallPtr → Op
  removes : ℕ → Text → Op
  takes : ℕ → ℤ → Op
  clears : Op

unfoldable pub apply : Op → SessionManager → SessionManager
apply (try_adds now session_id call) m = (try_add_call now session_id call m).1.state
apply (removes now session_id) m = (remove_call now session_id m).state
apply (takes now id) m = (take_call_by_pjsip_id now id m).1.state
apply clears m = clear_all_calls m

unfoldable pub run : List Op → SessionManager → SessionManager
run [] m = m
run (o ∷ os) m = run os (apply o m)

-- tryAddCall succeeds exactly when canAcceptCall holds; the table then has the call under its
-- session id and every other entry as before, and a refusal changes nothing.
pub try_add_call_lem :
    (now : ℕ) (session_id other : Text) (call : CallPtr) (m : SessionManager)
    → let (added, done) = try_add_call now session_id call m in
      (added ≡ can_accept_call m)
      × (added ≡ true → get_call session_id done.state ≡ call)
      × (added ≡ true → session_id ≢ other → get_call other done.state ≡ get_call other m)
      × (added ≡ false → done.state ≡ m)
unfolding try_add_call can_accept_call get_call cleanup_zombies_locked
try_add_call_lem now session_id other call m = ground (
  arith,
  find-insert session_id other call m.calls,
  find-insert session_id session_id call m.calls,
  text_eq_refl session_id,
  text_eq_iff session_id other,
)

pub remove_call-fresh :
    (now : ℕ) (session_id : Text) (m : SessionManager)
    → find session_id m.calls ≡ none
    → (remove_call now session_id m).state.calls ≡ m.calls
unfolding remove_call bury cleanup_zombies_locked
remove_call-fresh now session_id m h = rw h refl

create-IsValid : (max_calls : ℕ) (redis : Bool) → IsValid (create max_calls redis)
unfolding create
create-IsValid max_calls redis = record { unique = tt; within = omega arith }

insert-IsValid :
    (now : ℕ) (session_id : Text) (call : CallPtr) (m : SessionManager)
    → IsValid m
    → IsValid (try_add_call now session_id call m).1.state
unfolding try_add_call cleanup_zombies_locked
insert-IsValid now session_id call m v = record {
  unique = ground (arith, insert-IsUnique session_id call m.calls v.unique, v.unique);
  within = ground (arith, length-insert-le session_id call m.calls, v.within);
}

bury-IsValid :
    (now : ℕ) (session_id : Text) (found : Option CallPtr) (m : SessionManager)
    → IsValid m
    → IsValid (bury now session_id found m)
unfolding bury
bury-IsValid now session_id none m v = v
bury-IsValid now session_id (some call) m v = record {
  unique = erase-IsUnique session_id m.calls v.unique;
  within = omega (arith, length-erase-le session_id m.calls, v.within);
}

finish-IsValid :
    (now : ℕ) (m : SessionManager) → IsValid m → IsValid (cleanup_zombies_locked now m).0
unfolding cleanup_zombies_locked
finish-IsValid now m v = record { unique = v.unique; within = v.within }

take-IsValid :
    (now : ℕ) (found : Option (Text × CallPtr)) (m : SessionManager)
    → IsValid m
    → IsValid (take_found now found m).1.state
unfolding take_found
take-IsValid now none m v = finish-IsValid now m v
take-IsValid now (some (session_id, none)) m v = finish-IsValid now m v
take-IsValid now (some (session_id, some call)) m v =
    finish-IsValid now (bury now session_id (some (some call)) m)
      (bury-IsValid now session_id (some (some call)) m v)

apply-IsValid : (o : Op) (m : SessionManager) → IsValid m → IsValid (apply o m)
unfolding apply remove_call take_call_by_pjsip_id clear_all_calls
apply-IsValid (try_adds now session_id call) m v = insert-IsValid now session_id call m v
apply-IsValid (removes now session_id) m v =
    finish-IsValid now (bury now session_id (find session_id m.calls) m)
      (bury-IsValid now session_id (find session_id m.calls) m v)
apply-IsValid (takes now id) m v = take-IsValid now (find_by_pjsip_id id m.calls) m v
apply-IsValid clears m v = record { unique = tt; within = omega arith }

IsValid-run : (os : List Op) (m : SessionManager) → IsValid m → IsValid (run os m)
unfolding run
IsValid-run [] m v = v
IsValid-run (o ∷ os) m v = IsValid-run os (apply o m) (apply-IsValid o m v)

-- Whatever calls of tryAddCall, removeCall, takeCallByPjsipId and clearAllCalls a new manager gets,
-- every session id stands once in its table, and the table is within the limit.
pub run-IsValid :
    (max_calls : ℕ) (redis : Bool) (os : List Op) → IsValid (run os (create max_calls redis))
run-IsValid max_calls redis os =
    IsValid-run os (create max_calls redis) (create-IsValid max_calls redis)
