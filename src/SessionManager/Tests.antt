-- ===== src/SessionManager/Tests.antt =====
-- Runs of the session manager.
use vbgw_pjsip_v.Common.{
  ℕ, ◌*◌, ◌^◌, ◌≡◌, ◌≢◌, refl, text_eq, codes, [], ◌∷◌, ◌++◌, none, some, true,
}
use vbgw_pjsip_v.Common.Int.{pos}
use vbgw_pjsip_v.Common.Membership.{In}
use vbgw_pjsip_v.SessionManager.{
  CallPtr, SessionManager, create, remove_call, take_call_by_pjsip_id, get_call,
}
use vbgw_pjsip_v.SessionManager.Tables.{find, IsUnique}
use vbgw_pjsip_v.SessionManager.Admission.{IsValid, try_adds, takes, run, run-IsValid}
use vbgw_pjsip_v.SessionManager.Retention.{
  IsRecent, Taken, remove_call_lem, take_call_by_pjsip_id_lem,
}

abbrev call : CallPtr
call = some (record { object = 1; initial_call_id = pos 5; session_id = codes "a" })

-- One call of two, and a zombie of 40 seconds.
abbrev busy : SessionManager
busy = record {
  max_calls = 2;
  calls = (codes "a", call) ∷ [];
  zombies = (10 ^ 9, none) ∷ [];
  redis = true;
}

busy-IsUnique : IsUnique busy.calls
unfolding find
busy-IsUnique = (refl, tt)

found_a : find (codes "a") busy.calls ≡ some call
unfolding find text_eq
found_a = refl

run-IsValid_example :
    IsValid (run (try_adds 1 (codes "a") call ∷ takes 2 (pos 5) ∷ []) (create 1 true))
run-IsValid_example = run-IsValid 1 true (try_adds 1 (codes "a") call ∷ takes 2 (pos 5) ∷ [])

remove_call_lem_example :
    let now = 41 * 10 ^ 9 in
    let done = remove_call now (codes "a") busy in
    In (now, call) done.state.zombies
    × ((since : ℕ) (c : CallPtr)
        → IsRecent now since
        → In (since, c) busy.zombies
        → In (since, c) done.state.zombies)
    × ((c : CallPtr)
        → In c done.to_delete
        → (since : ℕ) × In (since, c) (busy.zombies ++ (now, call) ∷ []) × (IsRecent now since → ⊥))
    × (get_call (codes "a") done.state ≡ none)
    × (codes "a" ≢ codes "b" → get_call (codes "b") done.state ≡ get_call (codes "b") busy)
remove_call_lem_example =
    remove_call_lem (41 * 10 ^ 9) (codes "a") (codes "b") call busy busy-IsUnique found_a

take_call_by_pjsip_id_lem_example :
    let (call, done) = take_call_by_pjsip_id 9 (pos 5) busy in Taken 9 (pos 5) busy call done
take_call_by_pjsip_id_lem_example = take_call_by_pjsip_id_lem 9 (pos 5) busy busy-IsUnique
