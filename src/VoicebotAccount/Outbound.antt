-- ===== src/VoicebotAccount/Outbound.antt =====
-- The placing of a call, and the late answer of one, in src/engine/VoicebotAccount.cpp.
use vbgw_pjsip_v.Common.{
  ℕ, ◌≡◌, ◌⊎◌, inl, inr, refl, ap, Text, codes, none, some, Bool, true, false, not, ◌&&◌,
  if◌then◌else◌, Bool-cases,
}
use vbgw_pjsip_v.Common.Int.{negsuc}
use vbgw_pjsip_v.HttpServer.Response.{Dialled, dialled, not_dialled}
use vbgw_pjsip_v.SessionManager.{
  CallRef, SessionManager, can_accept_call, get_call, try_add_call, remove_call,
}
use vbgw_pjsip_v.SessionManager.Tables.{find}
use vbgw_pjsip_v.SessionManager.Admission.{try_add_call_lem, remove_call-fresh}

-- How `makeCall` and then `getInfo` end: with a call id, with none, or by an exception of either, whose
-- handlers are the same, with this message.
pub data Placing : Type 0 where
  placed : Placing
  no_call_id : Placing
  raised : Text → Placing

-- What is told to the caller, the calls that are left, and whether the new call was hung up (486).
pub record Placed : Type 0 where
  pub result : Dialled
  pub sessions : SessionManager
  pub hung_up : Bool

abbrev turned_down : Text → SessionManager → Placed
turned_down message m = record { result = not_dialled message; sessions = m; hung_up = false }

-- The call that is made: it has no call id when it is constructed.
abbrev pub outbound_call : ℕ → Text → CallRef
outbound_call object session_id = record {
  object = object;
  initial_call_id = negsuc 0;
  session_id = session_id;
}

-- The try block, and its handlers.
unfoldable pub place : ℕ → ℕ → Text → Placing → SessionManager → Placed
place now object session_id placed m =
    let (added, done) = try_add_call now session_id (some (outbound_call object session_id)) m in
    if not added
    then record {
      result = not_dialled (codes "Maximum concurrent call limit reached after call allocation");
      sessions = done.state;
      hung_up = true;
    }
    else record { result = dialled session_id; sessions = done.state; hung_up = false }
place now object session_id no_call_id m =
    turned_down (codes "PJSIP returned invalid call id for outbound call") m
place now object session_id (raised message) m =
    turned_down message (remove_call now session_id m).state

-- `makeOutboundCall`: `before` is the table when it starts, and `m` when `makeCall` is back, since
-- other threads enter and remove calls in between.
unfoldable pub make_outbound_call :
    ℕ → ℕ → Text → Placing → SessionManager → SessionManager → Placed
make_outbound_call now object session_id placing before m =
    if not (can_accept_call before)
    then turned_down (codes "Maximum concurrent call limit reached") m
    else place now object session_id placing m

-- The end of the task of `asyncAnswerCall`: `answered` says whether `answer` came back.
unfoldable pub answer_late : ℕ → Bool → Text → SessionManager → SessionManager
answer_late now answered session_id m = if answered then m else (remove_call now session_id m).state

unfoldable pub is_placed : Placing → Bool
is_placed placed = true
is_placed _ = false

abbrev pub IsDialled : ℕ → Text → Placed → Type 0
IsDialled object session_id r =
    (r.result ≡ dialled session_id)
    × (get_call session_id r.sessions ≡ some (outbound_call object session_id))
    × (r.hung_up ≡ false)

abbrev pub IsGivenUp : Bool → SessionManager → Placed → Type 0
IsGivenUp made m r =
    ((message : Text) × (r.result ≡ not_dialled message))
    × (r.sessions.calls ≡ m.calls)
    × (r.hung_up ≡ made)

place-cases :
    (now object : ℕ) (session_id : Text) (placing : Placing) (m : SessionManager)
    → find session_id m.calls ≡ none
    → let r = place now object session_id placing m in
      IsDialled object session_id r ⊎ IsGivenUp (is_placed placing) m r
unfolding place is_placed
place-cases now object session_id placed m h =
    let call = some (outbound_call object session_id) in
    let facts = try_add_call_lem now session_id session_id call m in
    elim (Bool-cases (try_add_call now session_id call m).0) [
      | inl added ↦ rw added (inl (refl, facts.1 added, refl))
      | inr full ↦ rw full (inr ((_, refl), ap (λ d. d.calls) (facts.3 full), refl))
    ]
place-cases now object session_id no_call_id m h = inr ((_, refl), refl, refl)
place-cases now object session_id (raised message) m h =
    inr ((_, refl), remove_call-fresh now session_id m h, refl)

-- Where its session id is not in the table, makeOutboundCall either gives that session id, with the
-- new call in the table under it, or it gives an error, with the entries of the table as they were;
-- in the latter case the call is hung up exactly when it was let in at first and PJSIP gave it an
-- id.
pub make_outbound_call-cases :
    (now object : ℕ) (session_id : Text) (placing : Placing) (before m : SessionManager)
    → find session_id m.calls ≡ none
    → let r = make_outbound_call now object session_id placing before m in
      IsDialled object session_id r ⊎ IsGivenUp (can_accept_call before && is_placed placing) m r
unfolding make_outbound_call
make_outbound_call-cases now object session_id placing before m h =
    elim (Bool-cases (can_accept_call before)) [
      | inl free ↦ rw free (place-cases now object session_id placing m h)
      | inr full ↦ rw full (inr ((_, refl), refl, refl))
    ]
