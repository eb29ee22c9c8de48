-- ===== src/VoicebotAccount.antt =====
-- src/engine/VoicebotAccount.cpp: the admission of an incoming call. PJSIP is given by the event's
-- values; what is done to the call that arrives is the decision, for PJSIP to carry out.
pub mod Admission
pub mod Outbound
mod Tests
use vbgw_pjsip_v.Common.{
  ℕ, Text, codes, text_eq, is_empty, Option, none, some, Bool, true, false, not, ◌&&◌,
  if◌then◌else◌,
}
use vbgw_pjsip_v.Common.Int.{ℤ}
use vbgw_pjsip_v.Redis.{Redis}
use vbgw_pjsip_v.RoutingEngine.{RoutingEngine, ResolvedRoute, ServiceOverflow, resolve_route}
use vbgw_pjsip_v.CapacityManager.{SlotLease, Reply, Pipeline, lease_slot, release_slot}
use vbgw_pjsip_v.SessionManager.{
  CallRef, CallPtr, SessionManager, Done, try_add_call, take_call_by_pjsip_id,
}

-- The event, with the identity of the `VoicebotCall` that would be made for it, the clocks, and how the
-- commands to Redis end.
pub record Incoming : Type 0 where
  pub call_id : ℤ
  pub destination_number : Text
  pub source_gateway : Text
  pub object : ℕ
  pub session_id : Text
  pub slot_id : Text
  pub steady_now : ℕ
  pub now_sec : ℕ
  pub connected : Bool
  pub reply : Reply
  pub released : Pipeline

pub data Decision : Type 0 where
  accepted : CallRef → Decision
  redirected : Text → Decision
  busy_here : Decision

abbrev pub new_call : Incoming → CallRef
new_call i = record { object = i.object; initial_call_id = i.call_id; session_id = i.session_id }

-- The answer to a call that its service has no slot for.
unfoldable pub overflow_decision : ServiceOverflow → Decision
overflow_decision overflow =
    if text_eq overflow.policy (codes "direct_transfer") && not (is_empty overflow.target)
    then redirected overflow.target
    else busy_here

-- What is decided, and the calls and the shared slots that are left.
pub record Admitted (S : Type 0) : Type 0 where
  pub decision : Decision
  pub sessions : SessionManager
  pub store : S

module _ (r : Redis) where
  open r use {Store}

  unfoldable pub enter_leased : Incoming → Text → Text → SessionManager → Store → Admitted Store
  enter_leased i service_name slot_id m s =
      let (added, done) = try_add_call i.steady_now i.session_id (some (new_call i)) m in
      if not added
      then record {
        decision = busy_here;
        sessions = done.state;
        store = release_slot r i.connected i.released service_name slot_id s;
      }
      else record { decision = accepted (new_call i); sessions = done.state; store = s }

  unfoldable pub enter_unrouted : Incoming → SessionManager → Store → Admitted Store
  enter_unrouted i m s =
      let (added, done) = try_add_call i.steady_now i.session_id (some (new_call i)) m in
      record {
        decision = if not added then busy_here else accepted (new_call i);
        sessions = done.state;
        store = s;
      }

  unfoldable pub enter_routed : Incoming → ResolvedRoute → SessionManager → Store → Admitted Store
  enter_routed i route m s =
      let (lease, s') =
        lease_slot r i.connected i.reply i.now_sec i.slot_id route.service_name
          route.capacity.max_concurrent s in
      if not lease.success
      then record { decision = overflow_decision route.capacity.overflow; sessions = m; store = s' }
      else enter_leased i route.service_name lease.slot_id m s'

  -- `onIncomingCall`: the stale call that is reaped, if any, and what becomes of the new one.
  unfoldable pub on_incoming_call :
      RoutingEngine → Incoming → SessionManager → Store → Option (Text × CallPtr) × Admitted Store
  on_incoming_call engine i m s =
      let (stale, done) = take_call_by_pjsip_id i.steady_now i.call_id m in
      let route =
        resolve_route i.destination_number (codes "default-policy") i.source_gateway engine in
      (
        stale,
        (if route.matched
            then enter_routed i route done.state s
            else enter_unrouted i done.state s),
      )
