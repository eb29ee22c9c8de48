-- ===== src/VoicebotAccount/Admission.antt =====
-- What becomes of an incoming call.
use vbgw_pjsip_v.Common.{
  ◌≡◌, ◌≢◌, ◌⊎◌, inl, inr, refl, ◌∙◌, Text, codes, text_eq, is_empty, none, some, [], Bool, true,
  false, not, ◌&&◌, if◌then◌else◌, Bool-cases,
}
use vbgw_pjsip_v.Redis.{Redis, Laws}
use vbgw_pjsip_v.RoutingEngine.{RoutingEngine, ResolvedRoute, ServiceOverflow, resolve_route}
use vbgw_pjsip_v.CapacityManager.{ran_both, slots_key, lease_key, lease_slot}
use vbgw_pjsip_v.CapacityManager.Lease.{release_slot_lem}
use vbgw_pjsip_v.SessionManager.{
  SessionManager, try_add_call, can_accept_call, take_call_by_pjsip_id, get_call,
}
use vbgw_pjsip_v.SessionManager.Admission.{try_add_call_lem}
use vbgw_pjsip_v.VoicebotAccount.{
  Incoming, accepted, redirected, busy_here, new_call, overflow_decision, Admitted, enter_leased,
  enter_unrouted, enter_routed, on_incoming_call,
}

-- An accepted call is in the table under its session id.
abbrev pub IsEntered : {S : Type 0} → Incoming → Admitted S → Type 0
IsEntered i a =
    (a.decision ≡ accepted (new_call i)) × (get_call i.session_id a.sessions ≡ some (new_call i))

-- Any other call is not.
abbrev pub IsTurnedAway : {S : Type 0} → SessionManager → Admitted S → Type 0
IsTurnedAway m a =
    ((a.decision ≡ busy_here) ⊎ ((target : Text) × (a.decision ≡ redirected target)))
    × (a.sessions ≡ m)

overflow-cases :
    (o : ServiceOverflow)
    → (overflow_decision o ≡ busy_here)
      ⊎ ((target : Text) × (overflow_decision o ≡ redirected target))
unfolding overflow_decision
overflow-cases o =
    elim (Bool-cases (text_eq o.policy (codes "direct_transfer") && not (is_empty o.target))) [
      | inl go ↦ inr (o.target, rw go refl)
      | inr stay ↦ inl (rw stay refl)
    ]

module _ (r : Redis) where
  open r use {Store}

  leased-cases :
      (i : Incoming) (service slot : Text) (m : SessionManager) (s : Store)
      → let a = enter_leased r i service slot m s in IsEntered i a ⊎ IsTurnedAway m a
  unfolding enter_leased
  leased-cases i service slot m s =
      let facts = try_add_call_lem i.steady_now i.session_id i.session_id (some (new_call i)) m in
      elim (Bool-cases (try_add_call i.steady_now i.session_id (some (new_call i)) m).0) [
        | inl added ↦ rw added (inl (refl, facts.1 added))
        | inr full ↦ rw full (inr (inl refl, facts.3 full))
      ]

  unrouted-cases :
      (i : Incoming) (m : SessionManager) (s : Store)
      → let a = enter_unrouted r i m s in IsEntered i a ⊎ IsTurnedAway m a
  unfolding enter_unrouted
  unrouted-cases i m s =
      let facts = try_add_call_lem i.steady_now i.session_id i.session_id (some (new_call i)) m in
      elim (Bool-cases (try_add_call i.steady_now i.session_id (some (new_call i)) m).0) [
        | inl added ↦ rw added (inl (refl, facts.1 added))
        | inr full ↦ rw full (inr (inl refl, facts.3 full))
      ]

  routed-cases :
      (i : Incoming) (route : ResolvedRoute) (m : SessionManager) (s : Store)
      → let a = enter_routed r i route m s in IsEntered i a ⊎ IsTurnedAway m a
  unfolding enter_routed
  routed-cases i route m s =
      let (lease, s') =
        lease_slot r i.connected i.reply i.now_sec i.slot_id route.service_name
          route.capacity.max_concurrent s in
      elim (Bool-cases lease.success) [
        | inl won ↦ rw won (leased-cases i route.service_name lease.slot_id m s')
        | inr lost ↦ rw lost (inr (overflow-cases route.capacity.overflow, refl))
      ]

  either :
      (m : SessionManager) (i : Incoming) (b : Bool) (a a' : Admitted Store)
      → IsEntered i a ⊎ IsTurnedAway m a
      → IsEntered i a' ⊎ IsTurnedAway m a'
      → IsEntered i (if b then a else a') ⊎ IsTurnedAway m (if b then a else a')
  either m i true a a' h h' = h
  either m i false a a' h h' = h'

  -- An incoming call is either accepted, and then in the table under its session id, or it is
  -- answered busy or redirected, and then the table is as the reaping of a stale call with its id
  -- has left it.
  pub on_incoming_call-cases :
      (engine : RoutingEngine) (i : Incoming) (m : SessionManager) (s : Store)
      → let a = (on_incoming_call r engine i m s).1 in
        IsEntered i a ⊎ IsTurnedAway (take_call_by_pjsip_id i.steady_now i.call_id m).1.state a
  unfolding on_incoming_call
  on_incoming_call-cases engine i m s =
      let left = (take_call_by_pjsip_id i.steady_now i.call_id m).1.state in
      let route =
        resolve_route i.destination_number (codes "default-policy") i.source_gateway engine in
      either left i route.matched (enter_routed r i route left s) (enter_unrouted r i left s)
        (routed-cases i route left s) (unrouted-cases i left s)

  -- A routed call that the full table of calls turns away, in a service and a slot with names, is
  -- answered busy and leaves neither its slot nor its lease in Redis, if the release runs through.
  pub enter_leased-released :
      (laws : Laws r) (i : Incoming) (service slot : Text) (m : SessionManager) (s : Store)
      → i.connected ≡ true
      → i.released ≡ ran_both
      → service ≢ []
      → slot ≢ []
      → can_accept_call m ≡ false
      → let a = enter_leased r i service slot m s in
        (a.decision ≡ busy_here)
        × (r.zscore (slots_key service) slot a.store ≡ none)
        × (r.get (lease_key slot) a.store ≡ none)
  unfolding enter_leased
  enter_leased-released laws i service slot m s c p ne ne' full =
      let facts = try_add_call_lem i.steady_now i.session_id i.session_id (some (new_call i)) m in
      let (no_slot, no_lease) = release_slot_lem r laws service slot s ne ne' in
      rw (facts.0 ∙ full, c, p) (refl, no_slot, no_lease)
