-- ===== src/VoicebotAccount/Tests.antt =====
-- Runs of the admission of a call.
use vbgw_pjsip_v.Common.{◌≡◌, ◌⊎◌, refl, codes, [], none, true, false, ◌&&◌, arith}
use vbgw_pjsip_v.Common.Int.{pos}
use vbgw_pjsip_v.Redis.Memory.{memory, memory-Laws, empty}
use vbgw_pjsip_v.RoutingEngine.{RoutingEngine}
use vbgw_pjsip_v.CapacityManager.{answered, ran_both, slots_key, lease_key}
use vbgw_pjsip_v.SessionManager.{
  create, can_accept_call, cleanup_zombies_locked, try_add_call, take_call_by_pjsip_id,
}
use vbgw_pjsip_v.VoicebotAccount.{Incoming, busy_here, enter_leased, on_incoming_call}
use vbgw_pjsip_v.HttpServer.Response.{dialled}
use vbgw_pjsip_v.SessionManager.Tables.{find}
use vbgw_pjsip_v.VoicebotAccount.Outbound.{
  placed, place, make_outbound_call, is_placed, IsDialled, IsGivenUp, make_outbound_call-cases,
}
use vbgw_pjsip_v.VoicebotAccount.Admission.{
  IsEntered, IsTurnedAway, on_incoming_call-cases, enter_leased-released,
}

abbrev ringing : Incoming
ringing = record {
  call_id = pos 3;
  destination_number = codes "1001";
  source_gateway = codes "pbx";
  object = 1;
  session_id = codes "s";
  slot_id = codes "u";
  steady_now = 0;
  now_sec = 100;
  connected = true;
  reply = answered;
  released = ran_both;
}

abbrev no_services : RoutingEngine
no_services = record { version = pos 1; on_unknown_entry = []; services = [] }

on_incoming_call-cases_example :
    let a = (on_incoming_call memory no_services ringing (create 1 false) empty).1 in
    IsEntered ringing a ⊎ IsTurnedAway (take_call_by_pjsip_id 0 (pos 3) (create 1 false)).1.state a
on_incoming_call-cases_example =
    on_incoming_call-cases memory no_services ringing (create 1 false) empty

full : can_accept_call (create 0 false) ≡ false
unfolding can_accept_call create
full = refl

enter_leased-released_example :
    let a = enter_leased memory ringing (codes "sales") (codes "u") (create 0 false) empty in
    (a.decision ≡ busy_here)
    × (memory.zscore (slots_key (codes "sales")) (codes "u") a.store ≡ none)
    × (memory.get (lease_key (codes "u")) a.store ≡ none)
enter_leased-released_example =
    enter_leased-released memory memory-Laws ringing (codes "sales") (codes "u") (create 0 false)
      empty refl refl (λ e. ground (arith, e)) (λ e. ground (arith, e)) full

nothing_found : find (codes "s") (create 0 false).calls ≡ none
unfolding find create
nothing_found = refl

-- A call that is placed while the table fills up.
make_outbound_call-cases_example :
    let r = make_outbound_call 0 1 (codes "s") placed (create 1 false) (create 0 false) in
    IsDialled 1 (codes "s") r
    ⊎ IsGivenUp (can_accept_call (create 1 false) && is_placed placed) (create 0 false) r
make_outbound_call-cases_example =
    make_outbound_call-cases 0 1 (codes "s") placed (create 1 false) (create 0 false) nothing_found

-- A call that is placed in a free table.
dialled_free :
    (make_outbound_call 0 1 (codes "s") placed (create 1 false) (create 1 false)).result
    ≡ dialled (codes "s")
unfolding make_outbound_call place create can_accept_call try_add_call cleanup_zombies_locked
dialled_free = refl
