-- ===== src/VoicebotCall/Ended.antt =====
-- What the end of a call in src/engine/VoicebotCall.cpp gives back.
use vbgw_pjsip_v.Common.{
  ℕ, ◌≡◌, ◌≢◌, refl, sym, ap, ap₂, ◌∙◌, Text, Option, none, some, [], Bool, true, false,
}
use vbgw_pjsip_v.Redis.{Laws}
use vbgw_pjsip_v.CapacityManager.{ran_both, slots_key, lease_key}
use vbgw_pjsip_v.CapacityManager.Lease.{release_slot_lem}
use vbgw_pjsip_v.SessionManager.{CallRef, get_call, remove_call}
use vbgw_pjsip_v.SessionManager.Tables.{find, IsUnique}
use vbgw_pjsip_v.SessionManager.Retention.{remove_call_lem}
use vbgw_pjsip_v.VoicebotCall.{Platform, World, set_call}
use vbgw_pjsip_v.VoicebotCall.Cdr.{CdrEnv}
use vbgw_pjsip_v.VoicebotCall.Recording.{stop_recording}
use vbgw_pjsip_v.VoicebotCall.Life.{
  RedisEnv, end_ai_session, quiet_media, give_back_slot, stop_lease_heartbeat, finalize_steps,
  finalize_lifecycle, on_call_state,
}
use vbgw_pjsip_v.VoicebotCall.EndSteps.{
  stop_recording-Same, end_ai_session-Same, stop_lease_heartbeat-Same, give_back_slot_lem,
  dump_cdr-Same,
}

module _ (p : Platform) where
  finalize_steps_lem :
      (laws : Laws p.redis) (get_fails : Bool) (cdr : CdrEnv) (error : Option Text) (reason : Text)
      (w : World p)
      → w.call.service_name ≢ []
      → w.call.slot_id ≢ []
      → let w' =
          finalize_steps p
            (record { connected = true; get_fails = get_fails; ran = ran_both })
            cdr
            error
            reason
            w in
        (w'.call.ai_client ≡ none)
        × (w'.call.recorder ≡ none)
        × (w'.call.lease_timer_id ≡ 0)
        × (w'.call.slot_id ≡ [])
        × (w'.call.session_id ≡ w.call.session_id)
        × (w'.sessions ≡ w.sessions)
        × (p.redis.zscore (slots_key w.call.service_name) w.call.slot_id w'.store ≡ none)
        × (p.redis.get (lease_key w.call.slot_id) w'.store ≡ none)
  unfolding quiet_media
  finalize_steps_lem laws get_fails cdr error reason w s t =
      let env : RedisEnv = record { connected = true; get_fails = get_fails; ran = ran_both } in
      let marked = set_call p (record w.call { lifecycle_finalized = true }) w in
      let unrecorded = set_call p (stop_recording p error marked.call).1 marked in
      let ended = end_ai_session p unrecorded in
      let quiet = set_call p (quiet_media p ended.call) ended in
      let stopped = stop_lease_heartbeat p quiet in
      let given = give_back_slot p env stopped in
      let (same1, rec1) = stop_recording-Same p error marked in
      let (same2, ai2, rec2) = end_ai_session-Same p unrecorded in
      let (same3, ai3, rec3, timer3) = stop_lease_heartbeat-Same p quiet in
      let service = same3.service ∙ (same2.service ∙ same1.service) in
      let slot = same3.slot ∙ (same2.slot ∙ same1.slot) in
      let (ai4, rec4, timer4, slot4, session4, sessions4, store4) =
        give_back_slot_lem p env stopped (λ e. s (sym service ∙ e)) (λ e. t (sym slot ∙ e)) in
      let (call5, store5, sessions5) = dump_cdr-Same p cdr reason given in
      let (no_slot, no_lease) =
        release_slot_lem p.redis laws w.call.service_name w.call.slot_id stopped.store s t in
      let released = store5 ∙ (store4 ∙ rw (service, slot) refl) in
      (
        ap (λ c. c.ai_client) call5 ∙ (ai4 ∙ (ai3 ∙ ai2)),
        ap (λ c. c.recorder) call5 ∙ (rec4 ∙ (rec3 ∙ (rec2 ∙ rec1))),
        ap (λ c. c.lease_timer_id) call5 ∙ (timer4 ∙ timer3),
        ap (λ c. c.slot_id) call5 ∙ slot4,
        ap (λ c. c.session_id) call5
            ∙ (session4 ∙ (same3.session ∙ (same2.session ∙ same1.session))),
        sessions5 ∙ (sessions4 ∙ (same3.sessions ∙ (same2.sessions ∙ same1.sessions))),
        ap (p.redis.zscore (slots_key w.call.service_name) w.call.slot_id) released ∙ no_slot,
        ap (p.redis.get (lease_key w.call.slot_id)) released ∙ no_lease,
      )

  -- What is left of a call and its slot: no AI session, no recorder, no timer, no slot, no lease, and
  -- no entry in the table of calls.
  abbrev pub IsReleased : Text → Text → World p → Type 0
  IsReleased service_name slot_id w =
      (w.call.ai_client ≡ none)
      × (w.call.recorder ≡ none)
      × (w.call.lease_timer_id ≡ 0)
      × (w.call.slot_id ≡ [])
      × (p.redis.zscore (slots_key service_name) slot_id w.store ≡ none)
      × (p.redis.get (lease_key slot_id) w.store ≡ none)
      × (get_call w.call.session_id w.sessions ≡ none)

  -- When a call that is in the table and has not ended is disconnected, its slot and its service
  -- have names and the release runs through, then it has no AI session, recorder, lease timer or
  -- slot, Redis has neither its slot nor its lease, and it is not in the table.
  pub on_call_state-Released :
      (laws : Laws p.redis) (get_fails : Bool) (cdr : CdrEnv) (error : Option Text) (now : ℕ)
      (reason : Text) (w : World p) (call : CallRef)
      → IsUnique w.sessions.calls
      → find w.call.session_id w.sessions.calls ≡ some (some call)
      → w.call.lifecycle_finalized ≡ false
      → w.call.service_name ≢ []
      → w.call.slot_id ≢ []
      → IsReleased w.call.service_name w.call.slot_id (
          on_call_state p
            (record { connected = true; get_fails = get_fails; ran = ran_both })
            cdr
            error
            now
            true
            reason
            w)
  unfolding on_call_state finalize_lifecycle get_call
  on_call_state-Released laws get_fails cdr error now reason w call u h f s t =
      let env : RedisEnv = record { connected = true; get_fails = get_fails; ran = ran_both } in
      let done = finalize_steps p env cdr error reason w in
      let (ai, rec, timer, slot, session, sessions, score, lease) =
        finalize_steps_lem laws get_fails cdr error reason w s t in
      let (buried, young, old, gone, others) =
        remove_call_lem now w.call.session_id w.call.session_id (some call) w.sessions u h in
      let removed = ap (λ m. (remove_call now w.call.session_id m).state) sessions in
      rw (h, f) (ai, rec, timer, slot, score, lease, ap₂ get_call session removed ∙ gone)
