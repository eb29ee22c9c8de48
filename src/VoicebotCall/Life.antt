-- ===== src/VoicebotCall/Life.antt =====
-- The end of a call in src/engine/VoicebotCall.cpp, and the heartbeat that keeps its slot.
use vbgw_pjsip_v.Common.{
  ℕ, Text, is_empty, Option, none, some, Bool, true, false, not, ◌&&◌, ◌==◌, is_some, if◌then◌else◌,
  [],
}
use vbgw_pjsip_v.CapacityManager.{Pipeline, release_slot, refresh_lease}
use vbgw_pjsip_v.SessionManager.{get_call, remove_call}
use vbgw_pjsip_v.VoicebotAiClient.{Client, end_session}
use vbgw_pjsip_v.VoicebotMediaPort.{MediaPort, quiesce}
use vbgw_pjsip_v.VoicebotCall.{
  Platform, VoicebotCall, World, lease_timer_set, lease_timer_cancelled, emit, set_call,
}
use vbgw_pjsip_v.VoicebotCall.Cdr.{CdrEnv, dump_cdr}
use vbgw_pjsip_v.VoicebotCall.Recording.{stop_recording}

-- The connection to Redis, and how a pipeline ends.
pub record RedisEnv : Type 0 where
  pub connected : Bool
  pub get_fails : Bool
  pub ran : Pipeline

module _ (p : Platform) where
  -- `startLeaseHeartbeat`: `pj_bzero`, the id 1234, and the schedule.
  unfoldable pub start_lease_heartbeat : World p → World p
  start_lease_heartbeat w =
      if is_empty w.call.slot_id
      then w
      else emit p lease_timer_set (set_call p (record w.call { lease_timer_id = 1234 }) w)

  unfoldable pub stop_lease_heartbeat : World p → World p
  stop_lease_heartbeat w =
      if not (w.call.lease_timer_id == 0)
      then emit p lease_timer_cancelled (set_call p (record w.call { lease_timer_id = 0 }) w)
      else w

  unfoldable pub on_lease_heartbeat : RedisEnv → ℕ → World p → World p
  on_lease_heartbeat env now w =
      if not (is_some (get_call w.call.session_id w.sessions))
      then w
      else if not (is_empty w.call.slot_id)
      then emit p lease_timer_set (record w {
        store =
            refresh_lease p.redis env.connected env.get_fails env.ran now w.call.slot_id w.store;
      })
      else w

  unfoldable pub end_client : Option Client → World p → World p
  end_client none w = w
  end_client (some client) w =
      let (ended, metrics) = end_session (client, w.metrics) in
      record w { call = record w.call { ai_client = none }; metrics = metrics }

  unfoldable pub end_ai_session : World p → World p
  unfolding end_client
  end_ai_session w = end_client w.call.ai_client w

  unfoldable pub quiet_port :
      Option (MediaPort p.network p.dsp) → Option (MediaPort p.network p.dsp)
  quiet_port none = none
  quiet_port (some port) = some (quiesce p.network p.dsp port)

  -- The block of `finalizeLifecycle` under `media_mutex_`.
  unfoldable pub quiet_media : VoicebotCall p → VoicebotCall p
  unfolding quiet_port
  quiet_media c = record c { announcement_player = none; media_port = quiet_port c.media_port }

  unfoldable pub give_back_slot : RedisEnv → World p → World p
  give_back_slot env w =
      if not (is_empty w.call.service_name) && not (is_empty w.call.slot_id)
      then record w {
        store =
            release_slot p.redis env.connected env.ran w.call.service_name w.call.slot_id w.store;
        call = record w.call { slot_id = [] };
      }
      else w

  -- `lifecycle_finalized_.exchange(true)`, `stopRecording`, and so on.
  abbrev pub finalize_steps : RedisEnv → CdrEnv → Option Text → Text → World p → World p
  finalize_steps env cdr stop_error reason w =
      let marked = set_call p (record w.call { lifecycle_finalized = true }) w in
      let unrecorded = set_call p (stop_recording p stop_error marked.call).1 marked in
      let ended = end_ai_session unrecorded in
      let quiet = set_call p (quiet_media ended.call) ended in
      dump_cdr p cdr reason (give_back_slot env (stop_lease_heartbeat quiet))

  unfoldable pub finalize_lifecycle :
      RedisEnv → CdrEnv → Option Text → Text → World p → Bool × World p
  finalize_lifecycle env cdr stop_error reason w =
      if w.call.lifecycle_finalized
      then (false, w)
      else (true, finalize_steps env cdr stop_error reason w)

  -- Its result is only logged.
  unfoldable pub reap_without_disconnect :
      RedisEnv → CdrEnv → Option Text → Text → World p → World p
  reap_without_disconnect env cdr stop_error reason w =
      (finalize_lifecycle env cdr stop_error reason w).1

  -- `onCallState`; `now` is the clock of the session manager.
  unfoldable pub on_call_state :
      RedisEnv → CdrEnv → Option Text → ℕ → Bool → Text → World p → World p
  on_call_state env cdr stop_error now disconnected last_reason w =
      let done = (finalize_lifecycle env cdr stop_error last_reason w).1 in
      if not (is_some (get_call w.call.session_id w.sessions))
      then w
      else if disconnected
      then record done { sessions = (remove_call now w.call.session_id done.sessions).state }
      else w
