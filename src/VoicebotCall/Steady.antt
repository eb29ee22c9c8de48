-- ===== src/VoicebotCall/Steady.antt =====
-- The operations of src/engine/VoicebotCall.cpp that leave a call's end and its slot as they are.
use vbgw_pjsip_v.Common.{
  ℕ, refl, Text, is_empty, Option, none, some, List, [], ◌∷◌, Bool, not, ◌==◌, either, is_some,
}
use vbgw_pjsip_v.Common.Int.{pos, to_int32, ltb_ℤ}
use vbgw_pjsip_v.IvrManager.{
  Callback, dtmf_forward, transfer_requested, disconnect_requested, repeat_menu, enter_ai_chat,
  handle_dtmf,
}
use vbgw_pjsip_v.VoicebotAiClient.{Client}
use vbgw_pjsip_v.SessionManager.{get_call}
use vbgw_pjsip_v.VoicebotCall.{
  Platform, World, hung_up, transferred, dialled_dtmf, lease_timer_set, lease_timer_cancelled,
  cushion_timer_set, cushion_timer_cancelled, set_call,
}
use vbgw_pjsip_v.VoicebotCall.Control.{
  try_effect, send_dtmf_to_peer, send_to, send_dtmf_to_ai, is_valid_dtmf_digits,
  is_valid_transfer_target, transfer_to, create_player, play_announcement, run_callback,
  run_callbacks, on_dtmf_digit, sc_decline,
}
use vbgw_pjsip_v.VoicebotCall.Life.{
  RedisEnv, start_lease_heartbeat, stop_lease_heartbeat, on_lease_heartbeat, end_client,
  end_ai_session,
}
use vbgw_pjsip_v.VoicebotCall.Media.{
  bump, agent_uri, cancel_cushion, on_tts, set_cushion, on_speech_end,
}
use vbgw_pjsip_v.VoicebotCall.Keeps.{
  Keeps, Keeps-self, Keeps-trans, emit-Keeps, call-Keeps, cdrs-append,
}

module _ (p : Platform) where
  abbrev Result : Type 0
  Result = (Bool × Text) × World p

  -- What an operation with a result leaves.
  abbrev KeepsIn : World p → Result → Type 0
  KeepsIn w r = Keeps p w r.1

  try_effect-Keeps :
      (error : Option Text) (w after : World p)
      → Keeps p w after
      → KeepsIn w (try_effect p error w after)
  try_effect-Keeps none w after k = k
  try_effect-Keeps (some info) w after k = Keeps-self p w

  pub send_dtmf_to_peer-Keeps :
      (digits : Text) (error : Option Text) (w : World p)
      → KeepsIn w (send_dtmf_to_peer p digits error w)
  unfolding send_dtmf_to_peer
  send_dtmf_to_peer-Keeps digits error w =
      either (KeepsIn w) (not (is_valid_dtmf_digits digits)) (Keeps-self p w)
        (try_effect-Keeps error w _ (emit-Keeps p (dialled_dtmf digits) w refl))

  pub send_dtmf_to_ai-Keeps : (digits : Text) (w : World p) → KeepsIn w (send_dtmf_to_ai p digits w)
  unfolding send_dtmf_to_ai send_to
  send_dtmf_to_ai-Keeps digits w =
      either (KeepsIn w) (not (is_valid_dtmf_digits digits)) (Keeps-self p w) (go w.call.ai_client)
    where
      go : (client : Option Client) → KeepsIn w (send_to p digits client w)
      go none = Keeps-self p w
      go (some client) = record {
        finalized = refl;
        cdrs_same = refl;
        slot_same = refl;
        recorded = λ h. h;
      }

  pub transfer_to-Keeps :
      (target : Text) (error : Option Text) (w : World p) → KeepsIn w (transfer_to p target error w)
  unfolding transfer_to
  transfer_to-Keeps target error w =
      either (KeepsIn w) (not (is_valid_transfer_target target)) (Keeps-self p w)
        (try_effect-Keeps error w _ (emit-Keeps p (transferred target) w refl))

  pub play_announcement-Keeps :
      (file : Text) (error : Option Text) (w : World p)
      → KeepsIn w (play_announcement p file error w)
  unfolding play_announcement create_player
  play_announcement-Keeps file error w =
      either (KeepsIn w) (is_empty file) (Keeps-self p w) (go error)
    where
      go : (error : Option Text) → KeepsIn w (create_player p file error w)
      go none = call-Keeps p _ w refl refl (λ h. h)
      go (some info) = call-Keeps p _ w refl refl (λ h. h)

  run_callback-Keeps : (cb : Callback) (w : World p) → Keeps p w (run_callback p cb w)
  unfolding run_callback
  run_callback-Keeps (dtmf_forward digit) w = send_dtmf_to_ai-Keeps digit w
  run_callback-Keeps transfer_requested w = Keeps-self p w
  run_callback-Keeps disconnect_requested w = emit-Keeps p (hung_up sc_decline) w refl
  run_callback-Keeps repeat_menu w = Keeps-self p w
  run_callback-Keeps enter_ai_chat w = Keeps-self p w

  run_callbacks-Keeps : (cbs : List Callback) (w : World p) → Keeps p w (run_callbacks p cbs w)
  unfolding run_callbacks
  run_callbacks-Keeps [] w = Keeps-self p w
  run_callbacks-Keeps (cb ∷ cbs) w =
      Keeps-trans p (run_callback-Keeps cb w) (run_callbacks-Keeps cbs (run_callback p cb w))

  pub on_dtmf_digit-Keeps : (digit : Text) (w : World p) → Keeps p w (on_dtmf_digit p digit w)
  unfolding on_dtmf_digit
  on_dtmf_digit-Keeps digit w =
      let (ivr, callbacks) = handle_dtmf digit w.call.ivr_manager in
      Keeps-trans p (call-Keeps p (record w.call { ivr_manager = ivr }) w refl refl (λ h. h))
        (run_callbacks-Keeps callbacks (set_call p (record w.call { ivr_manager = ivr }) w))

  pub start_lease_heartbeat-Keeps : (w : World p) → Keeps p w (start_lease_heartbeat p w)
  unfolding start_lease_heartbeat
  start_lease_heartbeat-Keeps w = either (Keeps p w) (is_empty w.call.slot_id) (Keeps-self p w) (
      Keeps-trans p (call-Keeps p (record w.call { lease_timer_id = 1234 }) w refl refl (λ h. h))
        (emit-Keeps p lease_timer_set _ refl))

  pub stop_lease_heartbeat-Keeps : (w : World p) → Keeps p w (stop_lease_heartbeat p w)
  unfolding stop_lease_heartbeat
  stop_lease_heartbeat-Keeps w =
      either (Keeps p w) (not (w.call.lease_timer_id == 0))
        (Keeps-trans p (call-Keeps p (record w.call { lease_timer_id = 0 }) w refl refl (λ h. h))
          (emit-Keeps p lease_timer_cancelled _ refl))
        (Keeps-self p w)

  pub on_lease_heartbeat-Keeps :
      (env : RedisEnv) (now : ℕ) (w : World p) → Keeps p w (on_lease_heartbeat p env now w)
  unfolding on_lease_heartbeat
  on_lease_heartbeat-Keeps env now w =
      either (Keeps p w) (not (is_some (get_call w.call.session_id w.sessions))) (Keeps-self p w) (
        either (Keeps p w) (not (is_empty w.call.slot_id))
          (record {
            finalized = refl;
            cdrs_same = cdrs-append w.effects lease_timer_set;
            slot_same = refl;
            recorded = λ h. h;
          })
          (Keeps-self p w))

  pub end_ai_session-Keeps : (w : World p) → Keeps p w (end_ai_session p w)
  unfolding end_ai_session end_client
  end_ai_session-Keeps w = go w.call.ai_client
    where
      go : (client : Option Client) → Keeps p w (end_client p client w)
      go none = Keeps-self p w
      go (some client) = record {
        finalized = refl;
        cdrs_same = refl;
        slot_same = refl;
        recorded = λ h. h;
      }

  cancel_cushion-Keeps : (w : World p) → Keeps p w (cancel_cushion p w)
  unfolding cancel_cushion
  cancel_cushion-Keeps w =
      either (Keeps p w) (not (w.call.cushion_timer_id == 0))
        (Keeps-trans p (call-Keeps p (record w.call { cushion_timer_id = 0 }) w refl refl (λ h. h))
          (emit-Keeps p cushion_timer_cancelled _ refl))
        (Keeps-self p w)

  pub on_tts-Keeps : (bytes : List ℕ) (w : World p) → Keeps p w (on_tts p bytes w)
  unfolding on_tts
  on_tts-Keeps bytes w =
      Keeps-trans p (cancel_cushion-Keeps w)
        (call-Keeps p _ (cancel_cushion p w) refl refl (λ h. h))

  pub on_speech_end-Keeps :
      (error : Option Text) (w : World p) → Keeps p w (on_speech_end p error w)
  unfolding on_speech_end set_cushion
  on_speech_end-Keeps error w =
      let turns = bump w.call.turn_count in
      let counted = set_call p (record w.call { turn_count = turns }) w in
      Keeps-trans p (call-Keeps p counted.call w refl refl (λ h. h)) (
        either (Keeps p counted) (not (ltb_ℤ (to_int32 turns) (pos 20)))
          (transfer_to-Keeps agent_uri error counted)
          (Keeps-trans p
            (call-Keeps p (record counted.call { cushion_timer_id = 5678 }) counted refl refl
              (λ h. h))
            (emit-Keeps p cushion_timer_set _ refl)))
