-- ===== src/VoicebotCall/Once.antt =====
-- The histories of a call of src/engine/VoicebotCall.cpp: it is ended at most once.
use vbgw_pjsip_v.Common.{
  ℕ, suc, ◌≡◌, ◌⊎◌, refl, sym, ap, ◌∙◌, inl, inr, Text, is_empty, Option, List, [], ◌∷◌, Bool, true,
  false, not, ◌&&◌, if◌then◌else◌, either, is_some,
}
use vbgw_pjsip_v.SessionManager.{get_call, remove_call}
use vbgw_pjsip_v.VoicebotCall.{Platform, World, hung_up, cdr_logged, set_call}
use vbgw_pjsip_v.VoicebotCall.Cdr.{CdrEnv, cdr_json, dump_cdr}
use vbgw_pjsip_v.VoicebotCall.Recording.{stop_recording}
use vbgw_pjsip_v.VoicebotCall.Control.{on_cushion_timeout, sc_service_unavailable}
use vbgw_pjsip_v.VoicebotCall.Bridge.{set_paused}
use vbgw_pjsip_v.VoicebotCall.Life.{
  RedisEnv, end_ai_session, quiet_media, give_back_slot, stop_lease_heartbeat, finalize_steps,
  finalize_lifecycle, reap_without_disconnect, on_call_state,
}
use vbgw_pjsip_v.VoicebotCall.Media.{on_tts_clear, on_ai_error, on_speech_start}
use vbgw_pjsip_v.VoicebotCall.Keeps.{
  cdrs, cdrs-append, IsRecorded, Keeps, Keeps-self, Keeps-trans, emit-Keeps, call-Keeps,
  start_recording-Keeps, stop_recording-IsRecorded, stop_recording-same,
}
use vbgw_pjsip_v.VoicebotCall.Connected.{on_call_media_state-Keeps}
use vbgw_pjsip_v.VoicebotCall.Steady.{
  send_dtmf_to_peer-Keeps, send_dtmf_to_ai-Keeps, transfer_to-Keeps, play_announcement-Keeps,
  on_dtmf_digit-Keeps, stop_lease_heartbeat-Keeps, on_lease_heartbeat-Keeps, end_ai_session-Keeps,
  on_tts-Keeps, on_speech_end-Keeps,
}
use vbgw_pjsip_v.VoicebotCall.History.{
  CallEvent, media_state, call_state, reaped, session_ended, dtmf_digit, tts, tts_cleared, ai_error,
  speech_started, speech_ended, heartbeat, cushion_over, peer_dtmf, ai_dtmf, transfer, announcement,
  recording_started, recording_stopped, bridged, apply, run,
}

module _ (p : Platform) where
  -- What ends a call: it is marked, one CDR line is logged, and no recording goes on.
  abbrev Ends : World p → World p → Type 0
  Ends w w' =
      (w'.call.lifecycle_finalized ≡ true)
      × (cdrs w'.effects ≡ suc (cdrs w.effects))
      × IsRecorded p w'.call

  give_back_slot-same :
      (env : RedisEnv) (w : World p)
      → let w' = give_back_slot p env w in
        (w'.call.lifecycle_finalized ≡ w.call.lifecycle_finalized)
        × (cdrs w'.effects ≡ cdrs w.effects)
        × (IsRecorded p w.call → IsRecorded p w'.call)
  unfolding give_back_slot
  give_back_slot-same env w =
      either
        (λ (w' : World p).
          (w'.call.lifecycle_finalized ≡ w.call.lifecycle_finalized)
          × (cdrs w'.effects ≡ cdrs w.effects)
          × (IsRecorded p w.call → IsRecorded p w'.call))
        (not (is_empty w.call.service_name) && not (is_empty w.call.slot_id)) (refl, refl, λ h. h)
        (refl, refl, λ h. h)

  dump_cdr-same :
      (cdr : CdrEnv) (reason : Text) (w : World p)
      → ((dump_cdr p cdr reason w).call ≡ w.call)
        × (cdrs (dump_cdr p cdr reason w).effects ≡ suc (cdrs w.effects))
  unfolding dump_cdr
  dump_cdr-same cdr reason w =
      let one = cdrs-append w.effects (cdr_logged (cdr_json p cdr reason w.call)) in
      either (λ (w' : World p). (w'.call ≡ w.call) × (cdrs w'.effects ≡ suc (cdrs w.effects)))
        (cdr.cdr_webhook_enable && not (is_empty cdr.cdr_webhook_url)) (refl, one) (refl, one)

  finalize_steps-Ends :
      (env : RedisEnv) (cdr : CdrEnv) (error : Option Text) (reason : Text) (w : World p)
      → Ends w (finalize_steps p env cdr error reason w)
  unfolding quiet_media
  finalize_steps-Ends env cdr error reason w =
      let marked = set_call p (record w.call { lifecycle_finalized = true }) w in
      let unrecorded = set_call p (stop_recording p error marked.call).1 marked in
      let ended = end_ai_session p unrecorded in
      let quiet = set_call p (quiet_media p ended.call) ended in
      let stopped = stop_lease_heartbeat p quiet in
      let given = give_back_slot p env stopped in
      let (now_final, slot) = stop_recording-same p error marked.call in
      let kept = Keeps-trans p (end_ai_session-Keeps p unrecorded) (
        Keeps-trans p (call-Keeps p (quiet_media p ended.call) ended refl refl (λ h. h))
          (stop_lease_heartbeat-Keeps p quiet)) in
      let (final, count, rec) = give_back_slot-same env stopped in
      let (same, one) = dump_cdr-same cdr reason given in
      (
        ap (λ c. c.lifecycle_finalized) same ∙ (final ∙ (kept.finalized ∙ now_final)),
        one ∙ ap suc (count ∙ kept.cdrs_same),
        rw same (rec (kept.recorded (stop_recording-IsRecorded p error marked.call))),
      )

  -- An operation keeps the end as it is, or it ends a call that had not ended.
  abbrev Step : World p → World p → Type 0
  Step w w' = Keeps p w w' ⊎ ((w.call.lifecycle_finalized ≡ false) × Ends w w')

  finalize_lifecycle-Step :
      (env : RedisEnv) (cdr : CdrEnv) (error : Option Text) (reason : Text) (w : World p)
      → Step w (finalize_lifecycle p env cdr error reason w).1
  unfolding finalize_lifecycle
  finalize_lifecycle-Step env cdr error reason w = go w.call.lifecycle_finalized refl
    where
      go :
          (b : Bool)
          → w.call.lifecycle_finalized ≡ b
          → Step w
              (if◌then◌else◌ {A = Bool × World p} b
                (false, w)
                (true, finalize_steps p env cdr error reason w)).1
      go true e = inl (Keeps-self p w)
      go false e = inr (e, finalize_steps-Ends env cdr error reason w)

  on_call_state-Step :
      (env : RedisEnv) (cdr : CdrEnv) (error : Option Text) (now : ℕ) (gone : Bool) (reason : Text)
      (w : World p)
      → Step w (on_call_state p env cdr error now gone reason w)
  unfolding on_call_state
  on_call_state-Step env cdr error now gone reason w =
      let same = inl (Keeps-self p w) in
      either (Step w) (not (is_some (get_call w.call.session_id w.sessions))) same
        (either (Step w) gone (go (finalize_lifecycle-Step env cdr error reason w)) same)
    where
      done : World p
      done = (finalize_lifecycle p env cdr error reason w).1

      go :
          Step w done
          → Step w
              (record done { sessions = (remove_call now w.call.session_id done.sessions).state })
      go (inl k) = inl (record {
        finalized = k.finalized;
        cdrs_same = k.cdrs_same;
        slot_same = k.slot_same;
        recorded = k.recorded;
      })
      go (inr e) = inr e

  apply-Step : (e : CallEvent p) (w : World p) → Step w (apply p e w)
  unfolding apply reap_without_disconnect on_tts_clear on_speech_start on_ai_error
      on_cushion_timeout set_paused
  apply-Step (media_state env media) w = inl (on_call_media_state-Keeps p env media w)
  apply-Step (call_state env cdr error now gone reason) w =
      on_call_state-Step env cdr error now gone reason w
  apply-Step (reaped env cdr error reason) w = finalize_lifecycle-Step env cdr error reason w
  apply-Step session_ended w = inl (end_ai_session-Keeps p w)
  apply-Step (dtmf_digit digit) w = inl (on_dtmf_digit-Keeps p digit w)
  apply-Step (tts bytes) w = inl (on_tts-Keeps p bytes w)
  apply-Step tts_cleared w = inl (call-Keeps p (on_tts_clear p w.call) w refl refl (λ h. h))
  apply-Step ai_error w = inl (emit-Keeps p (hung_up sc_service_unavailable) w refl)
  apply-Step speech_started w = inl (call-Keeps p (on_speech_start p w.call) w refl refl (λ h. h))
  apply-Step (speech_ended error) w = inl (on_speech_end-Keeps p error w)
  apply-Step (heartbeat env now) w = inl (on_lease_heartbeat-Keeps p env now w)
  apply-Step (cushion_over error) w = inl (play_announcement-Keeps p _ error w)
  apply-Step (peer_dtmf digits error) w = inl (send_dtmf_to_peer-Keeps p digits error w)
  apply-Step (ai_dtmf digits) w = inl (send_dtmf_to_ai-Keeps p digits w)
  apply-Step (transfer target error) w = inl (transfer_to-Keeps p target error w)
  apply-Step (announcement file error) w = inl (play_announcement-Keeps p file error w)
  apply-Step (recording_started path env) w = inl (start_recording-Keeps p path env w)
  apply-Step (recording_stopped error) w =
      let (final, slot) = stop_recording-same p error w.call in
      inl (
        call-Keeps p (stop_recording p error w.call).1 w final slot
          (λ h. stop_recording-IsRecorded p error w.call))
  apply-Step (bridged paused) w =
      inl (call-Keeps p (set_paused p paused w.call) w refl refl (λ h. h))

  -- One CDR line if the call has ended, none otherwise; and a recorder exactly while it is recorded.
  abbrev pub IsOnce : World p → Type 0
  IsOnce w = (cdrs w.effects ≡ (if w.call.lifecycle_finalized then 1 else 0)) × IsRecorded p w.call

  step-IsOnce : (w w' : World p) → Step w w' → IsOnce w → IsOnce w'
  step-IsOnce w w' (inl k) (one, rec) =
      (k.cdrs_same ∙ (one ∙ sym (ap (λ b. if b then 1 else 0) k.finalized)), k.recorded rec)
  step-IsOnce w w' (inr (open_before, (final, count, rec'))) (one, rec) = (
    count
        ∙ (ap suc (one ∙ ap (λ b. if b then 1 else 0) open_before)
            ∙ sym (ap (λ b. if b then 1 else 0) final)),
    rec',
  )

  -- Over any history of the calls and call-backs of a call that starts so, there is one CDR line if
  -- the call has ended and none otherwise, and there is a recorder, for the file it names, exactly
  -- while recording is on.
  pub run-IsOnce : (es : List (CallEvent p)) (w : World p) → IsOnce w → IsOnce (run p es w)
  unfolding run
  run-IsOnce [] w h = h
  run-IsOnce (e ∷ es) w h =
      run-IsOnce es (apply p e w) (step-IsOnce w (apply p e w) (apply-Step e w) h)
