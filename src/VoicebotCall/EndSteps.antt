-- ===== src/VoicebotCall/EndSteps.antt =====
-- What each step of the end of a call in src/engine/VoicebotCall.cpp leaves.
use vbgw_pjsip_v.Common.{
  ◌≡◌, ◌≢◌, refl, ◌∙◌, Text, is_empty, Option, none, some, [], ◌∷◌, Bool, true, false, not, ◌&&◌,
  ◌==◌, if◌then◌else◌, either, chosen, ==_iff,
}
use vbgw_pjsip_v.CapacityManager.{release_slot}
use vbgw_pjsip_v.VoicebotAiClient.{Client}
use vbgw_pjsip_v.VoicebotCall.{Platform, World, lease_timer_cancelled, emit, set_call}
use vbgw_pjsip_v.VoicebotCall.Cdr.{CdrEnv, dump_cdr}
use vbgw_pjsip_v.VoicebotCall.Recording.{stop_recorder, stop_recording}
use vbgw_pjsip_v.VoicebotCall.Life.{
  RedisEnv, end_client, end_ai_session, give_back_slot, stop_lease_heartbeat,
}

module _ (p : Platform) where
  -- What the steps of the end leave of each other's work.
  pub record Same (w w' : World p) : Type 0 where
    pub service : w'.call.service_name ≡ w.call.service_name
    pub slot : w'.call.slot_id ≡ w.call.slot_id
    pub session : w'.call.session_id ≡ w.call.session_id
    pub store : w'.store ≡ w.store
    pub sessions : w'.sessions ≡ w.sessions

  Same-trans : {u v w : World p} → Same u v → Same v w → Same u w
  Same-trans k l = record {
    service = l.service ∙ k.service;
    slot = l.slot ∙ k.slot;
    session = l.session ∙ k.session;
    store = l.store ∙ k.store;
    sessions = l.sessions ∙ k.sessions;
  }

  Same-self : (w : World p) → Same w w
  Same-self w = record {
    service = refl;
    slot = refl;
    session = refl;
    store = refl;
    sessions = refl;
  }

  pub stop_recording-Same :
      (error : Option Text) (w : World p)
      → let after = (stop_recording p error w.call).1 in
        Same w (set_call p after w) × (after.recorder ≡ none)
  unfolding stop_recording stop_recorder
  stop_recording-Same error w = go w.call.recorder refl
    where
      go :
          (o : Option Text)
          → w.call.recorder ≡ o
          → let after = (stop_recorder p o error w.call).1 in
            Same w (set_call p after w) × (after.recorder ≡ none)
      go none h =
          (record { service = refl; slot = refl; session = refl; store = refl; sessions = refl }, h)
      go (some file) h = (
        record { service = refl; slot = refl; session = refl; store = refl; sessions = refl },
        refl,
      )

  pub end_ai_session-Same :
      (w : World p)
      → let w' = end_ai_session p w in
        Same w w' × (w'.call.ai_client ≡ none) × (w'.call.recorder ≡ w.call.recorder)
  unfolding end_ai_session end_client
  end_ai_session-Same w = go w.call.ai_client refl
    where
      go :
          (o : Option Client)
          → w.call.ai_client ≡ o
          → let w' = end_client p o w in
            Same w w' × (w'.call.ai_client ≡ none) × (w'.call.recorder ≡ w.call.recorder)
      go none h = (Same-self w, h, refl)
      go (some client) h = (
        record { service = refl; slot = refl; session = refl; store = refl; sessions = refl },
        refl,
        refl,
      )

  pub stop_lease_heartbeat-Same :
      (w : World p)
      → let w' = stop_lease_heartbeat p w in
        Same w w'
        × (w'.call.ai_client ≡ w.call.ai_client)
        × (w'.call.recorder ≡ w.call.recorder)
        × (w'.call.lease_timer_id ≡ 0)
  unfolding stop_lease_heartbeat
  stop_lease_heartbeat-Same w = go (w.call.lease_timer_id == 0) refl
    where
      go :
          (b : Bool)
          → (w.call.lease_timer_id == 0) ≡ b
          → let w' =
              if not b
              then emit p lease_timer_cancelled
                  (set_call p (record w.call { lease_timer_id = 0 }) w)
              else w in
            Same w w'
            × (w'.call.ai_client ≡ w.call.ai_client)
            × (w'.call.recorder ≡ w.call.recorder)
            × (w'.call.lease_timer_id ≡ 0)
      go true h = (Same-self w, refl, refl, (==_iff w.call.lease_timer_id 0).0 h)
      go false h = (
        record { service = refl; slot = refl; session = refl; store = refl; sessions = refl },
        refl,
        refl,
        refl,
      )

  is_empty-ne : (s : Text) → s ≢ [] → is_empty s ≡ false
  is_empty-ne [] ne = absurd (ne refl)
  is_empty-ne (c ∷ cs) ne = refl

  -- What a named slot of a named service leaves.
  abbrev pub IsGivenBack : RedisEnv → World p → World p → Type 0
  IsGivenBack env w w' =
      (w'.call.ai_client ≡ w.call.ai_client)
      × (w'.call.recorder ≡ w.call.recorder)
      × (w'.call.lease_timer_id ≡ w.call.lease_timer_id)
      × (w'.call.slot_id ≡ [])
      × (w'.call.session_id ≡ w.call.session_id)
      × (w'.sessions ≡ w.sessions)
      × (w'.store
          ≡ release_slot p.redis env.connected env.ran w.call.service_name w.call.slot_id w.store)

  pub give_back_slot_lem :
      (env : RedisEnv) (w : World p)
      → w.call.service_name ≢ []
      → w.call.slot_id ≢ []
      → IsGivenBack env w (give_back_slot p env w)
  unfolding give_back_slot
  give_back_slot_lem env w s t =
      chosen (IsGivenBack env w)
        (not (is_empty w.call.service_name) && not (is_empty w.call.slot_id)) _
        (rw (is_empty-ne w.call.service_name s, is_empty-ne w.call.slot_id t) refl)
        (refl, refl, refl, refl, refl, refl, refl)

  pub dump_cdr-Same :
      (cdr : CdrEnv) (reason : Text) (w : World p)
      → let w' = dump_cdr p cdr reason w in
        (w'.call ≡ w.call) × (w'.store ≡ w.store) × (w'.sessions ≡ w.sessions)
  unfolding dump_cdr
  dump_cdr-Same cdr reason w =
      either
        (λ (w' : World p). (w'.call ≡ w.call) × (w'.store ≡ w.store) × (w'.sessions ≡ w.sessions))
        (cdr.cdr_webhook_enable && not (is_empty cdr.cdr_webhook_url)) (refl, refl, refl)
        (refl, refl, refl)
