-- ===== src/VoicebotCall/Turns.antt =====
-- Turns, digits and bridges of a call in src/engine/VoicebotCall.cpp.
use vbgw_pjsip_v.Common.{
  ◌+◌, ◌-◌, ◌<◌, ◌^◌, ◌≡◌, refl, none, [], ◌∷◌, ◌++◌, true, not, if◌then◌else◌, both, arith, leb,
}
use vbgw_pjsip_v.Common.Int.{pos, to_int32, ltb_ℤ}
use vbgw_pjsip_v.HttpServer.Parse.{strip_prefix}
use vbgw_pjsip_v.VoicebotCall.{Platform, World, Effect, transferred, cushion_timer_set}
use vbgw_pjsip_v.VoicebotCall.Control.{is_valid_transfer_target, transfer_to}
use vbgw_pjsip_v.VoicebotCall.Media.{bump, agent_uri, on_speech_end, set_cushion}

agent_valid : is_valid_transfer_target agent_uri ≡ true
unfolding is_valid_transfer_target strip_prefix
agent_valid = refl

module _ (p : Platform) where
  -- The end of speech adds one to the turns, which are below the largest int; from the twentieth
  -- turn on the caller is transferred to the agent, if PJSIP takes the transfer, and before that
  -- the timer of the cushion message is set.
  pub on_speech_end_lem :
      (w : World p)
      → w.call.turn_count < 2 ^ 31 - 1
      → ((on_speech_end p none w).call.turn_count ≡ w.call.turn_count + 1)
        × ((on_speech_end p none w).effects
            ≡ w.effects
              ++ (if leb 19 w.call.turn_count then transferred agent_uri else cushion_timer_set)
                ∷ [])
  unfolding on_speech_end set_cushion transfer_to is_valid_transfer_target strip_prefix
  on_speech_end_lem w h =
      let turns : bump w.call.turn_count ≡ w.call.turn_count + 1 = ground arith in
      let last : not (ltb_ℤ (to_int32 (w.call.turn_count + 1)) (pos 20))
          ≡ leb 19 w.call.turn_count =
        ground arith in
      let shown = λ (w' : World p) (e : Effect).
        (w'.call.turn_count ≡ w.call.turn_count + 1) × (w'.effects ≡ w.effects ++ e ∷ []) in
      rw (turns, last) (both shown (leb 19 w.call.turn_count) (refl, refl) (refl, refl))
