-- ===== src/VoicebotCall/Digits.antt =====
-- A key of the caller, through the menu of src/ivr/IvrManager.cpp, in src/engine/VoicebotCall.cpp.
use vbgw_pjsip_v.Common.{ℕ, ◌≡◌, ◌≢◌, ◌⊎◌, refl, Text, codes, some, [], ◌∷◌, ◌++◌, true, false}
use vbgw_pjsip_v.HttpServer.Validate.{is_dtmf_char}
use vbgw_pjsip_v.IvrManager.{IvrManager, menu, ai_chat}
use vbgw_pjsip_v.IvrManager.Callbacks.{handle_dtmf_forward}
use vbgw_pjsip_v.RuntimeMetrics.{RuntimeMetrics, add_grpc_queued_frames}
use vbgw_pjsip_v.VoicebotAiClient.{Client, AudioItem, send_dtmf, is_streaming}
use vbgw_pjsip_v.VoicebotCall.{Platform, World}
use vbgw_pjsip_v.VoicebotCall.Control.{
  is_valid_dtmf_digits, send_each, send_to, send_dtmf_to_ai, run_callback, run_callbacks,
  on_dtmf_digit,
}

-- The item that carries a digit.
abbrev pub dtmf_item : Text → AudioItem
dtmf_item digit = record { pcm_data = []; is_speaking = false; is_dtmf = true; dtmf_digit = digit }

-- A key that is no command where the menu stands, and a call-back that takes it.
abbrev pub IsForwarded : ℕ → IvrManager → Type 0
IsForwarded c m =
    (m.on_dtmf_forward ≡ true)
    × ((m.current_state ≡ ai_chat) ⊎ ((m.current_state ≡ menu) × (c ∷ [] ≢ codes "1")))
    × (c ∷ [] ≢ codes "0")
    × (c ∷ [] ≢ codes "*")
    × (c ∷ [] ≢ codes "#")

send_dtmf_lem :
    (c : ℕ) (client : Client) (m : RuntimeMetrics)
    → client.is_running ≡ true
    → is_streaming client.state ≡ true
    → send_dtmf (c ∷ []) (client, m) ≡ (
      record client { audio_queue = client.audio_queue ++ dtmf_item (c ∷ []) ∷ [] },
      add_grpc_queued_frames 1 m,
    )
unfolding send_dtmf
send_dtmf_lem c client m r s = rw (r, s) refl

module _ (p : Platform) where
  forwarded_lem :
      (c : ℕ) (w : World p) (client : Client)
      → is_dtmf_char c ≡ true
      → w.call.ai_client ≡ some client
      → client.is_running ≡ true
      → is_streaming client.state ≡ true
      → let w' = (send_dtmf_to_ai p (c ∷ []) w).1 in
        (w'.call.ai_client
          ≡ some (record client { audio_queue = client.audio_queue ++ dtmf_item (c ∷ []) ∷ [] }))
        × (w'.metrics ≡ add_grpc_queued_frames 1 w.metrics)
        × (w'.call.ivr_manager ≡ w.call.ivr_manager)
  unfolding send_dtmf_to_ai send_to send_each is_valid_dtmf_digits
  forwarded_lem c w client h e r s =
      rw (h, e, send_dtmf_lem c client w.metrics r s) (refl, refl, refl)

  -- A key that is a DTMF character and no command where the menu stands, with its call-back set and
  -- the AI session streaming, is put at the end of the queue for the AI engine and counted, and the
  -- menu stays as it is.
  pub on_dtmf_digit-queued :
      (c : ℕ) (w : World p) (client : Client)
      → is_dtmf_char c ≡ true
      → IsForwarded c w.call.ivr_manager
      → w.call.ai_client ≡ some client
      → client.is_running ≡ true
      → is_streaming client.state ≡ true
      → let w' = on_dtmf_digit p (c ∷ []) w in
        (w'.call.ai_client
          ≡ some (record client { audio_queue = client.audio_queue ++ dtmf_item (c ∷ []) ∷ [] }))
        × (w'.metrics ≡ add_grpc_queued_frames 1 w.metrics)
        × (w'.call.ivr_manager ≡ w.call.ivr_manager)
  unfolding on_dtmf_digit run_callbacks run_callback
  on_dtmf_digit-queued c w client h f e r s =
      let (to, same) = handle_dtmf_forward (c ∷ []) w.call.ivr_manager (λ q. cc) in
      let out = to.1 f in let kept = same out in rw (out, kept) (forwarded_lem c w client h e r s)
