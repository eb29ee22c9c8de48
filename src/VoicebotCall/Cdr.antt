-- ===== src/VoicebotCall/Cdr.antt =====
-- `dumpCdr` of src/engine/VoicebotCall.cpp.
use vbgw_pjsip_v.Common.{
  ℕ, zero, suc, ◌+◌, ◌-◌, ◌/◌, ◌%◌, Text, codes, is_empty, [], ◌∷◌, ◌++◌, Bool, not, ◌&&◌, ltb, leb,
  ◌==◌, if◌then◌else◌,
}
use vbgw_pjsip_v.Common.Int.{ℤ, pos, negsuc, to_int32}
use vbgw_pjsip_v.AppConfig.{json_escape}
use vbgw_pjsip_v.CdrWebhookClient.{push_cdr}
use vbgw_pjsip_v.VoicebotCall.{Platform, VoicebotCall, World, cdr_logged, emit}

-- The last digits of a number, at most so many.
unfoldable pub digits : ℕ → ℕ → Text
digits zero n = []
digits (suc places) n =
    let rest = digits places (n / 10) in
    if ltb n 10 then (48 + n) ∷ [] else rest ++ (48 + n % 10) ∷ []

-- A number of 64 bits has at most 20 digits.
unfoldable pub decimal : ℕ → Text
decimal n = digits 20 n

unfoldable pub int_text : ℤ → Text
int_text (pos n) = decimal n
int_text (negsuc n) = 45 ∷ decimal (suc n)

-- `duration_cast<seconds>(end_time - start_time_).count()`, of nanoseconds; the clock may be set back.
unfoldable pub duration_text : ℕ → ℕ → Text
duration_text start_time end_time =
    let back = (start_time - end_time) / 1000000000 in
    if leb start_time end_time
    then decimal ((end_time - start_time) / 1000000000)
    else if back == 0
    then decimal 0
    else 45 ∷ decimal back

-- What `dumpCdr` reads: the clock, its text, and the settings.
pub record CdrEnv : Type 0 where
  pub end_time : ℕ
  pub end_time_text : Text
  pub cdr_webhook_enable : Bool
  pub cdr_webhook_url : Text

module _ (p : Platform) where
  unfoldable pub cdr_json : CdrEnv → Text → VoicebotCall p → Text
  cdr_json env reason c =
      codes "{\"session_id\":\""
      ++ ((if is_empty c.session_id then codes "N/A" else c.session_id)
          ++ (codes "\", \"service_name\":\""
              ++ (json_escape c.service_name
                  ++ (codes "\", \"entry_number\":\""
                      ++ (json_escape c.entry_number
                          ++ (codes "\", \"route_type\":\""
                              ++ (json_escape c.route_type
                                  ++ (codes "\", \"end_time\":\""
                                      ++ (env.end_time_text
                                          ++ (codes "\", \"duration_sec\":"
                                              ++ (duration_text c.start_time env.end_time
                                                  ++ (codes ", \"reason\":\""
                                                      ++ (json_escape (
                                                            if is_empty reason
                                                            then codes "Unknown"
                                                            else reason)
                                                          ++ (codes "\", \"vad_triggers\":"
                                                            ++ (int_text
                                                            (to_int32 c.vad_trigger_count)
                                                            ++ (codes ", \"bargeins\":"
                                                            ++ (int_text (to_int32 c.bargein_count)
                                                            ++ (codes ", \"turns\":"
                                                            ++ (int_text (to_int32 c.turn_count)
                                                            ++ codes "}")))))))))))))))))))

  unfoldable pub dump_cdr : CdrEnv → Text → World p → World p
  dump_cdr env reason w =
      let json = cdr_json env reason w.call in
      let logged = emit p (cdr_logged json) w in
      if env.cdr_webhook_enable && not (is_empty env.cdr_webhook_url)
      then record logged { webhook = push_cdr env.cdr_webhook_url json w.webhook }
      else logged
