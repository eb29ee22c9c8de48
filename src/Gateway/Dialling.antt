-- ===== src/Gateway/Dialling.antt =====
-- What a request to place a call leaves, through the whole gateway.
use vbgw_pjsip_v.Common.{ℕ, ◌≡◌, ◌≢◌, ◌⊎◌, inl, inr, ◌∙◌, ap, Text, none, some}
use vbgw_pjsip_v.SessionManager.{SessionManager, get_call}
use vbgw_pjsip_v.SessionManager.Tables.{find}
use vbgw_pjsip_v.VoicebotAccount.Outbound.{
  outbound_call, make_outbound_call, make_outbound_call-cases,
}
use vbgw_pjsip_v.HttpServer.Response.{Settings, Dialled, dialled, not_dialled, Engine, World}
use vbgw_pjsip_v.HttpServer.Outbound.{handle_outbound_call}
use vbgw_pjsip_v.HttpServer.Outbound.Placed.{IsAnswer, handle_outbound_call-IsPlaced}
use vbgw_pjsip_v.Gateway.{Attempt, Gateway, choose_account, place_call, gateway}

-- The answer 202 goes with the new call in the table, and any other with the entries as the table had
-- them before or as the other threads left them.
abbrev pub IsDone : Attempt → SessionManager → ℕ → SessionManager → Type 0
IsDone a before status after =
    ((status ≡ 202) × (get_call a.session_id after ≡ some (outbound_call a.object a.session_id)))
    ⊎ ((status ≢ 202) × ((after.calls ≡ before.calls) ⊎ (after.calls ≡ (a.meanwhile before).calls)))

answered :
    {session_id : Text} (d : Dialled) {status : ℕ}
    → d ≡ dialled session_id
    → IsAnswer d status
    → status ≡ 202
answered (dialled _) e answer = answer
answered (not_dialled _) e answer = absurd (cc)

unanswered :
    {message : Text} (d : Dialled) {status : ℕ}
    → d ≡ not_dialled message
    → IsAnswer d status
    → status ≢ 202
unanswered (dialled _) e answer = absurd (cc)
unanswered (not_dialled _) e answer = answer

placed-IsDone :
    (a : Attempt) (before after : SessionManager) (status : ℕ)
    → find a.session_id (a.meanwhile before).calls ≡ none
    → let p =
        make_outbound_call a.now a.object a.session_id a.placing before (a.meanwhile before) in
      after ≡ p.sessions → IsAnswer p.result status → IsDone a before status after
placed-IsDone a before after status fresh e answer =
    elim (make_outbound_call-cases a.now a.object a.session_id a.placing before (a.meanwhile before)
      fresh) [
        | inl (result, call, _) ↦
            inl (answered _ result answer, ap (get_call a.session_id) e ∙ call)
        | inr ((message, result), calls, _) ↦
            inr (unanswered _ result answer, inr (ap (λ m. m.calls) e ∙ calls))
      ]

-- Where the session id of the call to be placed is not in the table, a request for a call through
-- the whole gateway either is answered 202, with the new call in the table under its session id, or
-- gets another status, and the entries are as they were or as other threads have left them.
pub handle_outbound_call-IsDone :
    (others : Engine) (cfg : Settings) (now : ℕ) (request_body admin_key : Text)
    (w : World (Gateway others.State))
    → find w.engine.attempt.session_id (w.engine.attempt.meanwhile w.sessions).calls ≡ none
    → let (r, w') = handle_outbound_call (gateway others) cfg now request_body admin_key w in
      IsDone w.engine.attempt w.sessions r.status_code w'.sessions
unfolding place_call choose_account
handle_outbound_call-IsDone others cfg now request_body admin_key w fresh =
    elim (handle_outbound_call-IsPlaced (gateway others) cfg now request_body admin_key w) [
      | inl (status, same) ↦ inr (status, inl (ap (λ m. m.calls) same))
      | inr (account, target_uri, (sessions, answer)) ↦
          placed-IsDone w.engine.attempt w.sessions _ _ fresh sessions answer
    ]
