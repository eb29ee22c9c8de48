-- ===== src/Gateway.antt =====
-- The parts together: the methods that src/api/HttpServer.cpp calls, filled by src/engine/AccountManager
-- for the choice of an account and by src/engine/VoicebotAccount for the placing of a call. Those of a
-- call that stands already are a parameter.
pub mod Dialling
mod Tests
use vbgw_pjsip_v.Common.{ℕ, Text, Option, none, some, Bool, true, false}
use vbgw_pjsip_v.SessionManager.{SessionManager}
use vbgw_pjsip_v.AccountManager.{AccountManager, select_outbound_account}
use vbgw_pjsip_v.VoicebotAccount.Outbound.{Placing, make_outbound_call}
use vbgw_pjsip_v.HttpServer.Response.{Engine, Dialled}

-- What the placing of a call meets: the time, the new object and its session id, how PJSIP ends, and what
-- other threads do to the table of calls until `makeCall` is back.
pub record Attempt : Type 0 where
  pub now : ℕ
  pub object : ℕ
  pub session_id : Text
  pub placing : Placing
  pub meanwhile : SessionManager → SessionManager

pub record Gateway (C : Type 0) : Type 0 where
  pub accounts : AccountManager
  pub attempt : Attempt
  pub calls : C

-- A method of a call, in the gateway.
abbrev pub within : {C : Type 0} → (C → (Bool × Text) × C) → Gateway C → (Bool × Text) × Gateway C
within f g = let (r, c) = f g.calls in (r, record g { calls = c })

unfoldable pub choose_account : {C : Type 0} → Gateway C → Option ℕ × Gateway C
choose_account g =
    let (account, accounts) = select_outbound_account g.accounts in
    (account, record g { accounts = accounts })

unfoldable pub place_call :
    {C : Type 0} → Gateway C → SessionManager → Dialled × Gateway C × SessionManager
place_call g m =
    let a = g.attempt in
    let p = make_outbound_call a.now a.object a.session_id a.placing m (a.meanwhile m) in
    (p.result, g, p.sessions)

abbrev pub gateway : Engine → Engine
gateway others = record {
  State = Gateway others.State;
  send_dtmf_to_peer = λ c d. within (others.send_dtmf_to_peer c d);
  send_dtmf_to_ai = λ c d. within (others.send_dtmf_to_ai c d);
  transfer_to = λ c t. within (others.transfer_to c t);
  start_recording = λ c f. within (others.start_recording c f);
  stop_recording = λ c. within (others.stop_recording c);
  recording_file_path = λ c g. others.recording_file_path c g.calls;
  bridge_with = λ c d. within (others.bridge_with c d);
  unbridge_with = λ c d. within (others.unbridge_with c d);
  select_outbound_account = choose_account;
  make_outbound_call = λ account target_uri g m. place_call g m;
}
