-- ===== src/Gateway/Tests.antt =====
-- A request for a call, through the whole gateway.
use vbgw_pjsip_v.Common.{ℕ, ◌≡◌, refl, Text, codes, [], ◌∷◌, none, some, false}
use vbgw_pjsip_v.Common.Int.{pos}
use vbgw_pjsip_v.RuntimeMetrics.{initial}
use vbgw_pjsip_v.SessionManager.{create}
use vbgw_pjsip_v.SessionManager.Tables.{find}
use vbgw_pjsip_v.VoicebotAccount.Outbound.{placed}
use vbgw_pjsip_v.HttpServer.Response.{Engine, Settings, World, not_dialled}
use vbgw_pjsip_v.HttpServer.Outbound.{handle_outbound_call}
use vbgw_pjsip_v.Gateway.{Attempt, Gateway, gateway}
use vbgw_pjsip_v.Gateway.Dialling.{IsDone, handle_outbound_call-IsDone}

-- No call stands.
abbrev no_calls : Engine
no_calls = record {
  State = ℕ;
  send_dtmf_to_peer = λ call digits n. ((false, []), n);
  send_dtmf_to_ai = λ call digits n. ((false, []), n);
  transfer_to = λ call uri n. ((false, []), n);
  start_recording = λ call path n. ((false, []), n);
  stop_recording = λ call n. ((false, []), n);
  recording_file_path = λ call n. [];
  bridge_with = λ a b n. ((false, []), n);
  unbridge_with = λ a b n. ((false, []), n);
  select_outbound_account = λ n. (none, n);
  make_outbound_call = λ account uri n sessions. (not_dialled [], n, sessions);
}

abbrev next_call : Attempt
next_call = record {
  now = 5;
  object = 1;
  session_id = codes "s";
  placing = placed;
  meanwhile = λ m. m;
}

abbrev settings : Settings
settings = record {
  admin_api_key = codes "k1";
  limits = record { rate_limit_rps = pos 20; rate_limit_burst = pos 40 };
}

-- One account, and room for two calls.
abbrev free : World (Gateway ℕ)
free = record {
  metrics = initial;
  bucket = record { initialized = false; tokens = 0; last_refill = 0 };
  sessions = create 2 false;
  engine = record {
    accounts = record { accounts = (codes "main", some 0) ∷ []; health_states = [] };
    attempt = next_call;
    calls = 0;
  };
}

abbrev body : Text
body = codes "{\"target_uri\":\"sip:1001@pbx\"}"

fresh : find (codes "s") (create 2 false).calls ≡ none
unfolding find create
fresh = refl

handle_outbound_call-IsDone_example :
    let (r, w') = handle_outbound_call (gateway no_calls) settings 7 body (codes "k1") free in
    IsDone next_call (create 2 false) r.status_code w'.sessions
handle_outbound_call-IsDone_example =
    handle_outbound_call-IsDone no_calls settings 7 body (codes "k1") free fresh
