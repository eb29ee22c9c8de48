-- ===== src/HttpServer/Routes.antt =====
-- The choice of a handler in `HttpServer::handleConnectionImpl` of src/api/HttpServer.cpp, for a
-- request that has been read.
pub mod Security
use vbgw_pjsip_v.Common.{
  ℕ, Text, codes, text_eq, Option, none, some, List, [], ◌∷◌, ◌++◌, Bool, true, false, not, ◌&&◌,
  if◌then◌else◌,
}
use vbgw_pjsip_v.RuntimeMetrics.{RuntimeMetrics}
use vbgw_pjsip_v.HttpServer.Parse.{parse_session_id_from_path}
use vbgw_pjsip_v.HttpServer.Validate.{is_gateway_ready}
use vbgw_pjsip_v.HttpServer.Response.{
  Response, respond, Settings, Engine, World, check_admin_key, unless_answered, call_not_found,
  handle_list,
}
use vbgw_pjsip_v.HttpServer.Handlers.{
  handle_call_dtmf, handle_call_transfer, handle_call_record_start, handle_call_record_stop,
  handle_bridge_calls, with_call,
}
use vbgw_pjsip_v.HttpServer.Outbound.{handle_outbound_call}
use vbgw_pjsip_v.SessionManager.{CallRef, CallPtr, get_call}

-- The request line, the body, and the header `x-admin-key`, empty where there is none.
pub record Request : Type 0 where
  pub req_method : Text
  pub req_path : Text
  pub body : Text
  pub admin_key : Text

-- The texts that the reporting handlers build, which read the state and change nothing of it.
pub record Pages (S : Type 0) : Type 0 where
  pub health : World S → Text
  pub metrics : World S → Text
  pub services : World S → Text
  pub active_sessions : World S → Text
  -- `none` where `getRtpStatsSnapshot` fails, and the error message
  pub stats : CallRef → World S → Option Text × Text

abbrev pub bool_to_json : Bool → Text
bool_to_json value = if value then codes "true" else codes "false"

unfoldable pub handle_readiness : RuntimeMetrics → Response
handle_readiness metrics =
    let ready = is_gateway_ready metrics in
    respond (if ready then 200 else 503) (if ready then codes "OK" else codes "Service Unavailable")
      (codes "{\"status\":\""
        ++ (if ready then codes "READY" else codes "NOT_READY")
        ++ codes "\",\"sip_registered\":"
        ++ bool_to_json metrics.sip_registered
        ++ codes ",\"grpc_healthy\":"
        ++ bool_to_json metrics.grpc_healthy
        ++ codes "}")

abbrev not_found : Response
not_found = respond 404 (codes "Not Found") (codes "{\"error\":\"not_found\"}")

module _ (api : Engine) (pages : Pages api.State) where
  open api use {State}

  stats_answer : Option Text × Text → Response
  stats_answer (some page, message) = respond 200 (codes "OK") page
  stats_answer (none, message) = respond 503 (codes "Service Unavailable") message

  unfoldable pub handle_call_stats : Settings → Text → Text → World State → Response × World State
  unfolding stats_answer
  handle_call_stats cfg session_id admin_key w = unless_answered (check_admin_key cfg admin_key) w (
      with_call api (get_call session_id w.sessions) w
        (λ call. (stats_answer (pages.stats call w), w)))

  -- The first action of the list whose path names a call, as the chain of `else if`.
  abbrev pub or_else :
      Option Text
      → (Text → Response × World State)
      → Response × World State
      → Response × World State
  or_else (some session_id) handler next = handler session_id
  or_else none handler next = next

  unfoldable pub serve_post : Settings → ℕ → Request → World State → Response × World State
  serve_post cfg now req w =
      let path = req.req_path in
      let key = req.admin_key in
      if text_eq path (codes "/api/v1/calls")
      then handle_outbound_call api cfg now req.body key w
      else if text_eq path (codes "/api/v1/calls/bridge")
      then handle_bridge_calls api cfg req.body key false w
      else if text_eq path (codes "/api/v1/calls/unbridge")
      then handle_bridge_calls api cfg req.body key true w
      else or_else (parse_session_id_from_path path (codes "/dtmf"))
          (λ session_id. handle_call_dtmf api cfg session_id req.body key w)
          (or_else (parse_session_id_from_path path (codes "/transfer"))
            (λ session_id. handle_call_transfer api cfg session_id req.body key w)
            (or_else (parse_session_id_from_path path (codes "/record/start"))
              (λ session_id. handle_call_record_start api cfg session_id req.body key w)
              (or_else (parse_session_id_from_path path (codes "/record/stop"))
                (λ session_id. handle_call_record_stop api cfg session_id key w) (not_found, w))))

  unfoldable pub serve_get : Settings → Request → World State → Response × World State
  serve_get cfg req w =
      let path = req.req_path in
      let key = req.admin_key in
      if text_eq path (codes "/live")
      then (respond 200 (codes "OK") (codes "{\"status\":\"UP\"}"), w)
      else if text_eq path (codes "/ready")
      then (handle_readiness w.metrics, w)
      else if text_eq path (codes "/health")
      then (respond 200 (codes "OK") (pages.health w), w)
      else if text_eq path (codes "/metrics")
      then (respond 200 (codes "OK") (pages.metrics w), w)
      else if text_eq path (codes "/api/v1/services")
      then (handle_list cfg (pages.services w) key, w)
      else if text_eq path (codes "/api/v1/sessions/active")
      then (handle_list cfg (pages.active_sessions w) key, w)
      else or_else (parse_session_id_from_path path (codes "/stats"))
          (λ session_id. handle_call_stats cfg session_id key w) (not_found, w)

  unfoldable pub serve : Settings → ℕ → Request → World State → Response × World State
  serve cfg now req w =
      if text_eq req.req_method (codes "GET")
      then serve_get cfg req w
      else if text_eq req.req_method (codes "POST")
      then serve_post cfg now req w
      else (not_found, w)
