-- ===== src/HttpServer/Response.antt =====
-- What the handlers of src/api/HttpServer.cpp answer and work on.
use vbgw_pjsip_v.Common.{
  ℕ, Text, codes, is_empty, Option, none, some, List, [], ◌++◌, Bool, not, if◌then◌else◌,
}
use vbgw_pjsip_v.AppConfig.{json_escape}
use vbgw_pjsip_v.RuntimeMetrics.{RuntimeMetrics}
use vbgw_pjsip_v.SessionManager.{SessionManager, CallRef}
use vbgw_pjsip_v.HttpServer.RateLimit.{Bucket, Limits}
use vbgw_pjsip_v.HttpServer.Validate.{constant_time_equals}

-- The arguments of `makeHttpResponse`. The content type of these is `application/json`.
pub record Response : Type 0 where
  pub status_code : ℕ
  pub status_text : Text
  pub body : Text
  pub extra_headers : List (Text × Text)

abbrev pub respond : ℕ → Text → Text → Response
respond status_code status_text body = record {
  status_code = status_code;
  status_text = status_text;
  body = body;
  extra_headers = [];
}

-- The settings that the handlers read.
pub record Settings : Type 0 where
  pub admin_api_key : Text
  pub limits : Limits

-- What a call of `makeOutboundCall` gives back: its session id, or its error message.
pub data Dialled : Type 0 where
  dialled : Text → Dialled
  not_dialled : Text → Dialled

-- The methods of `VoicebotCall`, `VoicebotAccount` and `AccountManager` that the handlers call, over
-- everything that these change. A method that can fail gives its result and its error message.
pub record Engine : Type 1 where
  pub State : Type 0
  pub send_dtmf_to_peer : CallRef → Text → State → (Bool × Text) × State
  pub send_dtmf_to_ai : CallRef → Text → State → (Bool × Text) × State
  pub transfer_to : CallRef → Text → State → (Bool × Text) × State
  pub start_recording : CallRef → Text → State → (Bool × Text) × State
  pub stop_recording : CallRef → State → (Bool × Text) × State
  pub recording_file_path : CallRef → State → Text
  pub bridge_with : CallRef → CallRef → State → (Bool × Text) × State
  pub unbridge_with : CallRef → CallRef → State → (Bool × Text) × State
  pub select_outbound_account : State → Option ℕ × State
  pub make_outbound_call : ℕ → Text → State → SessionManager → Dialled × State × SessionManager

pub record World (S : Type 0) : Type 0 where
  pub metrics : RuntimeMetrics
  pub bucket : Bucket
  pub sessions : SessionManager
  pub engine : S

-- The checks that every handler of a call begins with.
unfoldable pub check_admin_key : Settings → Text → Option Response
check_admin_key cfg admin_key =
    if is_empty cfg.admin_api_key
    then some (
        respond 503 (codes "Service Unavailable")
          (codes "{\"error\":\"admin_api_key_not_configured\"}"))
    else if is_empty admin_key
    then some (respond 401 (codes "Unauthorized") (codes "{\"error\":\"missing_admin_key\"}"))
    else if not (constant_time_equals admin_key cfg.admin_api_key)
    then some (respond 403 (codes "Forbidden") (codes "{\"error\":\"invalid_admin_key\"}"))
    else none

-- An early return, or what follows it.
abbrev pub unless_answered {ℓ} : {W : Type ℓ} → Option Response → W → Response × W → Response × W
unless_answered (some r) w next = (r, w)
unless_answered none w next = next

abbrev pub call_not_found : Response
call_not_found = respond 404 (codes "Not Found") (codes "{\"error\":\"call_not_found\"}")

abbrev pub invalid_request : Text → Response
invalid_request message =
    respond 400 (codes "Bad Request")
      (codes "{\"error\":\"invalid_request\",\"message\":\"" ++ message ++ codes "\"}")

-- The error of a method that failed, `unknown` where it left no message.
abbrev pub failed : Text → Text → Response
failed name message = respond 500 (codes "Internal Server Error") (
    codes "{\"error\":\""
    ++ name
    ++ codes "\",\"message\":\""
    ++ json_escape (if is_empty message then codes "unknown" else message)
    ++ codes "\"}")

-- The last step of a handler: the answer to a method's result, and what the method left.
abbrev pub answer :
    {S : Type 0} → (Bool × Text) × S → World S → Text → (S → Text) → Response × World S
answer ((ok, message), s) w name body = (
  (if ok then respond 202 (codes "Accepted") (body s) else failed name message),
  record w { engine = s },
)

-- `handleListServices` and `handleListSessions`, for the list that they would answer.
unfoldable pub handle_list : Settings → Text → Text → Response
handle_list cfg listing admin_key =
    if not (constant_time_equals admin_key cfg.admin_api_key)
    then respond 403 (codes "Forbidden") (codes "{\"error\":\"invalid_admin_key\"}")
    else respond 200 (codes "OK") listing
