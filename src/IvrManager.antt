-- ===== src/IvrManager.antt =====
-- src/ivr/IvrManager.h and IvrManager.cpp: the DTMF state machine of a call. A method runs under the
-- manager's mutex and leaves its callbacks to run once the mutex is released: it returns the new
-- manager and the callbacks to run, in order.
pub mod Diagram
pub mod Graph
pub mod Rows
pub mod Callbacks
mod Tests
use vbgw_pjsip_v.Common.{
  Text, codes, text_eq, is_empty, List, [], ◌∷◌, Bool, true, false, if◌then◌else◌,
}

pub data State : Type 0 where
  idle menu ai_chat transfer disconnect : State

-- The callbacks that `VoicebotCall` registers, with what they are given.
pub data Callback : Type 0 where
  dtmf_forward : Text → Callback
  transfer_requested : Callback
  disconnect_requested : Callback
  repeat_menu : Callback
  enter_ai_chat : Callback

-- A `std::function` member counts as set or empty.
pub record IvrManager : Type 0 where
  pub current_state : State
  pub on_dtmf_forward : Bool
  pub on_transfer : Bool
  pub on_disconnect : Bool
  pub on_repeat_menu : Bool
  pub on_enter_ai_chat : Bool

unfoldable pub create : IvrManager
create = record {
  current_state = idle;
  on_dtmf_forward = false;
  on_transfer = false;
  on_disconnect = false;
  on_repeat_menu = false;
  on_enter_ai_chat = false;
}

-- `if (on_…) out_cb = on_…`, and the call of what was deferred.
abbrev pub deferred : Bool → Callback → List Callback
deferred set c = if set then c ∷ [] else []

unfoldable pub set_dtmf_forward_callback : Bool → IvrManager → IvrManager
set_dtmf_forward_callback cb m = record m { on_dtmf_forward = cb }

unfoldable pub set_transfer_callback : Bool → IvrManager → IvrManager
set_transfer_callback cb m = record m { on_transfer = cb }

unfoldable pub set_disconnect_callback : Bool → IvrManager → IvrManager
set_disconnect_callback cb m = record m { on_disconnect = cb }

unfoldable pub set_repeat_menu_callback : Bool → IvrManager → IvrManager
set_repeat_menu_callback cb m = record m { on_repeat_menu = cb }

unfoldable pub set_enter_ai_chat_callback : Bool → IvrManager → IvrManager
set_enter_ai_chat_callback cb m = record m { on_enter_ai_chat = cb }

activate_from : State → IvrManager → IvrManager × List Callback
activate_from idle m = (record m { current_state = menu }, deferred m.on_repeat_menu repeat_menu)
activate_from _ m = (m, [])

unfoldable pub activate_menu : IvrManager → IvrManager × List Callback
unfolding activate_from
activate_menu m = activate_from m.current_state m

unfoldable pub reset : IvrManager → IvrManager
reset m = record m { current_state = idle }

pub process_menu_digit : Text → IvrManager → IvrManager × List Callback
process_menu_digit digit m =
    if text_eq digit (codes "1")
    then (record m { current_state = ai_chat }, deferred m.on_enter_ai_chat enter_ai_chat)
    else if text_eq digit (codes "0")
    then (record m { current_state = transfer }, deferred m.on_transfer transfer_requested)
    else if text_eq digit (codes "*")
    then (m, deferred m.on_repeat_menu repeat_menu)
    else if text_eq digit (codes "#")
    then (record m { current_state = disconnect }, deferred m.on_disconnect disconnect_requested)
    else (m, deferred m.on_dtmf_forward (dtmf_forward digit))

pub process_ai_chat_digit : Text → IvrManager → IvrManager × List Callback
process_ai_chat_digit digit m =
    if text_eq digit (codes "0")
    then (record m { current_state = transfer }, deferred m.on_transfer transfer_requested)
    else if text_eq digit (codes "*")
    then (record m { current_state = menu }, deferred m.on_repeat_menu repeat_menu)
    else if text_eq digit (codes "#")
    then (record m { current_state = disconnect }, deferred m.on_disconnect disconnect_requested)
    else (m, deferred m.on_dtmf_forward (dtmf_forward digit))

-- The `switch` of `handleDtmf`.
dispatch : State → Text → IvrManager → IvrManager × List Callback
dispatch menu digit m = process_menu_digit digit m
dispatch ai_chat digit m = process_ai_chat_digit digit m
dispatch _ digit m = (m, [])

unfoldable pub handle_dtmf : Text → IvrManager → IvrManager × List Callback
unfolding dispatch process_menu_digit process_ai_chat_digit
handle_dtmf digit m = if is_empty digit then (m, []) else dispatch m.current_state digit m
