-- ===== src/IvrManager/Tests.antt =====
-- Runs of the DTMF state machine.
use vbgw_pjsip_v.Common.{◌⊎◌, codes, refl, true}
use vbgw_pjsip_v.IvrManager.{State, menu, IvrManager}
use vbgw_pjsip_v.IvrManager.Graph.{dtmf}
use vbgw_pjsip_v.IvrManager.Rows.{TakesRow, HasNoRow, react_by_diagram}
use vbgw_pjsip_v.IvrManager.Callbacks.{AllSet}

abbrev at : State → IvrManager
at s = record {
  current_state = s;
  on_dtmf_forward = true;
  on_transfer = true;
  on_disconnect = true;
  on_repeat_menu = true;
  on_enter_ai_chat = true;
}

at_menu-AllSet : AllSet (at menu)
at_menu-AllSet = record {
  forward_set = refl;
  transfer_set = refl;
  disconnect_set = refl;
  repeat_set = refl;
  enter_set = refl;
}

react_by_diagram_example :
    TakesRow (at menu) (dtmf (codes "#")) ⊎ HasNoRow (at menu) (dtmf (codes "#"))
react_by_diagram_example = react_by_diagram (at menu) (dtmf (codes "#")) refl
