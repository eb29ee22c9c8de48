-- ===== src/IvrManager/Callbacks.antt =====
-- Which callbacks a key runs, and how they go with the change of state.
use vbgw_pjsip_v.Common.{
  Text, codes, text_eq_iff, [], ◌∷◌, ◌≡◌, ◌≢◌, ◌⊎◌, ◌↔◌, ◌≤◌, refl, arith, true, length,
}
use vbgw_pjsip_v.IvrManager.{
  menu, ai_chat, transfer, disconnect, dtmf_forward, transfer_requested, disconnect_requested,
  enter_ai_chat, IvrManager, handle_dtmf,
}

-- Every callback has been registered.
pub record AllSet (m : IvrManager) : Type 0 where
  pub forward_set : m.on_dtmf_forward ≡ true
  pub transfer_set : m.on_transfer ≡ true
  pub disconnect_set : m.on_disconnect ≡ true
  pub repeat_set : m.on_repeat_menu ≡ true
  pub enter_set : m.on_enter_ai_chat ≡ true

-- With every callback registered a key runs at most one; the transfer, hang-up and AI-chat
-- callbacks run exactly when the key changes the state to theirs.
pub handle_dtmf_entry :
    (d : Text) (m : IvrManager)
    → AllSet m
    → let (m', out) = handle_dtmf d m in
      (length out ≤ 1)
      × ((out ≡ transfer_requested ∷ [])
          ↔ ((m.current_state ≢ transfer) × (m'.current_state ≡ transfer)))
      × ((out ≡ disconnect_requested ∷ [])
          ↔ ((m.current_state ≢ disconnect) × (m'.current_state ≡ disconnect)))
      × ((out ≡ enter_ai_chat ∷ []) ↔ ((m.current_state ≢ ai_chat) × (m'.current_state ≡ ai_chat)))
unfolding handle_dtmf
handle_dtmf_entry [] m a = ground arith
handle_dtmf_entry (c ∷ cs) m a = ground arith

-- A key reaches the AI engine unchanged exactly when the menu or the chat is active, it is no
-- command there, and the callback has been registered; the state then stays.
pub handle_dtmf_forward :
    (d : Text) (m : IvrManager)
    → d ≢ []
    → let (m', out) = handle_dtmf d m in
      ((out ≡ dtmf_forward d ∷ []) ↔ (
        (m.on_dtmf_forward ≡ true)
        × ((m.current_state ≡ ai_chat) ⊎ ((m.current_state ≡ menu) × (d ≢ codes "1")))
        × (d ≢ codes "0")
        × (d ≢ codes "*")
        × (d ≢ codes "#")))
      × (out ≡ dtmf_forward d ∷ [] → m' ≡ m)
unfolding handle_dtmf
handle_dtmf_forward [] m ne = absurd (ne refl)
handle_dtmf_forward (c ∷ cs) m ne = ground (
  arith,
  text_eq_iff (c ∷ cs) (codes "0"),
  text_eq_iff (c ∷ cs) (codes "1"),
  text_eq_iff (c ∷ cs) (codes "*"),
  text_eq_iff (c ∷ cs) (codes "#"),
)
