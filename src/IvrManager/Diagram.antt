-- ===== src/IvrManager/Diagram.antt =====
-- The diagram in the comment of src/ivr/IvrManager.h, row by row, beside what the code does.
use vbgw_pjsip_v.Common.{
  ℕ, ◌≤◌, ◌≡◌, ◌⊎◌, inl, inr, refl, ap, arith, Text, codes, text_eq, Option, none, some, List, [],
  ◌∷◌, true,
}
use vbgw_pjsip_v.IvrManager.{
  State, idle, menu, ai_chat, transfer, disconnect, Callback, dtmf_forward, IvrManager,
  activate_menu, activate_from, reset, handle_dtmf, process_menu_digit, process_ai_chat_digit,
  dispatch,
}
use vbgw_pjsip_v.IvrManager.Graph.{
  Event, dtmf, activates, resets, apply, Arrow, to_menu, already_active, to_idle, no_digit,
  to_ai_chat, to_transfer, back_to_menu, to_disconnect, forwarded_in_menu, forwarded_in_ai_chat,
  ignored, apply-Arrow,
}

-- What is asked of the object, with the callbacks that run.
unfoldable pub react : Event → IvrManager → IvrManager × List Callback
react (dtmf digit) m = handle_dtmf digit m
react activates m = activate_menu m
react resets m = (reset m, [])

-- The digit that goes to the AI engine.
unfoldable pub forwarded : List Callback → Option Text
forwarded [] = none
forwarded (dtmf_forward d ∷ cs) = some d
forwarded (c ∷ cs) = none

-- '2' to '9'
abbrev pub IsDigit : Text → Type 0
IsDigit d = (n : ℕ) × (50 ≤ n) × (n ≤ 57) × (d ≡ n ∷ [])

-- A state, what happens in it, the next state, and the digit that is forwarded. The last row,
-- DISCONNECT, names the end of the call and no event.
pub data Diagram : State → Event → State → Option Text → Type 0 where
  initialised : Diagram idle activates menu none
  menu_one : Diagram menu (dtmf (codes "1")) ai_chat none
  menu_zero : Diagram menu (dtmf (codes "0")) transfer none
  menu_star : Diagram menu (dtmf (codes "*")) menu none
  menu_hash : Diagram menu (dtmf (codes "#")) disconnect none
  menu_digit : {d : Text} → IsDigit d → Diagram menu (dtmf d) menu (some d)
  ai_chat_zero : Diagram ai_chat (dtmf (codes "0")) transfer none
  ai_chat_star : Diagram ai_chat (dtmf (codes "*")) menu none
  ai_chat_hash : Diagram ai_chat (dtmf (codes "#")) disconnect none
  ai_chat_digit : {d : Text} → IsDigit d → Diagram ai_chat (dtmf d) ai_chat (some d)
  transfer_ignores : {d : Text} → Diagram transfer (dtmf d) transfer none

-- A digit goes through both switches to the forwarding.
menu_digit-forwards :
    (n : ℕ) (m : IvrManager)
    → 50 ≤ n
    → n ≤ 57
    → m.on_dtmf_forward ≡ true
    → process_menu_digit (n ∷ []) m ≡ (m, dtmf_forward (n ∷ []) ∷ [])
unfolding process_menu_digit text_eq
menu_digit-forwards n m h k set = ground (arith, h, k, set)

ai_chat_digit-forwards :
    (n : ℕ) (m : IvrManager)
    → 50 ≤ n
    → n ≤ 57
    → m.on_dtmf_forward ≡ true
    → process_ai_chat_digit (n ∷ []) m ≡ (m, dtmf_forward (n ∷ []) ∷ [])
unfolding process_ai_chat_digit text_eq
ai_chat_digit-forwards n m h k set = ground (arith, h, k, set)

-- The next state and the digit that is forwarded.
abbrev pub Goes : State → Option Text → IvrManager × List Callback → Type 0
Goes t f (m, out) = (m.current_state ≡ t) × (forwarded out ≡ f)

menu_digit-Goes :
    (d : Text) (m : IvrManager)
    → m.current_state ≡ menu
    → IsDigit d
    → m.on_dtmf_forward ≡ true
    → Goes menu (some d) (handle_dtmf d m)
unfolding handle_dtmf dispatch forwarded
menu_digit-Goes d m s (n, h, k, e) set =
    let to : handle_dtmf (n ∷ []) m ≡ process_menu_digit (n ∷ []) m =
      ap (λ x. dispatch x (n ∷ []) m) s in
    rw (e, to, menu_digit-forwards n m h k set) (s, refl)

ai_chat_digit-Goes :
    (d : Text) (m : IvrManager)
    → m.current_state ≡ ai_chat
    → IsDigit d
    → m.on_dtmf_forward ≡ true
    → Goes ai_chat (some d) (handle_dtmf d m)
unfolding handle_dtmf dispatch forwarded
ai_chat_digit-Goes d m s (n, h, k, e) set =
    let to : handle_dtmf (n ∷ []) m ≡ process_ai_chat_digit (n ∷ []) m =
      ap (λ x. dispatch x (n ∷ []) m) s in
    rw (e, to, ai_chat_digit-forwards n m h k set) (s, refl)

-- The transfer ignores every key.
transfer-Goes :
    (d : Text) (m : IvrManager) → m.current_state ≡ transfer → Goes transfer none (handle_dtmf d m)
unfolding handle_dtmf dispatch forwarded
transfer-Goes [] m h = (h, refl)
transfer-Goes (c ∷ cs) m h = ground (arith, h)

row-Goes :
    {s t : State} {e : Event} {f : Option Text} (m : IvrManager)
    → m.current_state ≡ s
    → m.on_dtmf_forward ≡ true
    → Diagram s e t f
    → Goes t f (react e m)
unfolding react activate_menu activate_from handle_dtmf dispatch process_menu_digit
    process_ai_chat_digit text_eq forwarded
row-Goes m h set initialised = ground (arith, h)
row-Goes m h set menu_one = ground (arith, h, set)
row-Goes m h set menu_zero = ground (arith, h, set)
row-Goes m h set menu_star = ground (arith, h, set)
row-Goes m h set menu_hash = ground (arith, h, set)
row-Goes m h set (menu_digit d) = menu_digit-Goes _ m h d set
row-Goes m h set ai_chat_zero = ground (arith, h, set)
row-Goes m h set ai_chat_star = ground (arith, h, set)
row-Goes m h set ai_chat_hash = ground (arith, h, set)
row-Goes m h set (ai_chat_digit d) = ai_chat_digit-Goes _ m h d set
row-Goes m h set transfer_ignores = transfer-Goes _ m h

-- With the call-back for digits registered, the object follows every row of the diagram of its
-- header that names an event: from the state of the row, the event leads to the row's next state
-- and forwards the row's digit, or nothing.
pub react-Goes :
    (m : IvrManager) (e : Event) (t : State) (f : Option Text)
    → m.on_dtmf_forward ≡ true
    → Diagram m.current_state e t f
    → Goes t f (react e m)
react-Goes m e t f set row = row-Goes m refl set row

Arrow-Diagram :
    {s t : State} {e : Event}
    → Arrow s e t
    → (t ≡ s) ⊎ ((e ≡ resets) × (t ≡ idle)) ⊎ ((f : Option Text) × Diagram s e t f)
Arrow-Diagram (to_menu h) = inr (inr (none, rw h initialised))
Arrow-Diagram (already_active h) = inl refl
Arrow-Diagram to_idle = inr (inl (refl, refl))
Arrow-Diagram (no_digit h) = inl refl
Arrow-Diagram (to_ai_chat h d) = inr (inr (none, rw (h, d) menu_one))
Arrow-Diagram (to_transfer (inl h) d) = inr (inr (none, rw (h, d) menu_zero))
Arrow-Diagram (to_transfer (inr h) d) = inr (inr (none, rw (h, d) ai_chat_zero))
Arrow-Diagram (back_to_menu (inl h) d) = inr (inr (none, rw (h, d) menu_star))
Arrow-Diagram (back_to_menu (inr h) d) = inr (inr (none, rw (h, d) ai_chat_star))
Arrow-Diagram (to_disconnect (inl h) d) = inr (inr (none, rw (h, d) menu_hash))
Arrow-Diagram (to_disconnect (inr h) d) = inr (inr (none, rw (h, d) ai_chat_hash))
Arrow-Diagram (forwarded_in_menu h d n) = inl refl
Arrow-Diagram (forwarded_in_ai_chat h n) = inl refl
Arrow-Diagram (ignored h) = inl refl

-- An event either leaves the state as it is, or is a reset to the idle state, or takes the state
-- along a row of the diagram of the header.
pub apply-Diagram :
    (e : Event) (m : IvrManager)
    → let t = (apply e m).current_state in
      (t ≡ m.current_state)
      ⊎ ((e ≡ resets) × (t ≡ idle))
      ⊎ ((f : Option Text) × Diagram m.current_state e t f)
apply-Diagram e m = Arrow-Diagram (apply-Arrow e m)
