-- ===== src/IvrManager/Graph.antt =====
-- The steps that the code of src/ivr/IvrManager.cpp takes, as a relation, and what paths of them show.
use vbgw_pjsip_v.Common.{
  Text, codes, Text-cases, List, [], ◌∷◌, ◌≡◌, ◌≢◌, ◌⊎◌, inl, inr, refl, ap, ◌∙◌, arith,
}
use vbgw_pjsip_v.IvrManager.{
  State, idle, menu, ai_chat, transfer, disconnect, IvrManager, activate_menu, activate_from, reset,
  handle_dtmf, process_menu_digit, process_ai_chat_digit, dispatch,
}

-- What the object is asked to do.
pub data Event : Type 0 where
  dtmf : Text → Event
  activates : Event
  resets : Event

abbrev pub apply : Event → IvrManager → IvrManager
apply (dtmf digit) m = (handle_dtmf digit m).0
apply activates m = (activate_menu m).0
apply resets m = reset m

-- A digit that is none of the menu's keys.
abbrev pub IsPlain : Text → Type 0
IsPlain d = (d ≢ codes "0") × (d ≢ codes "*") × (d ≢ codes "#")

-- The steps: the rows of the diagram in the header, and what it does not name, which is the reset,
-- an activation that comes too late, and keys that are ignored or forwarded.
pub data Arrow : State → Event → State → Type 0 where
  to_menu : {s : State} → s ≡ idle → Arrow s activates menu
  already_active : {s : State} → s ≢ idle → Arrow s activates s
  to_idle : {s : State} → Arrow s resets idle
  no_digit : {s : State} {d : Text} → d ≡ [] → Arrow s (dtmf d) s
  to_ai_chat : {s : State} {d : Text} → s ≡ menu → d ≡ codes "1" → Arrow s (dtmf d) ai_chat
  to_transfer :
      {s : State} {d : Text}
      → (s ≡ menu) ⊎ (s ≡ ai_chat)
      → d ≡ codes "0"
      → Arrow s (dtmf d) transfer
  back_to_menu :
      {s : State} {d : Text} → (s ≡ menu) ⊎ (s ≡ ai_chat) → d ≡ codes "*" → Arrow s (dtmf d) menu
  to_disconnect :
      {s : State} {d : Text}
      → (s ≡ menu) ⊎ (s ≡ ai_chat)
      → d ≡ codes "#"
      → Arrow s (dtmf d) disconnect
  forwarded_in_menu :
      {s : State} {d : Text} → s ≡ menu → d ≢ codes "1" → IsPlain d → Arrow s (dtmf d) s
  forwarded_in_ai_chat : {s : State} {d : Text} → s ≡ ai_chat → IsPlain d → Arrow s (dtmf d) s
  ignored :
      {s : State} {d : Text} → (s ≡ idle) ⊎ (s ≡ transfer) ⊎ (s ≡ disconnect) → Arrow s (dtmf d) s

-- The keys are told apart by the code's comparisons, in its order.
menu-Arrow :
    (d : Text) (m : IvrManager)
    → m.current_state ≡ menu
    → Arrow menu (dtmf d) (process_menu_digit d m).0.current_state
unfolding process_menu_digit
menu-Arrow d m h = elim (Text-cases d (codes "1")) [
  | inl (e, t) ↦ rw t (to_ai_chat refl e)
  | inr (ne1, f1) ↦ rw f1 (elim (Text-cases d (codes "0")) [
    | inl (e, t) ↦ rw t (to_transfer (inl refl) e)
    | inr (ne0, f0) ↦ rw f0 (elim (Text-cases d (codes "*")) [
      | inl (e, t) ↦ rw (t, h) (back_to_menu (inl refl) e)
      | inr (nes, fs) ↦ rw fs (elim (Text-cases d (codes "#")) [
        | inl (e, t) ↦ rw t (to_disconnect (inl refl) e)
        | inr (neh, fh) ↦ rw (fh, h) (forwarded_in_menu refl ne1 (ne0, nes, neh))
      ])
    ])
  ])
]

ai_chat-Arrow :
    (d : Text) (m : IvrManager)
    → m.current_state ≡ ai_chat
    → Arrow ai_chat (dtmf d) (process_ai_chat_digit d m).0.current_state
unfolding process_ai_chat_digit
ai_chat-Arrow d m h = elim (Text-cases d (codes "0")) [
  | inl (e, t) ↦ rw t (to_transfer (inr refl) e)
  | inr (ne0, f0) ↦ rw f0 (elim (Text-cases d (codes "*")) [
    | inl (e, t) ↦ rw t (back_to_menu (inr refl) e)
    | inr (nes, fs) ↦ rw fs (elim (Text-cases d (codes "#")) [
      | inl (e, t) ↦ rw t (to_disconnect (inr refl) e)
      | inr (neh, fh) ↦ rw (fh, h) (forwarded_in_ai_chat refl (ne0, nes, neh))
    ])
  ])
]

state-Arrow :
    (s : State) (d : Text) (m : IvrManager)
    → m.current_state ≡ s
    → Arrow s (dtmf d) (dispatch s d m).0.current_state
unfolding dispatch
state-Arrow idle d m h = rw h (ignored (inl refl))
state-Arrow menu d m h = menu-Arrow d m h
state-Arrow ai_chat d m h = ai_chat-Arrow d m h
state-Arrow transfer d m h = rw h (ignored (inr (inl refl)))
state-Arrow disconnect d m h = rw h (ignored (inr (inr refl)))

activate-Arrow :
    (s : State) (m : IvrManager)
    → m.current_state ≡ s
    → Arrow s activates (activate_from s m).0.current_state
unfolding activate_from
activate-Arrow idle m h = to_menu refl
activate-Arrow menu m h = rw h (already_active (λ e. cc))
activate-Arrow ai_chat m h = rw h (already_active (λ e. cc))
activate-Arrow transfer m h = rw h (already_active (λ e. cc))
activate-Arrow disconnect m h = rw h (already_active (λ e. cc))

dtmf-Arrow :
    (d : Text) (m : IvrManager) → Arrow m.current_state (dtmf d) (handle_dtmf d m).0.current_state
unfolding handle_dtmf
dtmf-Arrow [] m = no_digit refl
dtmf-Arrow (c ∷ cs) m = state-Arrow m.current_state (c ∷ cs) m refl

-- Every operation of the IVR state machine takes one of these steps.
pub apply-Arrow : (e : Event) (m : IvrManager) → Arrow m.current_state e (apply e m).current_state
unfolding activate_menu reset
apply-Arrow (dtmf d) m = dtmf-Arrow d m
apply-Arrow activates m = activate-Arrow m.current_state m refl
apply-Arrow resets m = to_idle

pub run : IvrManager → List Event → IvrManager
run m [] = m
run m (e ∷ es) = run (apply e m) es

-- The end states: only `reset` leaves them.
abbrev pub IsEnd : State → Type 0
IsEnd s = (s ≡ transfer) ⊎ (s ≡ disconnect)

pub Arrow-IsEnd : {s t : State} {e : Event} → Arrow s e t → e ≢ resets → IsEnd s → t ≡ s
Arrow-IsEnd (to_menu e) n h = ground arith
Arrow-IsEnd (already_active e) n h = refl
Arrow-IsEnd to_idle n h = absurd (n refl)
Arrow-IsEnd (no_digit e) n h = refl
Arrow-IsEnd (to_ai_chat e f) n h = ground arith
Arrow-IsEnd (to_transfer e f) n h = ground arith
Arrow-IsEnd (back_to_menu e f) n h = ground arith
Arrow-IsEnd (to_disconnect e f) n h = ground arith
Arrow-IsEnd (forwarded_in_menu e f g) n h = refl
Arrow-IsEnd (forwarded_in_ai_chat e f) n h = refl
Arrow-IsEnd (ignored e) n h = refl

-- No reset occurs in a history.
abbrev pub NoReset : List Event → Type 0
NoReset [] = Unit {0}
NoReset (e ∷ es) = (e ≢ resets) × NoReset es

-- Once the caller is being transferred or hung up, no key and no activation changes that.
pub run-IsEnd :
    (es : List Event) (m : IvrManager)
    → IsEnd m.current_state
    → NoReset es
    → (run m es).current_state ≡ m.current_state
unfolding run
run-IsEnd [] m h n = refl
run-IsEnd (e ∷ es) m h n =
    let kept = Arrow-IsEnd (apply-Arrow e m) n.0 h in
    run-IsEnd es (apply e m) (rw kept h) n.1 ∙ kept

-- Which keys a history holds.
abbrev pub Pressed : Text → List Event → Type 0
Pressed d [] = ⊥
Pressed d (e ∷ es) = (e ≡ dtmf d) ⊎ Pressed d es

Arrow-to_end :
    {s t : State} {e : Event}
    → Arrow s e t
    → ((t ≡ disconnect) → (s ≡ disconnect) ⊎ (e ≡ dtmf (codes "#")))
      × ((t ≡ transfer) → (s ≡ transfer) ⊎ (e ≡ dtmf (codes "0")))
Arrow-to_end (to_menu e) = (λ h. cc, λ h. cc)
Arrow-to_end (already_active e) = (inl, inl)
Arrow-to_end to_idle = (λ h. cc, λ h. cc)
Arrow-to_end (no_digit e) = (inl, inl)
Arrow-to_end (to_ai_chat e f) = (λ h. cc, λ h. cc)
Arrow-to_end (to_transfer e f) = (λ h. cc, λ h. inr (ap dtmf f))
Arrow-to_end (back_to_menu e f) = (λ h. cc, λ h. cc)
Arrow-to_end (to_disconnect e f) = (λ h. inr (ap dtmf f), λ h. cc)
Arrow-to_end (forwarded_in_menu e f g) = (inl, inl)
Arrow-to_end (forwarded_in_ai_chat e f) = (inl, inl)
Arrow-to_end (ignored e) = (inl, inl)

-- A call is hung up only after the caller has pressed '#', and is transferred only after '0',
-- unless it was so at the start.
pub run_needs_key :
    (es : List Event) (m : IvrManager)
    → ((run m es).current_state ≡ disconnect
        → (m.current_state ≡ disconnect) ⊎ Pressed (codes "#") es)
      × ((run m es).current_state ≡ transfer
          → (m.current_state ≡ transfer) ⊎ Pressed (codes "0") es)
unfolding run
run_needs_key [] m = (inl, inl)
run_needs_key (e ∷ es) m =
    let later = run_needs_key es (apply e m) in
    let now = Arrow-to_end (apply-Arrow e m) in
    (λ h. ground (arith, later.0 h, now.0), λ h. ground (arith, later.1 h, now.1))
