-- ===== src/IvrManager/Rows.antt =====
-- Which states and events the diagram of src/ivr/IvrManager.h names, and what the code does with the
-- others.
use vbgw_pjsip_v.Common.{
  ◌≡◌, ◌≢◌, ◌⊎◌, inl, inr, refl, arith, Text, codes, Text-cases, Option, none, some, [], ◌∷◌,
  Bool-cases, ◌&&◌, leb, true,
}
use vbgw_pjsip_v.IvrManager.{State, idle, menu, ai_chat, transfer, disconnect, IvrManager}
use vbgw_pjsip_v.IvrManager.Graph.{Event, dtmf, activates, resets, apply}
use vbgw_pjsip_v.IvrManager.Diagram.{
  react, Diagram, IsDigit, initialised, menu_one, menu_zero, menu_star, menu_hash, menu_digit,
  ai_chat_zero, ai_chat_star, ai_chat_hash, ai_chat_digit, transfer_ignores, Goes, react-Goes,
  apply-Diagram,
}

IsDigit-cases : (d : Text) → IsDigit d ⊎ (IsDigit d → ⊥)
IsDigit-cases [] = inr (λ (n, h, k, e). cc)
IsDigit-cases (c ∷ []) = elim (Bool-cases (leb 50 c && leb c 57)) [
  | inl within ↦ inl (c, ground (arith, within), ground (arith, within), refl)
  | inr outside ↦ inr (λ (n, h, k, e). ground (arith, outside, h, k, e))
]
IsDigit-cases (c ∷ c' ∷ cs) = inr (λ (n, h, k, e). ground (arith, e))

-- The keys that the menu and the chat share, as rows name them.
data Key (d : Text) : Type 0 where
  zero_key : d ≡ codes "0" → Key d
  star_key : d ≡ codes "*" → Key d
  hash_key : d ≡ codes "#" → Key d
  digit_key : IsDigit d → Key d
  other_key : d ≢ codes "0" → d ≢ codes "*" → d ≢ codes "#" → (IsDigit d → ⊥) → Key d

Key-cases : (d : Text) → Key d
Key-cases d = elim (Text-cases d (codes "0")) [
  | inl (e, t) ↦ zero_key e
  | inr (n0, f0) ↦ elim (Text-cases d (codes "*")) [
    | inl (e, t) ↦ star_key e
    | inr (ns, fs) ↦ elim (Text-cases d (codes "#")) [
      | inl (e, t) ↦ hash_key e
      | inr (nh, fh) ↦ elim (IsDigit-cases d) [
        | inl digit ↦ digit_key digit
        | inr no_digit ↦ other_key n0 ns nh no_digit
      ]
    ]
  ]
]

-- What the rows name.
abbrev IsNamed : State → Event → Type 0
IsNamed idle activates = Unit {0}
IsNamed menu (dtmf d) =
    (d ≡ codes "1") ⊎ (d ≡ codes "0") ⊎ (d ≡ codes "*") ⊎ (d ≡ codes "#") ⊎ IsDigit d
IsNamed ai_chat (dtmf d) = (d ≡ codes "0") ⊎ (d ≡ codes "*") ⊎ (d ≡ codes "#") ⊎ IsDigit d
IsNamed transfer (dtmf d) = Unit {0}
IsNamed _ _ = ⊥

row-IsNamed : {s t : State} {e : Event} {f : Option Text} → Diagram s e t f → IsNamed s e
row-IsNamed initialised = tt
row-IsNamed menu_one = inl refl
row-IsNamed menu_zero = inr (inl refl)
row-IsNamed menu_star = inr (inr (inl refl))
row-IsNamed menu_hash = inr (inr (inr (inl refl)))
row-IsNamed (menu_digit h) = inr (inr (inr (inr h)))
row-IsNamed ai_chat_zero = inl refl
row-IsNamed ai_chat_star = inr (inl refl)
row-IsNamed ai_chat_hash = inr (inr (inl refl))
row-IsNamed (ai_chat_digit h) = inr (inr (inr h))
row-IsNamed transfer_ignores = tt

-- A row for a state and an event.
abbrev Row : State → Event → Type 0
Row s e = (t : State) × (f : Option Text) × Diagram s e t f

menu-Row : (d : Text) → Row menu (dtmf d) ⊎ (IsNamed menu (dtmf d) → ⊥)
menu-Row d = elim (Text-cases d (codes "1")) [
  | inl (e, t) ↦ inl (ai_chat, none, rw e menu_one)
  | inr (n1, f1) ↦ elim (Key-cases d) [
    | zero_key e ↦ inl (transfer, none, rw e menu_zero)
    | star_key e ↦ inl (menu, none, rw e menu_star)
    | hash_key e ↦ inl (disconnect, none, rw e menu_hash)
    | digit_key h ↦ inl (menu, some d, menu_digit h)
    | other_key n0 ns nh no_digit ↦ inr (λ h. ground (arith, h, n1, n0, ns, nh, no_digit))
  ]
]

ai_chat-Row : (d : Text) → Row ai_chat (dtmf d) ⊎ (IsNamed ai_chat (dtmf d) → ⊥)
ai_chat-Row d = elim (Key-cases d) [
  | zero_key e ↦ inl (transfer, none, rw e ai_chat_zero)
  | star_key e ↦ inl (menu, none, rw e ai_chat_star)
  | hash_key e ↦ inl (disconnect, none, rw e ai_chat_hash)
  | digit_key h ↦ inl (ai_chat, some d, ai_chat_digit h)
  | other_key n0 ns nh no_digit ↦ inr (λ h. ground (arith, h, n0, ns, nh, no_digit))
]

Row-cases : (s : State) (e : Event) → Row s e ⊎ (IsNamed s e → ⊥)
Row-cases idle activates = inl (menu, none, initialised)
Row-cases menu (dtmf d) = menu-Row d
Row-cases ai_chat (dtmf d) = ai_chat-Row d
Row-cases transfer (dtmf d) = inl (transfer, none, transfer_ignores)
Row-cases idle (dtmf d) = inr (λ h. h)
Row-cases disconnect (dtmf d) = inr (λ h. h)
Row-cases menu activates = inr (λ h. h)
Row-cases ai_chat activates = inr (λ h. h)
Row-cases transfer activates = inr (λ h. h)
Row-cases disconnect activates = inr (λ h. h)
Row-cases idle resets = inr (λ h. h)
Row-cases menu resets = inr (λ h. h)
Row-cases ai_chat resets = inr (λ h. h)
Row-cases transfer resets = inr (λ h. h)
Row-cases disconnect resets = inr (λ h. h)

-- A row names the event in the state, and the object takes it.
abbrev pub TakesRow : IvrManager → Event → Type 0
TakesRow m e =
    (t : State) × (f : Option Text) × Diagram m.current_state e t f × Goes t f (react e m)

-- No row names it, and the object stays in its state or is reset.
abbrev pub HasNoRow : IvrManager → Event → Type 0
HasNoRow m e =
    ((t : State) (f : Option Text) → Diagram m.current_state e t f → ⊥)
    × (((apply e m).current_state ≡ m.current_state)
        ⊎ ((e ≡ resets) × ((apply e m).current_state ≡ idle)))

unnamed : (m : IvrManager) (e : Event) → (IsNamed m.current_state e → ⊥) → HasNoRow m e
unnamed m e absent = (
  λ t f row. absent (row-IsNamed row),
  elim (apply-Diagram e m) [
    | inl same ↦ inl same
    | inr (inl reset) ↦ inr reset
    | inr (inr (f, row)) ↦ absurd (absent (row-IsNamed row))
  ],
)

-- With the call-back for digits registered, where a row of the diagram of the header names an event
-- in the state, the object goes to the row's next state and forwards the row's digit, or nothing;
-- where no row does, it stays in its state, or a reset takes it to the idle state.
pub react_by_diagram :
    (m : IvrManager) (e : Event) → m.on_dtmf_forward ≡ true → TakesRow m e ⊎ HasNoRow m e
react_by_diagram m e set = elim (Row-cases m.current_state e) [
  | inl (t, f, row) ↦ inl (t, f, row, react-Goes m e t f set row)
  | inr absent ↦ inr (unnamed m e absent)
]
