-- ===== src/SessionManager/Retention.antt =====
-- Removed calls: which call a lookup by its PJSIP id takes, and how long a removed call is kept.
use vbgw_pjsip_v.Common.{
  ℕ, ◌-◌, ◌*◌, ◌^◌, ◌<◌, ◌≡◌, ◌≢◌, ◌↔◌, inl, inr, refl, sym, ap, Text, text_eq_refl, Text-cases,
  Option, none, some, List, [], ◌∷◌, ◌++◌, true, false, arith, Bool-cases,
}
use vbgw_pjsip_v.Common.Membership.{In, In-append_left, In-append_right}
use vbgw_pjsip_v.Common.Int.{ℤ}
use vbgw_pjsip_v.SessionManager.{
  CallPtr, SessionManager, Done, is_over, expired, kept, cleanup_zombies_locked, bury, remove_call,
  has_id, find_by_pjsip_id, take_found, take_call_by_pjsip_id, or_null, get_call,
}
use vbgw_pjsip_v.SessionManager.Tables.{Table, find, IsUnique, find-erase, find-erase_ne}

-- Kept for less than 30 seconds.
abbrev pub IsRecent : ℕ → ℕ → Type 0
IsRecent now since = now - since < 30 * 10 ^ 9

is_over_iff : (now since : ℕ) → (is_over now since ≡ false) ↔ IsRecent now since
is_over_iff now since = ground arith

In-kept :
    (now since : ℕ) (call : CallPtr) (zs : List (ℕ × CallPtr))
    → IsRecent now since
    → In (since, call) zs
    → In (since, call) (kept now zs)
unfolding kept
In-kept now since call [] recent h = h
In-kept now since call ((since', call') ∷ zs) recent (inl e) =
    rw ((is_over_iff now since').1 (rw (sym (ap (λ p. p.0) e)) recent)) (inl e)
In-kept now since call ((since', call') ∷ zs) recent (inr m) =
    elim (Bool-cases (is_over now since')) [
      | inl over ↦ rw over (In-kept now since call zs recent m)
      | inr young ↦ rw young (inr (In-kept now since call zs recent m))
    ]

In-expired :
    (now : ℕ) (call : CallPtr) (zs : List (ℕ × CallPtr))
    → In call (expired now zs)
    → (since : ℕ) × In (since, call) zs × (IsRecent now since → ⊥)
unfolding expired
In-expired now call [] h = absurd h
In-expired now call ((since', call') ∷ zs) h = elim (Bool-cases (is_over now since')) [
  | inl over ↦ elim (rw over at h) [
    | inl e ↦ (since', inl (ap (λ c. (since', c)) e), λ recent. ground (arith, over, recent))
    | inr m ↦ let (since, old, long) = In-expired now call zs m in (since, inr old, long)
  ]
  | inr young ↦
      let (since, old, long) = In-expired now call zs (rw young at h) in (since, inr old, long)
]

-- removeCall, for a call of a table without double keys, keeps the removed call and every call
-- removed less than 30 seconds ago, drops only calls removed at least 30 seconds ago, and takes
-- only that call out of the table.
pub remove_call_lem :
    (now : ℕ) (session_id other : Text) (call : CallPtr) (m : SessionManager)
    → IsUnique m.calls
    → find session_id m.calls ≡ some call
    → let done = remove_call now session_id m in
      In (now, call) done.state.zombies
      × ((since : ℕ) (c : CallPtr)
          → IsRecent now since
          → In (since, c) m.zombies
          → In (since, c) done.state.zombies)
      × ((c : CallPtr)
          → In c done.to_delete
          → (since : ℕ) × In (since, c) (m.zombies ++ (now, call) ∷ []) × (IsRecent now since → ⊥))
      × (get_call session_id done.state ≡ none)
      × (session_id ≢ other → get_call other done.state ≡ get_call other m)
unfolding remove_call bury cleanup_zombies_locked get_call
remove_call_lem now session_id other call m u h = rw h (
  In-kept now now call buried (omega arith) (In-append_right (now, call) m.zombies _ (inl refl)),
  λ since c recent old.
      In-kept now since c buried recent (In-append_left (since, c) m.zombies _ old),
  λ c dropped. In-expired now c buried dropped,
  ap or_null (find-erase session_id m.calls u),
  λ ne. ap or_null (find-erase_ne session_id other m.calls ne),
)
  where
    buried : List (ℕ × CallPtr)
    buried = m.zombies ++ (now, call) ∷ []

abbrev Found : ℤ → Table CallPtr → Option (Text × CallPtr) → Type 0
Found id t none = (k : Text) (c : CallPtr) → In (k, c) t → has_id id c ≡ false
Found id t (some (k, c)) = (find k t ≡ some c) × (has_id id c ≡ true)

-- An entry that is found further on is not behind one with the same key.
Found-behind :
    (id : ℤ) (k : Text) (c : CallPtr) (t : Table CallPtr) (found : Option (Text × CallPtr))
    → find k t ≡ none
    → has_id id c ≡ false
    → Found id t found
    → Found id ((k, c) ∷ t) found
unfolding find
Found-behind id k c t none new other absent =
    λ k' c' m. elim m [ inl e ↦ rw (ap (λ p. p.1) e) other | inr m' ↦ absent k' c' m' ]
Found-behind id k c t (some (k', c')) new other h = elim (Text-cases k k') [
  | inl (e, _) ↦ absurd (cc (h.0, rw e at new))
  | inr (_, ne) ↦ rw ne h
]

find_by_pjsip_id_lem :
    (id : ℤ) (t : Table CallPtr) → IsUnique t → Found id t (find_by_pjsip_id id t)
unfolding find_by_pjsip_id find
find_by_pjsip_id_lem id [] u = λ k c h. absurd h
find_by_pjsip_id_lem id ((k, c) ∷ t) u = elim (Bool-cases (has_id id c)) [
  | inl this ↦ rw this (rw (text_eq_refl k) refl, this)
  | inr other ↦
      rw other
        (Found-behind id k c t (find_by_pjsip_id id t) u.0 other (find_by_pjsip_id_lem id t u.1))
]

-- What a lookup by PJSIP id is to do.
abbrev pub Taken : ℕ → ℤ → SessionManager → Option (Text × CallPtr) → Done → Type 0
Taken now id m none done =
    ((k : Text) (c : CallPtr) → In (k, c) m.calls → has_id id c ≡ false)
    × (done.state.calls ≡ m.calls)
Taken now id m (some (k, c)) done =
    (find k m.calls ≡ some c)
    × (has_id id c ≡ true)
    × (get_call k done.state ≡ none)
    × ((other : Text) → k ≢ other → get_call other done.state ≡ get_call other m)
    × In (now, c) done.state.zombies

taken :
    (now : ℕ) (id : ℤ) (m : SessionManager) (found : Option (Text × CallPtr))
    → IsUnique m.calls
    → Found id m.calls found
    → let (call, done) = take_found now found m in Taken now id m call done
unfolding take_found bury cleanup_zombies_locked get_call has_id
taken now id m none u h = (h, refl)
taken now id m (some (k, none)) u h = ground (arith, h.1)
taken now id m (some (k, some c)) u h = (
  h.0,
  h.1,
  ap or_null (find-erase k m.calls u),
  λ other ne. ap or_null (find-erase_ne k other m.calls ne),
  In-kept now now (some c) (m.zombies ++ (now, some c) ∷ []) (omega arith)
      (In-append_right (now, some c) m.zombies _ (inl refl)),
)

-- takeCallByPjsipId, on a table without double keys, takes a call with that PJSIP id out of the
-- table, keeps it among the zombies and leaves every other entry; it takes none, and leaves the
-- table, only where no call has the id.
pub take_call_by_pjsip_id_lem :
    (now : ℕ) (id : ℤ) (m : SessionManager)
    → IsUnique m.calls
    → let (call, done) = take_call_by_pjsip_id now id m in Taken now id m call done
unfolding take_call_by_pjsip_id
take_call_by_pjsip_id_lem now id m u =
    taken now id m (find_by_pjsip_id id m.calls) u (find_by_pjsip_id_lem id m.calls u)
