-- ===== src/RuntimeMetrics/Floor.antt =====
-- `RuntimeMetrics::decrementWithFloor`, with the other threads' writes between its load and its
-- compare-and-swap written out.
use vbgw_pjsip_v.Common.{
  ℕ, ◌-◌, ◌≡◌, ◌⊎◌, inl, inr, refl, ap, ◌<◌, List, [], ◌∷◌, ◌++◌, Option, none, some, Bool, false,
  not, ◌&&◌, arith, ltb, ◌==◌, if◌then◌else◌, Bool-cases,
}

-- One round of the loop: what the others make of the counter before the exchange, and whether the
-- weak exchange fails for no reason.
pub record Attempt : Type 0 where
  pub others : ℕ → ℕ
  pub spurious : Bool

-- The loop, at the value `current` that was last loaded, with the counter at `target`. `none`: the
-- rounds given were not enough. A failed exchange loads the counter anew.
pub exchange_loop : ℕ → ℕ → ℕ → List Attempt → Option ℕ
exchange_loop delta current target [] = if current == 0 then some target else none
exchange_loop delta current target (a ∷ attempts) =
    let found = a.others target in
    let next = if ltb delta current then current - delta else 0 in
    let again = exchange_loop delta found found attempts in
    if current == 0
    then some target
    else if not a.spurious && found == current
    then some next
    else again

unfoldable pub decrement_with_floor : ℕ → ℕ → List Attempt → Option ℕ
unfolding exchange_loop
decrement_with_floor delta target attempts = exchange_loop delta target target attempts

-- The counter after what the others make of it in these rounds, if the loop does not write.
unfoldable pub meanwhile : ℕ → List Attempt → ℕ
meanwhile target [] = target
meanwhile target (a ∷ attempts) = meanwhile (a.others target) attempts

-- The loop finds the counter at 0 after some rounds, and leaves it.
abbrev pub IsZero : ℕ → List Attempt → ℕ → Type 0
IsZero target attempts v =
    (before : List Attempt) × (after : List Attempt) × (attempts ≡ before ++ after)
    × (meanwhile target before ≡ 0)
    × (v ≡ 0)

-- The exchange of some round takes place when the others have done what they do before it, and puts the
-- value that the counter has then, less delta, in its place.
abbrev pub IsExchange : ℕ → ℕ → List Attempt → ℕ → Type 0
IsExchange delta target attempts v =
    (before : List Attempt) × (round : Attempt) × (after : List Attempt) × (attempts
      ≡ before ++ round ∷ after)
    × (0 < round.others (meanwhile target before))
    × (v ≡ round.others (meanwhile target before) - delta)

later :
    (delta target : ℕ) (a : Attempt) (attempts : List Attempt) (v : ℕ)
    → IsZero (a.others target) attempts v ⊎ IsExchange delta (a.others target) attempts v
    → IsZero target (a ∷ attempts) v ⊎ IsExchange delta target (a ∷ attempts) v
unfolding meanwhile
later delta target a attempts v (inl (before, after, e, zero_then, v_zero)) =
    inl (a ∷ before, after, ap (◌∷◌ a) e, zero_then, v_zero)
later delta target a attempts v (inr (before, round, after, e, more, less)) =
    inr (a ∷ before, round, after, ap (◌∷◌ a) e, more, less)

-- However the other threads interfere, the loop, once it returns, either has found the counter at 0
-- and left it, or has replaced the value that the counter had at that moment, with all that the
-- others wrote before, by that value less delta, or by 0 where delta is more.
pub decrement-atomic :
    (delta target : ℕ) (attempts : List Attempt) {v : ℕ}
    → decrement_with_floor delta target attempts ≡ some v
    → IsZero target attempts v ⊎ IsExchange delta target attempts v
unfolding decrement_with_floor exchange_loop meanwhile
decrement-atomic delta target [] h = inl ([], [], refl, ground arith, ground arith)
decrement-atomic delta target (a ∷ attempts) {v} h = elim (Bool-cases (target == 0)) [
  | inl z ↦ inl ([], a ∷ attempts, refl, ground arith, ground arith)
  | inr nz ↦ elim (Bool-cases (not a.spurious && a.others target == target)) [
    | inl hit ↦ inr ([], a, attempts, refl, ground arith, ground arith)
    | inr miss ↦
        later delta target a attempts v
          (decrement-atomic delta (a.others target) attempts {v = v} (ground arith))
  ]
]

-- A round that nobody disturbs.
abbrev pub quiet : Attempt
quiet = record { others = λ n. n; spurious = false }

-- The loop ends at the first round that nobody disturbs, whatever came before.
pub decrement_returns :
    (delta target : ℕ) (disturbed rest : List Attempt)
    → (v : ℕ) × (decrement_with_floor delta target (disturbed ++ quiet ∷ rest) ≡ some v)
unfolding decrement_with_floor exchange_loop
decrement_returns delta target [] rest = elim (Bool-cases (target == 0)) [
  | inl z ↦ (target, ground arith)
  | inr nz ↦ (target - delta, ground arith)
]
decrement_returns delta target (a ∷ disturbed) rest = elim (Bool-cases (target == 0)) [
  | inl z ↦ (target, ground arith)
  | inr nz ↦ elim (Bool-cases (not a.spurious && a.others target == target)) [
    | inl hit ↦ (target - delta, ground arith)
    | inr miss ↦
        let (v, e) = decrement_returns delta (a.others target) disturbed rest in (v, ground arith)
  ]
]
