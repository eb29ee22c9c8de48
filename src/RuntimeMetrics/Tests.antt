-- ===== src/RuntimeMetrics/Tests.antt =====
-- Runs of the compare-and-swap loop.
use vbgw_pjsip_v.Common.{◌+◌, ◌≡◌, ◌⊎◌, refl, [], ◌∷◌, some, false}
use vbgw_pjsip_v.RuntimeMetrics.Floor.{
  Attempt, decrement_with_floor, IsZero, IsExchange, decrement-atomic, quiet,
}

-- Another thread adds 10 first.
abbrev busy : Attempt
busy = record { others = λ n. n + 10; spurious = false }

decrement_busy : decrement_with_floor 3 2 (busy ∷ quiet ∷ []) ≡ some 9
unfolding decrement_with_floor
decrement_busy = refl

decrement-atomic_example : IsZero 2 (busy ∷ quiet ∷ []) 9 ⊎ IsExchange 3 2 (busy ∷ quiet ∷ []) 9
decrement-atomic_example = decrement-atomic 3 2 (busy ∷ quiet ∷ []) decrement_busy
