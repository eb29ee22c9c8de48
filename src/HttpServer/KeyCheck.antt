-- ===== src/HttpServer/KeyCheck.antt =====
-- `constantTimeEquals` decides equality.
use vbgw_pjsip_v.Common.{
  ℕ, zero, suc, ◌*◌, ◌/◌, ◌<◌, ◌≡◌, ◌↔◌, refl, ap₂, Text, [], ◌∷◌, true, arith, ==_iff, length,
}
use vbgw_pjsip_v.HttpServer.Validate.{xor, or, diff_loop, constant_time_equals}

-- How many numbers have `n` bits.
abbrev width : ℕ → ℕ
width zero = 1
width (suc n) = 2 * width n

xor-lt : (n a b : ℕ) → xor n a b < width n
unfolding xor
xor-lt zero a b = omega arith
xor-lt (suc n) a b = ground (arith, xor-lt n (a / 2) (b / 2))

xor_self : (n a : ℕ) → xor n a a ≡ 0
unfolding xor
xor_self zero a = refl
xor_self (suc n) a = ground (arith, xor_self n (a / 2))

xor_zero : (n a b : ℕ) → a < width n → b < width n → xor n a b ≡ 0 → a ≡ b
unfolding xor
xor_zero zero a b p q h = omega arith
xor_zero (suc n) a b p q h = ground (arith, xor_zero n (a / 2) (b / 2))

or-lt : (n a b : ℕ) → or n a b < width n
unfolding or
or-lt zero a b = omega arith
or-lt (suc n) a b = ground (arith, or-lt n (a / 2) (b / 2))

or_zero : (n a b : ℕ) → a < width n → b < width n → (or n a b ≡ 0) ↔ ((a ≡ 0) × (b ≡ 0))
unfolding or
or_zero zero a b p q = ground arith
or_zero (suc n) a b p q = ground (arith, or_zero n (a / 2) (b / 2))

-- A text of bytes.
abbrev pub IsBytes : Text → Type 0
IsBytes [] = Unit {0}
IsBytes (c ∷ cs) = (c < 256) × IsBytes cs

loop_zero : (lhs rhs : Text) (diff : ℕ) → diff < 256 → diff_loop lhs rhs diff ≡ 0 → diff ≡ 0
unfolding diff_loop
loop_zero [] [] diff p h = h
loop_zero (a ∷ lhs) [] diff p h = ground (
  arith,
  loop_zero lhs [] (or 8 diff (xor 8 a 0)) (or-lt 8 diff (xor 8 a 0)) h,
  or_zero 8 diff (xor 8 a 0) p (xor-lt 8 a 0),
)
loop_zero [] (b ∷ rhs) diff p h = ground (
  arith,
  loop_zero [] rhs (or 8 diff (xor 8 0 b)) (or-lt 8 diff (xor 8 0 b)) h,
  or_zero 8 diff (xor 8 0 b) p (xor-lt 8 0 b),
)
loop_zero (a ∷ lhs) (b ∷ rhs) diff p h = ground (
  arith,
  loop_zero lhs rhs (or 8 diff (xor 8 a b)) (or-lt 8 diff (xor 8 a b)) h,
  or_zero 8 diff (xor 8 a b) p (xor-lt 8 a b),
)

loop_sound :
    (lhs rhs : Text) (diff : ℕ)
    → IsBytes lhs
    → IsBytes rhs
    → diff < 256
    → length lhs ≡ length rhs
    → diff_loop lhs rhs diff ≡ 0
    → lhs ≡ rhs
unfolding diff_loop
loop_sound [] [] diff l r p e h = refl
loop_sound (a ∷ lhs) [] diff l r p e h = absurd (omega (arith, e))
loop_sound [] (b ∷ rhs) diff l r p e h = absurd (omega (arith, e))
loop_sound (a ∷ lhs) (b ∷ rhs) diff l r p e h =
    let next = or 8 diff (xor 8 a b) in
    let zeros =
      (or_zero 8 diff (xor 8 a b) p (xor-lt 8 a b)).0
        (loop_zero lhs rhs next (or-lt 8 diff (xor 8 a b)) h) in
    ap₂ ◌∷◌ (xor_zero 8 a b l.0 r.0 zeros.1)
      (loop_sound lhs rhs next l.1 r.1 (or-lt 8 diff (xor 8 a b)) (omega (arith, e)) h)

loop_self : (s : Text) → diff_loop s s 0 ≡ 0
unfolding diff_loop
loop_self [] = refl
loop_self (c ∷ s) =
    rw (xor_self 8 c, (or_zero 8 0 0 (omega arith) (omega arith)).1 (refl, refl)) (loop_self s)

-- For keys of fewer than 256 bytes constantTimeEquals holds exactly when they are equal.
pub constant_time_equals_iff :
    (lhs rhs : Text)
    → IsBytes lhs
    → IsBytes rhs
    → length lhs < 256
    → length rhs < 256
    → (constant_time_equals lhs rhs ≡ true) ↔ (lhs ≡ rhs)
unfolding constant_time_equals
constant_time_equals_iff lhs rhs l r p q = (
  λ h.
      let zero_diff = (==_iff _ _).0 h in
      let start = xor 8 (length lhs) (length rhs) in
      let small = xor-lt 8 (length lhs) (length rhs) in
      loop_sound lhs rhs start l r small
        (xor_zero 8 (length lhs) (length rhs) p q (loop_zero lhs rhs start small zero_diff))
        zero_diff,
  λ e. rw (e, xor_self 8 (length rhs), loop_self rhs) refl,
)
