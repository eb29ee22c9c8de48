-- ===== src/RingBuffer/Memory.antt =====
-- `std::memcpy` into a vector, and the bytes of a circular region.
use vbgw_pjsip_v.Common.{
  ℕ, zero, suc, ◌+◌, ◌-◌, ◌%◌, ◌≤◌, ◌<◌, ◌≡◌, ◌≢◌, refl, sym, ap, ap₂, ◌∙◌, List, [], ◌∷◌, ◌++◌,
  arith, length, get_or, set, take, drop, min, length-set, get_or-set_self, get_or-set_ne,
  append-nil, append_assoc, drop-all, Bool-cases, ltb, if◌then◌else◌, inl, inr,
}
use native.Mathlib.Nat.{
  mod-eq_of_lt, mod-eq-sub-mod, mod-add-mod, mod-lt, mod_self, add-zero, zero-add, suc-add,
}
use native.Mathlib.Decide.{dec_lt}

-- `memcpy(buf + i, bytes, n)`.
unfoldable pub memcpy : List ℕ → ℕ → List ℕ → List ℕ
memcpy buf i [] = buf
memcpy buf i (b ∷ bytes) = memcpy (set buf i b) (i + 1) bytes

pub length-memcpy :
    (buf : List ℕ) (i : ℕ) (bytes : List ℕ) → length (memcpy buf i bytes) ≡ length buf
unfolding memcpy
length-memcpy buf i [] = refl
length-memcpy buf i (b ∷ bytes) = length-memcpy (set buf i b) (i + 1) bytes ∙ length-set buf i b

module _ (cap : ℕ) where
  -- The index after `i`, going round at `cap`.
  abbrev pub next : ℕ → ℕ
  next i = (i + 1) % cap

  -- The `n` bytes from index `h` on.
  abbrev pub region : List ℕ → ℕ → ℕ → List ℕ
  region buf h zero = []
  region buf h (suc n) = get_or buf h 0 ∷ region buf (next h) n

  -- The copy that goes round byte by byte.
  pub spread : List ℕ → ℕ → List ℕ → List ℕ
  spread buf i [] = buf
  spread buf i (b ∷ bytes) = spread (set buf i b) (next i) bytes

  pub next_lt : (h : ℕ) → h + 1 < cap → next h ≡ h + 1
  next_lt h p = mod-eq_of_lt p

  pub next_end : (h : ℕ) → h + 1 ≡ cap → next h ≡ 0
  next_end h p = rw p (mod_self cap)

  pub next-add : (h n : ℕ) → (next h + n) % cap ≡ (h + suc n) % cap
  next-add h n = mod-add-mod (h + 1) cap n ∙ ap (λ k. k % cap) (omega arith)

  pub length-region : (buf : List ℕ) (h n : ℕ) → length (region buf h n) ≡ n
  length-region buf h zero = refl
  length-region buf h (suc n) = ap suc (length-region buf (next h) n)

  pub length-spread :
      (buf : List ℕ) (i : ℕ) (bytes : List ℕ) → length (spread buf i bytes) ≡ length buf
  unfolding spread
  length-spread buf i [] = refl
  length-spread buf i (b ∷ bytes) = length-spread (set buf i b) (next i) bytes ∙ length-set buf i b

  -- A region splits at any point.
  pub region-add :
      (buf : List ℕ) (h m n : ℕ)
      → h < cap
      → region buf h (m + n) ≡ region buf h m ++ region buf ((h + m) % cap) n
  region-add buf h zero n p = rw (add-zero, mod-eq_of_lt p, zero-add) refl
  region-add buf h (suc m) n p = rw suc-add (
      ap (◌∷◌ (get_or buf h 0)) (
        region-add buf (next h) m n (mod-lt (h + 1) (omega arith))
        ∙ ap (λ k. region buf (next h) m ++ region buf k n) (next-add h m)))

  -- Dropping from a region moves its start.
  pub drop-region :
      (buf : List ℕ) (h k n : ℕ)
      → h < cap
      → k ≤ n
      → drop k (region buf h n) ≡ region buf ((h + k) % cap) (n - k)
  drop-region buf h zero n p q = rw (add-zero, mod-eq_of_lt p) (ap (region buf h) (omega arith))
  drop-region buf h (suc k) zero p q = absurd (omega arith)
  drop-region buf h (suc k) (suc n) p q =
      drop-region buf (next h) k n (mod-lt (h + 1) (omega arith)) (omega arith)
      ∙ ap₂ (region buf) (next-add h k) (omega arith)

  pub take-region : (buf : List ℕ) (h k n : ℕ) → k ≤ n → take k (region buf h n) ≡ region buf h k
  take-region buf h zero n q = refl
  take-region buf h (suc k) zero q = absurd (omega arith)
  take-region buf h (suc k) (suc n) q =
      ap (◌∷◌ (get_or buf h 0)) (take-region buf (next h) k n (omega arith))

  -- Fewer than `cap` steps round the buffer do not come back to the start.
  no_lap : (h k : ℕ) → h < cap → k + 1 < cap → (h + suc k) % cap ≢ h
  no_lap h k p q = elim (dec_lt (h + suc k) cap) [
    | yes r ↦ omega (arith, mod-eq_of_lt r)
    | no r ↦ omega (
      arith,
      mod-eq-sub-mod {n = h + suc k} {m = cap} (omega arith),
      mod-eq_of_lt {n = h + suc k - cap} {m = cap} (omega arith),
    )
  ]

  -- A byte written just past a region extends it.
  region-set :
      (buf : List ℕ) (b n h i : ℕ)
      → cap ≤ length buf
      → h < cap
      → n < cap
      → i ≡ (h + n) % cap
      → region (set buf i b) h (suc n) ≡ region buf h n ++ b ∷ []
  region-set buf b zero h i s p q e =
      rw (e, add-zero, mod-eq_of_lt p, get_or-set_self buf h b 0 (omega arith))
  region-set buf b (suc n) h i s p q e =
      ap₂ ◌∷◌ (get_or-set_ne buf b 0 (rw e (no_lap h n p (omega arith)))) (
        region-set buf b n (next h) i s (mod-lt (h + 1) (omega arith)) (omega arith)
          (e ∙ sym (next-add h n)))

  -- So the bytes of a copy that goes round follow the region that stood before them.
  pub region-spread :
      (bytes buf : List ℕ) (h n i : ℕ)
      → cap ≤ length buf
      → h < cap
      → n + length bytes ≤ cap
      → i ≡ (h + n) % cap
      → region (spread buf i bytes) h (n + length bytes) ≡ region buf h n ++ bytes
  unfolding spread
  region-spread [] buf h n i s p q e = rw (append-nil, add-zero) refl
  region-spread (b ∷ bytes) buf h n i s p q e =
      ap (region (spread (set buf i b) (next i) bytes) h) (omega arith)
      ∙ region-spread bytes (set buf i b) h (suc n) (next i) (rw length-set s) p (omega arith)
          next_i
      ∙ ap (λ k. k ++ bytes) (region-set buf b n h i s p (omega arith) e)
      ∙ append_assoc (region buf h n) (b ∷ []) bytes
    where
      next_i : next i ≡ (h + suc n) % cap
      next_i = rw (e, mod-add-mod) (ap (λ k. k % cap) (omega arith))

  -- A copy that ends before the end of the buffer does not go round.
  memcpy-eq-spread :
      (bytes buf : List ℕ) (i : ℕ)
      → i + length bytes ≤ cap
      → memcpy buf i bytes ≡ spread buf i bytes
  unfolding spread memcpy
  memcpy-eq-spread [] buf i p = refl
  memcpy-eq-spread (b ∷ []) buf i p = refl
  memcpy-eq-spread (b ∷ c ∷ bytes) buf i p =
      memcpy-eq-spread (c ∷ bytes) (set buf i b) (i + 1) (omega arith)
      ∙ ap (λ j. spread (set buf i b) j (c ∷ bytes)) (sym (next_lt i (omega arith)))

  -- Two copies, up to the end of the buffer and then from its start, are one that goes round.
  pub memcpy_twice :
      (bytes buf : List ℕ) (first i : ℕ)
      → i < cap
      → length bytes ≤ cap
      → first ≡ min (length bytes) (cap - i)
      → memcpy (memcpy buf i (take first bytes)) 0 (drop first bytes) ≡ spread buf i bytes
  unfolding spread memcpy
  memcpy_twice [] buf zero i p q e = refl
  memcpy_twice [] buf (suc first) i p q e = absurd (omega arith)
  memcpy_twice (b ∷ bytes) buf zero i p q e = absurd (omega arith)
  memcpy_twice (b ∷ bytes) buf (suc first) i p q e = elim (dec_lt (i + 1) cap) [
    | yes r ↦
        memcpy_twice bytes (set buf i b) first (i + 1) r (omega arith) (omega arith)
        ∙ ap (λ j. spread (set buf i b) j bytes) (sym (next_lt i r))
    | no r ↦
        ap (λ f. memcpy (memcpy (set buf i b) (i + 1) (take f bytes)) 0 (drop f bytes)) {x = first}
          {y = 0} (omega arith)
        ∙ memcpy-eq-spread bytes (set buf i b) 0 (omega arith)
        ∙ ap (λ j. spread (set buf i b) j bytes) (sym (next_end i (omega arith)))
  ]

  get_or-drop :
      (buf : List ℕ) (h n : ℕ)
      → h < length buf
      → take (suc n) (drop h buf) ≡ get_or buf h 0 ∷ take n (drop (suc h) buf)
  get_or-drop [] h n p = absurd (omega arith)
  get_or-drop (b ∷ buf) zero n p = refl
  get_or-drop (b ∷ buf) (suc h) n p = get_or-drop buf h n (omega arith)

  -- A region that does not go round is a slice.
  pub region-slice :
      (buf : List ℕ) (h n : ℕ)
      → cap ≤ length buf
      → h + n ≤ cap
      → region buf h n ≡ take n (drop h buf)
  region-slice buf h zero s q = refl
  region-slice buf h (suc zero) s q = sym (get_or-drop buf h 0 (omega arith))
  region-slice buf h (suc (suc n)) s q =
      ap (◌∷◌ (get_or buf h 0)) (
        ap (λ j. region buf j (suc n)) (next_lt h (omega arith) ∙ omega arith)
        ∙ region-slice buf (suc h) (suc n) s (omega arith))
      ∙ sym (get_or-drop buf h (suc n) (omega arith))

  -- The code makes the second copy only where the first left something over.
  pub memcpy_pair :
      (bytes buf : List ℕ) (first i : ℕ)
      → i < cap
      → length bytes ≤ cap
      → first ≡ min (length bytes) (cap - i)
      → (if ltb first (length bytes)
          then memcpy (memcpy buf i (take first bytes)) 0 (drop first bytes)
          else memcpy buf i (take first bytes))
        ≡ spread buf i bytes
  unfolding memcpy
  memcpy_pair bytes buf first i p q e = elim (Bool-cases (ltb first (length bytes))) [
    | inl more ↦ rw more (memcpy_twice bytes buf first i p q e)
    | inr done ↦ rw done (
        sym (ap (memcpy (memcpy buf i (take first bytes)) 0) (drop-all first bytes (ground arith)))
        ∙ memcpy_twice bytes buf first i p q e)
  ]
