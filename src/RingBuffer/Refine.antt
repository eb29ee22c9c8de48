-- ===== src/RingBuffer/Refine.antt =====
-- `RingBuffer` against a bounded queue that forgets its oldest bytes.
use vbgw_pjsip_v.Common.{
  ℕ, ◌+◌, ◌-◌, ◌%◌, ◌≤◌, ◌<◌, ◌≡◌, inl, inr, refl, sym, ap, ap₂, ◌∙◌, List, [], ◌++◌, false, arith,
  ltb, ltb→lt, ◌==◌, Bool-cases, length, drop, take, min, drop-append_left, drop-append_right,
  drop-all, length-append, take-all, lt→ltb, if◌then◌else◌, ==_iff,
}
use native.Mathlib.Nat.{mod_self, mod-eq_of_lt}
use native.Mathlib.Decide.{dec_lt}
use vbgw_pjsip_v.RingBuffer.Memory.{
  region, length-spread, length-region, drop-region, take-region, region-spread, region-slice,
  region-add,
}
use vbgw_pjsip_v.RingBuffer.Inv.{
  IsValid, add_size-exact, sub_size-exact, make_room_lem, make_room-IsValid, append_bytes_lem,
  clear-IsValid, length-kept,
}
use vbgw_pjsip_v.RingBuffer.{RingBuffer, make_room, append_bytes, write, read, clear}

-- The bytes that the buffer holds, oldest first.
abbrev pub contents : RingBuffer → List ℕ
contents r = region (length r.buffer) r.buffer r.head r.count

-- The last `n` entries.
abbrev pub last_of : ℕ → List ℕ → List ℕ
last_of n xs = drop (length xs - n) xs

pub length-contents : (r : RingBuffer) → length (contents r) ≡ r.count
length-contents r = length-region (length r.buffer) r.buffer r.head r.count

contents-make_room :
    {r : RingBuffer} (len : ℕ)
    → IsValid r
    → len ≤ length r.buffer
    → contents (make_room r len) ≡ drop (r.count + len - length r.buffer) (contents r)
contents-make_room {r} len v p = rw (make_room_lem v len p) (
    sym (
      drop-region (length r.buffer) r.buffer r.head (r.count + len - length r.buffer) r.count
        v.head_in (omega arith)))

contents-append_bytes :
    {r : RingBuffer} (bytes : List ℕ)
    → IsValid r
    → r.count + length bytes ≤ length r.buffer
    → contents (append_bytes r bytes) ≡ contents r ++ bytes
contents-append_bytes {r} bytes v p =
    rw (append_bytes_lem v bytes p, length-spread (length r.buffer) r.buffer r.tail bytes)
      (region-spread (length r.buffer) bytes r.buffer r.head r.count r.tail (omega arith) v.head_in
        p v.tail_at)

-- A write of at most the capacity drops as many of the oldest bytes as it must.
contents-put :
    {r : RingBuffer} (bytes : List ℕ)
    → IsValid r
    → length bytes ≤ length r.buffer
    → contents (append_bytes (make_room r (length bytes)) bytes)
      ≡ drop (r.count + length bytes - length r.buffer) (contents r) ++ bytes
contents-put {r} bytes v p =
    let m = make_room-IsValid v (length bytes) p in
    contents-append_bytes bytes m.0 (rw m.2 m.1)
    ∙ ap (λ xs. xs ++ bytes) (contents-make_room (length bytes) v p)

-- write leaves the last bytes of all that was held and written, up to the capacity, in a valid
-- buffer.
pub contents-write :
    {r : RingBuffer} (bytes : List ℕ)
    → IsValid r
    → contents (write r bytes) ≡ last_of (length r.buffer) (contents r ++ bytes)
unfolding write clear
contents-write {r} bytes v = elim (Bool-cases (ltb (length r.buffer) (length bytes))) [
  | inl long ↦
      let cap = length r.buffer in
      let kept = drop (length bytes - cap) bytes in
      rw long (
        contents-put {r = clear r} kept (clear-IsValid v)
          (omega (arith, length-kept cap bytes, ltb→lt _ _ long))
        ∙ ap (λ xs. xs ++ kept) (drop-all (0 + length kept - cap) [] (omega arith))
        ∙ ap (λ k. drop k bytes)
            (omega (arith, length-append (contents r) bytes, length-contents r, ltb→lt _ _ long))
        ∙ sym (
            drop-append_right (length (contents r ++ bytes) - cap) (contents r) bytes (
              omega (arith, length-append (contents r) bytes, length-contents r, ltb→lt _ _ long))))
  | inr short ↦ rw short (
      contents-put bytes v (ground arith)
      ∙ sym (
          drop-append_left (r.count + length bytes - length r.buffer) (contents r) bytes
            (ground (arith, length-contents r)))
      ∙ ap (λ k. drop k (contents r ++ bytes))
          (omega (arith, length-append (contents r) bytes, length-contents r)))
]

module _ (r : RingBuffer) (len : ℕ) where
  take-contents : take len (contents r) ≡ region (length r.buffer) r.buffer r.head (min len r.count)
  take-contents = elim (dec_lt r.count len) [
    | yes p ↦
        take-all len (contents r) (omega (arith, length-contents r))
        ∙ ap (region (length r.buffer) r.buffer r.head) (omega arith)
    | no p ↦
        take-region (length r.buffer) r.buffer r.head len r.count (omega arith)
        ∙ ap (region (length r.buffer) r.buffer r.head) (omega arith)
  ]

  drop-contents :
      r.head < length r.buffer
      → drop len (contents r)
        ≡ region
            (length r.buffer)
            r.buffer
            ((r.head + min len r.count) % length r.buffer)
            (r.count - min len r.count)
  drop-contents p = elim (dec_lt r.count len) [
    | yes q ↦
        drop-all len (contents r) (omega (arith, length-contents r))
        ∙ ap (region (length r.buffer) r.buffer ((r.head + min len r.count) % length r.buffer))
            {x = 0} (omega arith)
    | no q ↦
        drop-region (length r.buffer) r.buffer r.head len r.count p (omega arith)
        ∙ ap (λ k. region (length r.buffer) r.buffer ((r.head + k) % length r.buffer) (r.count - k))
            (omega arith)
  ]

rollover : (cap h n : ℕ) → h < cap → cap - h < n → 0 ≡ (h + min n (cap - h)) % cap
rollover cap h n p q = sym (ap (λ k. k % cap) {y = cap} (omega arith) ∙ mod_self cap)

at_most : (n m : ℕ) → n ≤ m → min n m ≡ n
at_most n m p = omega arith

ltb_irrefl : (n : ℕ) → ltb n n ≡ false
ltb_irrefl n = ground arith

-- The two copies of `read` are the oldest `n` bytes.
read_slices :
    {r : RingBuffer} (n : ℕ)
    → IsValid r
    → n ≤ r.count
    → let first = min n (length r.buffer - r.head) in
      let once = take first (drop r.head r.buffer) in
      (if ltb first n then once ++ take (n - first) r.buffer else once)
      ≡ region (length r.buffer) r.buffer r.head n
read_slices {r} n v p = elim (dec_lt (length r.buffer - r.head) n) [
  | yes around ↦ rw (lt→ltb (min n (length r.buffer - r.head)) n (omega arith)) (
      ap₂ ◌++◌
        (sym (
          region-slice (length r.buffer) r.buffer r.head (min n (length r.buffer - r.head))
            (omega arith) (omega arith)))
        (sym (
            region-slice (length r.buffer) r.buffer 0 (n - min n (length r.buffer - r.head))
              (omega arith) (omega arith))
          ∙ ap (λ k. region (length r.buffer) r.buffer k (n - min n (length r.buffer - r.head)))
              (rollover (length r.buffer) r.head n v.head_in around))
      ∙ sym (
          region-add (length r.buffer) r.buffer r.head (min n (length r.buffer - r.head))
            (n - min n (length r.buffer - r.head)) v.head_in)
      ∙ ap (region (length r.buffer) r.buffer r.head) (omega arith))
  | no straight ↦
      rw (at_most n (length r.buffer - r.head) (omega arith), ltb_irrefl n)
        (sym (region-slice (length r.buffer) r.buffer r.head n (omega arith) (omega arith)))
]

-- read takes the oldest bytes of a valid buffer, as many as are asked for and held, in order, and
-- leaves the rest.
pub read_refines :
    {r : RingBuffer} (len : ℕ)
    → IsValid r
    → let (out, r') = read r len in
      (out ≡ take len (contents r)) × (contents r' ≡ drop len (contents r))
unfolding read
read_refines {r} len v =
    rw (take-contents r len, drop-contents r len v.head_in)
      (elim (Bool-cases (min len r.count == 0)) [
        | inl e ↦ rw ((==_iff _ _).0 e) (
          refl,
          ap₂ (region (length r.buffer) r.buffer)
              (sym (mod-eq_of_lt v.head_in) ∙ ap (λ k. k % length r.buffer) (omega arith))
              (omega arith),
        )
        | inr e ↦
            rw
              (
                e,
                sub_size-exact (length r.buffer) r.head (omega arith) (omega arith),
                add_size-exact r.head (min len r.count) (omega arith) (omega arith),
                sub_size-exact r.count (min len r.count) (omega arith) (omega arith),
              )
              (read_slices (min len r.count) v (omega arith), refl)
      ])
