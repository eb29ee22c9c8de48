-- ===== src/RingBuffer/Inv.antt =====
-- The representation invariant of `RingBuffer`, and that every method keeps it.
use vbgw_pjsip_v.Common.{
  ℕ, ◌+◌, ◌-◌, ◌%◌, ◌≤◌, ◌<◌, ◌≡◌, inl, inr, refl, sym, ap, ◌∙◌, List, some, arith, ltb, ltb→lt,
  ◌==◌, Bool-cases, length, drop, min, length-replicate, length-drop,
}
use native.Mathlib.Nat.{mod-eq_of_lt, mod-add-mod, mod-lt}
use native.Mathlib.Decide.{dec_lt}
use vbgw_pjsip_v.RingBuffer.Memory.{spread, memcpy_pair, length-spread}
use vbgw_pjsip_v.RingBuffer.{
  RingBuffer, max_size, add_size, sub_size, create, make_room, append_bytes, write, read, clear,
}

pub record IsValid (r : RingBuffer) : Type 0 where
  pub nonempty : 0 < length r.buffer
  pub small : length r.buffer ≤ max_size
  pub head_in : r.head < length r.buffer
  pub fits : r.count ≤ length r.buffer
  pub tail_at : r.tail ≡ (r.head + r.count) % length r.buffer

pub tail_in : {r : RingBuffer} → IsValid r → r.tail < length r.buffer
tail_in {r} v = rw v.tail_at (mod-lt (r.head + r.count) v.nonempty)

-- The constructor, where it does not throw, gives a valid, empty buffer of the size asked for.
pub create-IsValid :
    (n : ℕ) {r : RingBuffer} → create n ≡ some r → IsValid r × (length r.buffer ≡ n) × (r.count ≡ 0)
unfolding create
create-IsValid n h = grind (arith, length-replicate {A = ℕ} n 0)

-- Between two lines of code `size_t` sums and differences do not wrap.
pub add_size-exact : (a b : ℕ) → a ≤ max_size → b ≤ max_size → add_size a b ≡ a + b
add_size-exact a b p q = omega arith

pub sub_size-exact : (a b : ℕ) → a ≤ max_size + max_size → b ≤ a → sub_size a b ≡ a - b
sub_size-exact a b p q = omega arith

-- Advancing the head by `k` bytes keeps the place of the tail.
pub tail_kept :
    (n head count k : ℕ) → k ≤ count → (head + count) % n ≡ ((head + k) % n + (count - k)) % n
tail_kept n head count k p =
    ap (λ j. j % n) (omega arith) ∙ sym (mod-add-mod (head + k) n (count - k))

module _ {r : RingBuffer} (v : IsValid r) where
  -- `make_room` drops the oldest bytes: as many as do not fit.
  pub make_room_lem :
      (len : ℕ)
      → len ≤ length r.buffer
      → let k = r.count + len - length r.buffer in
        make_room r len ≡ record r { head = (r.head + k) % length r.buffer; count = r.count - k }
  unfolding make_room
  make_room_lem len p = elim (dec_lt (length r.buffer) (r.count + len)) [
    | yes over ↦ ground (
      arith,
      add_size-exact r.count len,
      sub_size-exact (r.count + len) (length r.buffer),
      add_size-exact r.head (r.count + len - length r.buffer),
      sub_size-exact r.count (r.count + len - length r.buffer),
    )
    | no fit ↦ ground (arith, add_size-exact r.count len, mod-eq_of_lt v.head_in)
  ]

  -- The two copies are one that goes round, from the tail on.
  pub append_bytes_lem :
      (bytes : List ℕ)
      → r.count + length bytes ≤ length r.buffer
      → append_bytes r bytes ≡ record r {
        buffer = spread (length r.buffer) r.buffer r.tail bytes;
        tail = (r.tail + length bytes) % length r.buffer;
        count = r.count + length bytes;
      }
  unfolding append_bytes
  append_bytes_lem bytes p = rw (
    sub_size-exact (length r.buffer) r.tail (omega arith) (omega (arith, tail_in v)),
    add_size-exact r.count (length bytes) (omega arith) (omega arith),
    add_size-exact r.tail (length bytes) (omega (arith, tail_in v)) (omega arith),
    memcpy_pair (length r.buffer) bytes r.buffer (min (length bytes) (length r.buffer - r.tail))
        r.tail (tail_in v) (omega arith) refl,
  )

  -- Making room keeps the invariant, and leaves `len` bytes free.
  pub make_room-IsValid :
      (len : ℕ)
      → len ≤ length r.buffer
      → IsValid (make_room r len)
        × ((make_room r len).count + len ≤ length r.buffer)
        × ((make_room r len).buffer ≡ r.buffer)
  make_room-IsValid len p = rw (make_room_lem len p) (
    record {
      nonempty = v.nonempty;
      small = v.small;
      head_in = mod-lt (r.head + (r.count + len - length r.buffer)) v.nonempty;
      fits = omega arith;
      tail_at =
          v.tail_at
          ∙ tail_kept (length r.buffer) r.head r.count (r.count + len - length r.buffer)
              (omega arith);
    },
    omega arith,
    refl,
  )

  -- Appending bytes that fit keeps the invariant.
  pub append_bytes-IsValid :
      (bytes : List ℕ)
      → r.count + length bytes ≤ length r.buffer
      → IsValid (append_bytes r bytes) × (length (append_bytes r bytes).buffer ≡ length r.buffer)
  append_bytes-IsValid bytes p = rw (append_bytes_lem bytes p) (valid, same)
    where
      same : length (spread (length r.buffer) r.buffer r.tail bytes) ≡ length r.buffer
      same = length-spread (length r.buffer) r.buffer r.tail bytes

      valid : IsValid (record r {
        buffer = spread (length r.buffer) r.buffer r.tail bytes;
        tail = (r.tail + length bytes) % length r.buffer;
        count = r.count + length bytes;
      })
      valid = record {
        nonempty = omega (arith, same);
        small = omega (arith, same);
        head_in = omega (arith, same);
        fits = omega (arith, same);
        tail_at = rw (same, v.tail_at, mod-add-mod) (ap (λ j. j % length r.buffer) (omega arith));
      }

  pub clear-IsValid : IsValid (clear r)
  unfolding clear
  clear-IsValid = record {
    nonempty = v.nonempty;
    small = v.small;
    head_in = v.nonempty;
    fits = omega arith;
    tail_at = sym (mod-eq_of_lt v.nonempty);
  }

  pub read-IsValid :
      (len : ℕ) → IsValid (read r len).1 × (length (read r len).1.buffer ≡ length r.buffer)
  unfolding read
  read-IsValid len = elim (Bool-cases (min len r.count == 0)) [
    | inl none_left ↦ rw none_left (v, refl)
    | inr some_left ↦
        rw
          (
            some_left,
            add_size-exact r.head (min len r.count) (omega arith) (omega arith),
            sub_size-exact r.count (min len r.count) (omega arith) (omega arith),
          )
          (
            record {
              nonempty = v.nonempty;
              small = v.small;
              head_in = mod-lt (r.head + min len r.count) v.nonempty;
              fits = omega arith;
              tail_at =
                  v.tail_at
                  ∙ tail_kept (length r.buffer) r.head r.count (min len r.count) (omega arith);
            },
            refl,
          )
  ]

-- One write of at most the capacity.
pub put-IsValid :
    {r : RingBuffer} (bytes : List ℕ)
    → IsValid r
    → length bytes ≤ length r.buffer
    → let w = append_bytes (make_room r (length bytes)) bytes in
      IsValid w × (length w.buffer ≡ length r.buffer)
put-IsValid {r} bytes v p =
    let m = make_room-IsValid v (length bytes) p in
    let a = append_bytes-IsValid m.0 bytes (rw m.2 m.1) in (a.0, a.1 ∙ ap length m.2)

-- What is left of the bytes of a long write fits exactly.
pub length-kept :
    (n : ℕ) (bytes : List ℕ) → n ≤ length bytes → length (drop (length bytes - n) bytes) ≡ n
length-kept n bytes p = omega (arith, length-drop (length bytes - n) bytes)

-- Writing any number of bytes keeps the invariant and the capacity.
pub write-IsValid :
    {r : RingBuffer} (bytes : List ℕ)
    → IsValid r
    → IsValid (write r bytes) × (length (write r bytes).buffer ≡ length r.buffer)
unfolding write clear
write-IsValid {r} bytes v = elim (Bool-cases (ltb (length r.buffer) (length bytes))) [
  | inl long ↦ rw long (
      put-IsValid {r = clear r} (drop (length bytes - length r.buffer) bytes) (clear-IsValid v)
        (omega (arith, length-kept (length r.buffer) bytes, ltb→lt _ _ long)))
  | inr short ↦ rw short (put-IsValid bytes v (ground arith))
]
