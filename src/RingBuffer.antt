-- ===== src/RingBuffer.antt =====
-- src/utils/RingBuffer.h: the byte FIFO that holds text-to-speech audio. Each method runs under the
-- class's mutex, so it is one step; a method that updates the object returns the new one.
pub mod Memory
pub mod Inv
pub mod Refine
pub mod Calls
mod Tests
use vbgw_pjsip_v.Common.{
  ℕ, ◌+◌, ◌-◌, ◌%◌, ◌^◌, min, List, [], ◌++◌, Option, none, some, ltb, ◌==◌, if◌then◌else◌, length,
  take, drop, replicate,
}
use Memory.{memcpy}

-- The private fields of `RingBuffer`, less its mutex.
pub record RingBuffer : Type 0 where
  pub buffer : List ℕ
  pub head : ℕ
  pub tail : ℕ
  pub count : ℕ

-- `size_t` addition and subtraction wrap.
abbrev pub add_size : ℕ → ℕ → ℕ
add_size a b = (a + b) % 2 ^ 64

abbrev pub sub_size : ℕ → ℕ → ℕ
sub_size a b = (a + 2 ^ 64 - b) % 2 ^ 64

-- `std::vector<uint8_t>::max_size()` is PTRDIFF_MAX: a longer vector throws `std::length_error`.
abbrev pub max_size : ℕ
max_size = 2 ^ 63 - 1

-- The constructor. `none` stands for the exception: `std::length_error` of the vector, or
-- `std::invalid_argument` for size 0.
unfoldable pub create : ℕ → Option RingBuffer
create size =
    if ltb max_size size
    then none
    else if size == 0
    then none
    else some (record { buffer = replicate size 0; head = 0; tail = 0; count = 0 })

-- `size_t overflow = …` and the `if` that drops the oldest bytes.
pub make_room : RingBuffer → ℕ → RingBuffer
make_room r len =
    let size = length r.buffer in
    let total = add_size r.count len in
    let overflow = if ltb size total then sub_size total size else 0 in
    if ltb 0 overflow
    then record r { head = add_size r.head overflow % size; count = sub_size r.count overflow }
    else r

-- The two copies, then `tail_` and `count_`.
pub append_bytes : RingBuffer → List ℕ → RingBuffer
append_bytes r bytes =
    let size = length r.buffer in
    let len = length bytes in
    let first = min len (sub_size size r.tail) in
    let once = memcpy r.buffer r.tail (take first bytes) in
    record r {
      buffer = if ltb first len then memcpy once 0 (drop first bytes) else once;
      tail = add_size r.tail len % size;
      count = add_size r.count len;
    }

-- `write(data, len)`: the list is the `len` bytes at `data`.
unfoldable pub write : RingBuffer → List ℕ → RingBuffer
write r bytes =
    let size = length r.buffer in
    let len = length bytes in
    if ltb size len
    then (let kept = drop (len - size) bytes in
        append_bytes (make_room (record r { head = 0; tail = 0; count = 0 }) (length kept)) kept)
    else append_bytes (make_room r len) bytes

-- `read(data, len)`: the bytes that reach `data` (their number is the result), and the new state.
unfoldable pub read : RingBuffer → ℕ → List ℕ × RingBuffer
read r len =
    let size = length r.buffer in
    let available = min len r.count in
    let first = min available (sub_size size r.head) in
    let once = take first (drop r.head r.buffer) in
    if available == 0 then ([], r) else (
      if ltb first available then once ++ take (available - first) r.buffer else once,
      record r { head = add_size r.head available % size; count = sub_size r.count available },
    )

unfoldable pub clear : RingBuffer → RingBuffer
clear r = record r { head = 0; tail = 0; count = 0 }

abbrev pub size : RingBuffer → ℕ
size r = r.count
