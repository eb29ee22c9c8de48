-- ===== src/RingBuffer/Tests.antt =====
-- Runs of `RingBuffer` on small buffers.
use vbgw_pjsip_v.Common.{◌≡◌, refl, [], ◌∷◌, some, arith}
use vbgw_pjsip_v.RingBuffer.{RingBuffer, create, read}
use vbgw_pjsip_v.RingBuffer.Inv.{IsValid}
use vbgw_pjsip_v.RingBuffer.Refine.{contents}
use vbgw_pjsip_v.RingBuffer.Calls.{reads, writes, run, run_queue, run_refines}

-- Four bytes, of which the three that are held wrap around.
abbrev wrapped : RingBuffer
wrapped = record { buffer = 7 ∷ 0 ∷ 5 ∷ 6 ∷ []; head = 2; tail = 1; count = 3 }

wrapped-IsValid : IsValid wrapped
wrapped-IsValid = record {
  nonempty = omega arith;
  small = omega arith;
  head_in = omega arith;
  fits = omega arith;
  tail_at = refl;
}

abbrev zeros : RingBuffer
zeros = record { buffer = 0 ∷ 0 ∷ 0 ∷ 0 ∷ []; head = 0; tail = 0; count = 0 }

create-four : create 4 ≡ some zeros
unfolding create
create-four = refl

read-wrapped : (read wrapped 2).0 ≡ 5 ∷ 6 ∷ []
unfolding read
read-wrapped = refl

run_refines_example :
    run wrapped (writes (8 ∷ 9 ∷ []) ∷ reads 3 ∷ [])
    ≡ run_queue 4 (contents wrapped) (writes (8 ∷ 9 ∷ []) ∷ reads 3 ∷ [])
run_refines_example = run_refines (writes (8 ∷ 9 ∷ []) ∷ reads 3 ∷ []) wrapped-IsValid
