-- ===== src/RingBuffer/Calls.antt =====
-- Whole histories of calls of `RingBuffer`.
use vbgw_pjsip_v.Common.{ℕ, ◌≡◌, refl, ap, ap₂, ◌∙◌, List, [], ◌∷◌, ◌++◌, length, drop, take}
use vbgw_pjsip_v.RingBuffer.Inv.{IsValid, clear-IsValid, write-IsValid, read-IsValid}
use vbgw_pjsip_v.RingBuffer.Refine.{contents, last_of, contents-write, read_refines}
use vbgw_pjsip_v.RingBuffer.{RingBuffer, write, read, clear}

-- A buffer as a client sees it: what each call returns, and what is then held.
pub data Call : Type 0 where
  writes : List ℕ → Call
  reads : ℕ → Call
  clears : Call

pub run : RingBuffer → List Call → List (List ℕ)
run r [] = []
run r (writes bytes ∷ calls) = [] ∷ run (write r bytes) calls
run r (reads len ∷ calls) = let (out, r') = read r len in out ∷ run r' calls
run r (clears ∷ calls) = [] ∷ run (clear r) calls

-- The queue of at most `cap` bytes that keeps the newest.
pub run_queue : ℕ → List ℕ → List Call → List (List ℕ)
run_queue cap q [] = []
run_queue cap q (writes bytes ∷ calls) = [] ∷ run_queue cap (last_of cap (q ++ bytes)) calls
run_queue cap q (reads len ∷ calls) = take len q ∷ run_queue cap (drop len q) calls
run_queue cap q (clears ∷ calls) = [] ∷ run_queue cap [] calls

-- What any sequence of writes, reads and clears on a valid buffer returns is what the bounded queue
-- of its bytes, which keeps the newest, returns.
pub run_refines :
    (calls : List Call) {r : RingBuffer}
    → IsValid r
    → run r calls ≡ run_queue (length r.buffer) (contents r) calls
unfolding run run_queue
run_refines [] v = refl
run_refines (writes bytes ∷ calls) {r} v =
    let w = write-IsValid bytes v in
    ap (◌∷◌ [])
      (run_refines calls w.0 ∙ ap₂ (λ n q. run_queue n q calls) w.1 (contents-write bytes v))
run_refines (reads len ∷ calls) {r} v =
    let w = read-IsValid v len in
    let e = read_refines len v in
    ap₂ ◌∷◌ e.0 (run_refines calls w.0 ∙ ap₂ (λ n q. run_queue n q calls) w.1 e.1)
run_refines (clears ∷ calls) {r} v = ap (◌∷◌ []) (run_refines calls (clear-IsValid v) ∙ cleared)
  where
    cleared :
        run_queue (length (clear r).buffer) (contents (clear r)) calls
        ≡ run_queue (length r.buffer) [] calls
    cleared = unfold clear in refl
