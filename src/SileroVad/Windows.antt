-- ===== src/SileroVad/Windows.antt =====
-- The samples that src/ai/SileroVad.cpp holds back, against a queue that is cut into windows of 512.
use vbgw_pjsip_v.Common.{
  ℕ, zero, suc, ◌+◌, ◌-◌, ◌≤◌, ◌≡◌, refl, sym, ap, ◌∙◌, Option, none, some, List, [], ◌∷◌, ◌++◌,
  Bool, true, false, not, ◌&&◌, arith, Bool-cases, inl, inr, ltb, leb, if◌then◌else◌, length, take,
  drop, drop-append_left, length-drop, length-append,
}
use vbgw_pjsip_v.SileroVad.{Network, Vad, bound_buffer, next_window, listen, compact, heard}

zero_add : (j : ℕ) → 0 + j ≡ j
zero_add j = omega arith

add_zero : (i : ℕ) → i + 0 ≡ i
add_zero i = omega arith

suc_add : (i j : ℕ) → suc i + j ≡ suc (i + j)
suc_add i j = omega arith

drop-drop : {A : Type 0} (i j : ℕ) (xs : List A) → drop (i + j) xs ≡ drop j (drop i xs)
drop-drop zero j xs = rw (zero_add j) refl
drop-drop (suc i) zero [] = rw (add_zero (suc i)) refl
drop-drop (suc i) (suc j) [] = rw (suc_add i (suc j)) refl
drop-drop (suc i) j (x ∷ xs) = rw (suc_add i j) (drop-drop i j xs)

module _ (n : Network) where
  open n use {State, run}

  -- What the buffer holds back.
  abbrev pub pending : Vad n → List ℕ
  pending v = drop v.pcm_head v.pcm_buffer

  abbrev pub IsValid : Vad n → Type 0
  IsValid v = v.pcm_head ≤ length v.pcm_buffer

  -- The queue: what is held back, the state of the network and the last answered_by.
  pub record Queue : Type 0 where
    pub samples : List ℕ
    pub state : State
    pub speaking : Bool

  abbrev pub queue_of : Vad n → Queue
  queue_of v = record { samples = pending v; state = v.state; speaking = v.last_speaking_state }

  abbrev pub answered_by : Option (Bool × State) → Queue → Queue
  answered_by none q = q
  answered_by (some (speaking, state)) q = record q { state = state; speaking = speaking }

  -- One window is heard if there is one.
  abbrev pub hear : Queue → Queue
  hear q =
      if ltb (length q.samples) 512
      then q
      else answered_by (run q.state (take 512 q.samples))
          (record q { samples = drop 512 q.samples })

  -- One call. What is held back is dropped if it would grow beyond 16384.
  abbrev pub step : List ℕ → Queue → Queue
  step frame q = hear (record q {
    samples = (if ltb 16384 (length q.samples + length frame) then [] else q.samples) ++ frame;
  })

  -- The four branches.
  abbrev branches : Bool → Bool → Bool → Vad n → Vad n
  branches compacts over still_over v =
      let packed = if compacts then compact n v else v in
      if not over
      then v
      else if still_over
      then record packed { pcm_buffer = []; pcm_head = 0 }
      else packed

  branches_lem :
      (compacts over still_over : Bool) (v : Vad n)
      → IsValid v
      → IsValid (branches compacts over still_over v)
        × (pending (branches compacts over still_over v)
            ≡ (if over && still_over then [] else pending v))
        × ((branches compacts over still_over v).state ≡ v.state)
        × ((branches compacts over still_over v).last_speaking_state ≡ v.last_speaking_state)
  branches_lem true true true v h = (omega arith, refl, refl, refl)
  branches_lem true true false v h = (omega arith, refl, refl, refl)
  branches_lem true false still_over v h = (h, refl, refl, refl)
  branches_lem false true true v h = (omega arith, refl, refl, refl)
  branches_lem false true false v h = (h, refl, refl, refl)
  branches_lem false false still_over v h = (h, refl, refl, refl)

  -- The test of the length with what was consumed, and then without it, is the second test alone.
  two_tests :
      (count head : ℕ) (buffer : List ℕ)
      → (ltb 16384 (length buffer + count)
          && ltb 16384 (length (if ltb 0 head then drop head buffer else buffer) + count))
        ≡ ltb 16384 (length (drop head buffer) + count)
  two_tests count head buffer = ground (arith, length-drop head buffer)

  packed_lem :
      (b : Bool) (v : Vad n)
      → (if b then compact n v else v).pcm_buffer
        ≡ (if b then drop v.pcm_head v.pcm_buffer else v.pcm_buffer)
  packed_lem true v = refl
  packed_lem false v = refl

  bound_buffer_lem :
      (count : ℕ) (v : Vad n)
      → IsValid v
      → IsValid (bound_buffer n count v)
        × (pending (bound_buffer n count v)
            ≡ (if ltb 16384 (length (pending v) + count) then [] else pending v))
        × ((bound_buffer n count v).state ≡ v.state)
        × ((bound_buffer n count v).last_speaking_state ≡ v.last_speaking_state)
  unfolding bound_buffer
  bound_buffer_lem count v h =
      let over = ltb 16384 (length v.pcm_buffer + count) in
      let packed = if ltb 0 v.pcm_head then compact n v else v in
      let still_over = ltb 16384 (length packed.pcm_buffer + count) in
      let (valid, held, st, sp) = branches_lem (ltb 0 v.pcm_head) over still_over v h in
      let tests : (over && still_over) ≡ ltb 16384 (length (pending v) + count) =
        rw (packed_lem (ltb 0 v.pcm_head) v) (two_tests count v.pcm_head v.pcm_buffer) in
      (valid, held ∙ rw tests refl, st, sp)

  heard_lem :
      (o : Option (Bool × State)) (w : Vad n)
      → (queue_of (heard n o w) ≡ answered_by o (queue_of w))
        × ((heard n o w).pcm_head ≡ w.pcm_head)
        × ((heard n o w).pcm_buffer ≡ w.pcm_buffer)
  heard_lem none w = (refl, refl, refl)
  heard_lem (some (speaking, state)) w = (refl, refl, refl)

  abbrev heard_if : Bool → Option (Bool × State) → Vad n → Vad n
  heard_if compacts o moved = heard n o (if compacts then compact n moved else moved)

  heard_if_lem :
      (compacts : Bool) (o : Option (Bool × State)) (moved : Vad n)
      → IsValid moved
      → IsValid (heard_if compacts o moved)
        × (queue_of (heard_if compacts o moved) ≡ answered_by o (queue_of moved))
  heard_if_lem true o moved h =
      let (q, p, b) = heard_lem o (compact n moved) in (omega (arith, p), q)
  heard_if_lem false o moved h = let (q, p, b) = heard_lem o moved in (rw (p, b) h, q)

  next_window_lem :
      (v : Vad n)
      → IsValid v
      → IsValid (next_window n v) × (queue_of (next_window n v) ≡ hear (queue_of v))
  unfolding next_window
  next_window_lem v h =
      let moved = record v { pcm_head = v.pcm_head + 512 } in
      let size : (length v.pcm_buffer - v.pcm_head) ≡ length (pending v) =
        sym (length-drop v.pcm_head v.pcm_buffer) in
      let test : ltb (length v.pcm_buffer - v.pcm_head) 512 ≡ ltb (length (pending v)) 512 =
        ap (λ k. ltb k 512) size in
      elim (Bool-cases (ltb (length v.pcm_buffer - v.pcm_head) 512)) [
        | inl e ↦ rw (e, sym test ∙ e) (h, refl)
        | inr e ↦
            let o = run v.state (take 512 (pending v)) in
            let (valid, q) = heard_if_lem (leb 1024 moved.pcm_head) o moved (ground arith) in
            rw (e, sym test ∙ e)
              (
                valid,
                q
                    ∙ ap (λ s. answered_by o (record (queue_of v) { samples = s }))
                        (drop-drop v.pcm_head 512 v.pcm_buffer),
              )
      ]

  queue_path :
      {xs ys : List ℕ} {s s' : State} {b b' : Bool}
      → xs ≡ ys
      → s ≡ s'
      → b ≡ b'
      → Path Queue
          (record { samples = xs; state = s; speaking = b })
          (record { samples = ys; state = s'; speaking = b' })
  queue_path p q r = rw (p, q, r) refl

  pub listen_lem :
      (frame : List ℕ) (v : Vad n)
      → IsValid v
      → IsValid (listen n frame v) × (queue_of (listen n frame v) ≡ step frame (queue_of v))
  unfolding listen
  listen_lem frame v h =
      let bounded = bound_buffer n (length frame) v in
      let (valid, held, st, sp) = bound_buffer_lem (length frame) v h in
      let w = record bounded { pcm_buffer = bounded.pcm_buffer ++ frame } in
      let joined : pending w ≡ pending bounded ++ frame =
        drop-append_left bounded.pcm_head bounded.pcm_buffer frame valid in
      let (valid', q) = next_window_lem w (omega (arith, length-append bounded.pcm_buffer frame)) in
      (valid', q ∙ ap hear (queue_path (joined ∙ ap (λ s. s ++ frame) held) st sp))
