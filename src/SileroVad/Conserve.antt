-- ===== src/SileroVad/Conserve.antt =====
-- What src/ai/SileroVad.cpp hands to its network over the frames of a call.
use vbgw_pjsip_v.Common.{
  ℕ, ◌+◌, ◌≤◌, ◌<◌, ◌≡◌, refl, sym, ap, ap₂, ◌∙◌, inl, inr, some, List, [], ◌∷◌, ◌++◌, Bool, true,
  false, arith, Bool-cases, is_empty, ltb, if◌then◌else◌, length, take, drop, length-append,
  length-drop, take-append-drop, append_assoc, append-nil,
}
use vbgw_pjsip_v.RuntimeMetrics.{RuntimeMetrics}
use vbgw_pjsip_v.SileroVad.{Network, Vad, create, listen, is_speaking}
use vbgw_pjsip_v.SileroVad.Windows.{IsValid, pending, Queue, queue_of, step, listen_lem}

module _ (n : Network) where
  -- What `isSpeaking` answers, frame by frame.
  pub answers : List (List ℕ) → Vad n × RuntimeMetrics → List Bool
  answers [] p = []
  answers (frame ∷ frames) p =
      let (answer, after) = is_speaking n frame p in answer ∷ answers frames after

  -- The same of the queue.
  pub queue_answers : List (List ℕ) → Queue n → List Bool
  queue_answers [] q = []
  queue_answers (frame ∷ frames) q =
      let after = if is_empty frame then q else step n frame q in
      after.speaking ∷ queue_answers frames after

  -- For any frames and any network, the answers with the head offset, its compactions and the size
  -- bound are those of a queue that is cut into windows of 512 samples and emptied where it would
  -- exceed 16384.
  pub answers_refines :
      (frames : List (List ℕ)) (v : Vad n) (m : RuntimeMetrics)
      → IsValid n v
      → answers frames (v, m) ≡ queue_answers frames (queue_of n v)
  unfolding answers queue_answers is_speaking
  answers_refines [] v m h = refl
  answers_refines ([] ∷ frames) v m h =
      ap (◌∷◌ v.last_speaking_state) (answers_refines frames v m h)
  answers_refines ((x ∷ xs) ∷ frames) v m h =
      let (valid, q) = listen_lem n (x ∷ xs) v h in
      ap₂ (◌∷◌) (ap (λ r. r.speaking) q)
        (answers_refines frames (listen n (x ∷ xs) v) _ valid ∙ ap (queue_answers frames) q)

-- A network that records what it is given.
abbrev pub recorder : Network
recorder = record {
  State = List ℕ;
  initial = [];
  run = λ given window. some (true, given ++ window);
}

abbrev pub concat : List (List ℕ) → List ℕ
concat [] = []
concat (frame ∷ frames) = frame ++ concat frames

-- Frames of at most a window.
abbrev pub AreSmall : List (List ℕ) → Type 0
AreSmall [] = Unit {0}
AreSmall (frame ∷ frames) = (length frame ≤ 512) × AreSmall frames

pub listen_all : (n : Network) → List (List ℕ) → Vad n → Vad n
listen_all n [] v = v
listen_all n (frame ∷ frames) v = listen_all n frames (listen n frame v)

step_recorded :
    (frame : List ℕ) (q : Queue recorder)
    → length q.samples < 512
    → length frame ≤ 512
    → (length (step recorder frame q).samples < 512)
      × ((step recorder frame q).state ++ (step recorder frame q).samples
          ≡ q.state ++ (q.samples ++ frame))
step_recorded frame q p r =
    let room : ltb 16384 (length q.samples + length frame) ≡ false = ground arith in
    rw room (elim (Bool-cases (ltb (length (q.samples ++ frame)) 512)) [
      | inl e ↦ rw e (ground arith, refl)
      | inr e ↦ rw e (
        ground (arith, length-drop 512 (q.samples ++ frame), length-append q.samples frame),
        append_assoc q.state (take 512 (q.samples ++ frame)) (drop 512 (q.samples ++ frame))
            ∙ ap (λ s. q.state ++ s) (take-append-drop 512 (q.samples ++ frame)),
      )
    ])

listen_recorded :
    (frames : List (List ℕ)) (v : Vad recorder)
    → IsValid recorder v
    → length (pending recorder v) < 512
    → AreSmall frames
    → (length (pending recorder (listen_all recorder frames v)) < 512)
      × ((listen_all recorder frames v).state ++ pending recorder (listen_all recorder frames v)
          ≡ (v.state ++ pending recorder v) ++ concat frames)
unfolding listen_all
listen_recorded [] v h p s = (p, sym (append-nil (v.state ++ pending recorder v)))
listen_recorded (frame ∷ frames) v h p (small, rest) =
    let (valid, q) = listen_lem recorder frame v h in
    let (below, joined) = step_recorded frame (queue_of recorder v) p small in
    let after = listen recorder frame v in
    let samples = ap (λ r. r.samples) q in
    let state = ap (λ r. r.state) q in
    let (end, all_heard) = listen_recorded frames after valid (rw samples below) rest in
    (
      end,
      all_heard
          ∙ ap (λ s. s ++ concat frames)
              (ap₂ (◌++◌) state samples
                ∙ (joined ∙ sym (append_assoc v.state (pending recorder v) frame)))
          ∙ append_assoc (v.state ++ pending recorder v) frame (concat frames),
    )

-- With frames of at most 512 samples the network is given every sample once and in order: what a
-- network that records its input has been given, and then what is held back, which is less than a
-- window, is all that came in.
pub listen_conserves :
    (frames : List (List ℕ))
    → AreSmall frames
    → let v = listen_all recorder frames (create recorder) in
      (length (pending recorder v) < 512) × (v.state ++ pending recorder v ≡ concat frames)
unfolding create
listen_conserves frames s = listen_recorded frames (create recorder) (omega arith) (omega arith) s
