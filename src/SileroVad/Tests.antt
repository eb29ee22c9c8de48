-- ===== src/SileroVad/Tests.antt =====
-- Runs of the VAD.
use vbgw_pjsip_v.Common.{◌≡◌, ◌<◌, List, [], ◌∷◌, ◌++◌, arith, length, replicate, ℕ}
use vbgw_pjsip_v.RuntimeMetrics.{initial}
use vbgw_pjsip_v.SileroVad.{create}
use vbgw_pjsip_v.SileroVad.Windows.{pending, queue_of}
use vbgw_pjsip_v.SileroVad.Conserve.{
  recorder, concat, listen_all, answers, queue_answers, answers_refines, listen_conserves,
}

-- Frames of 20 ms.
abbrev frames : List (List ℕ)
frames = replicate 320 1 ∷ replicate 320 2 ∷ replicate 320 3 ∷ []

answers_refines_example :
    answers recorder frames (create recorder, initial)
    ≡ queue_answers recorder frames (queue_of recorder (create recorder))
unfolding create
answers_refines_example = answers_refines recorder frames (create recorder) initial (omega arith)

listen_conserves_example :
    let v = listen_all recorder frames (create recorder) in
    (length (pending recorder v) < 512) × (v.state ++ pending recorder v ≡ concat frames)
listen_conserves_example = listen_conserves frames (omega arith, (omega arith, (omega arith, tt)))
