-- ===== src/CdrWebhookClient/Tests.antt =====
-- Runs of the client.
use vbgw_pjsip_v.Common.{◌≡◌, refl, codes, some, List, [], ◌∷◌, ◌++◌, true, false}
use vbgw_pjsip_v.CdrWebhookClient.{CdrWebhookClient, create}
use vbgw_pjsip_v.CdrWebhookClient.Delivery.{
  Op, started, stop_requested, pushed, worked, run, handed_all, run_lem, worker_loop,
  worker_loop_drains,
}

abbrev ops : List Op
ops =
    pushed (codes "u") (codes "a")
    ∷ started
    ∷ worked
    ∷ stop_requested
    ∷ pushed (codes "u") (codes "b")
    ∷ []

run_lem_example : (run ops create).0 ++ (run ops create).1.queue ≡ handed_all ops create
unfolding create
run_lem_example = run_lem ops create

abbrev stopping : CdrWebhookClient
stopping = record {
  queue = record { url = codes "u"; json_data = codes "a" } ∷ [];
  stop = true;
  is_running = false;
}

worker_loop_drains_example : worker_loop 2 stopping ≡ some stopping.queue
worker_loop_drains_example = worker_loop_drains stopping refl
