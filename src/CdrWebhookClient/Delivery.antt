-- ===== src/CdrWebhookClient/Delivery.antt =====
-- What is posted of the records pushed into src/utils/CdrWebhookClient.cpp, and in which order.
use vbgw_pjsip_v.Common.{
  ℕ, zero, suc, ◌≡◌, refl, sym, ap, ◌∙◌, Text, List, [], ◌∷◌, ◌++◌, true, not, ◌||◌, is_empty,
  if◌then◌else◌, length, append_assoc, append-nil, Option, none, some, either, both,
}
use vbgw_pjsip_v.CdrWebhookClient.{
  WebhookPayload, CdrWebhookClient, start, request_stop, push_cdr, WorkerRound, waits, leaves,
  posts, worker_round, next_payload,
}

pub data Op : Type 0 where
  started : Op
  stop_requested : Op
  pushed : Text → Text → Op
  worked : Op

abbrev after_round : WorkerRound → CdrWebhookClient → List WebhookPayload × CdrWebhookClient
after_round waits c = ([], c)
after_round leaves c = ([], c)
after_round (posts payload after) c = (payload ∷ [], after)

-- What is posted, and the client after it.
unfoldable pub apply : Op → CdrWebhookClient → List WebhookPayload × CdrWebhookClient
apply started c = ([], start c)
apply stop_requested c = ([], request_stop c)
apply (pushed url json_data) c = ([], push_cdr url json_data c)
apply worked c = after_round (worker_round c) c

unfoldable pub run : List Op → CdrWebhookClient → List WebhookPayload × CdrWebhookClient
run [] c = ([], c)
run (op ∷ ops) c =
    let (out, after) = apply op c in let (rest, end) = run ops after in (out ++ rest, end)

-- What a step hands over: a record with a URL and a text, while no stop is on.
pub handed : Op → CdrWebhookClient → List WebhookPayload
handed (pushed url json_data) c =
    if is_empty url || is_empty json_data
    then []
    else if c.stop
    then []
    else record { url = url; json_data = json_data } ∷ []
handed _ c = []

pub handed_all : List Op → CdrWebhookClient → List WebhookPayload
handed_all [] c = []
handed_all (op ∷ ops) c = handed op c ++ handed_all ops (apply op c).1

round_lem :
    (queue : List WebhookPayload) (c : CdrWebhookClient)
    → c.queue ≡ queue
    → let (out, after) = after_round (next_payload queue c) c in out ++ after.queue ≡ queue
unfolding next_payload
round_lem [] c h =
    either (λ (r : WorkerRound). (after_round r c).0 ++ (after_round r c).1.queue ≡ []) c.stop h h
round_lem (payload ∷ queue) c h = refl

apply_lem :
    (op : Op) (c : CdrWebhookClient)
    → let (out, after) = apply op c in out ++ after.queue ≡ c.queue ++ handed op c
unfolding apply handed start request_stop push_cdr worker_round
apply_lem started c =
    either (λ (d : CdrWebhookClient). d.queue ≡ c.queue ++ []) c.is_running
      (sym (append-nil c.queue)) (sym (append-nil c.queue))
apply_lem stop_requested c =
    either (λ (d : CdrWebhookClient). d.queue ≡ c.queue ++ []) (not c.is_running)
      (sym (append-nil c.queue)) (sym (append-nil c.queue))
apply_lem (pushed url json_data) c =
    let handed_on =
      λ (d : CdrWebhookClient) (out : List WebhookPayload). d.queue ≡ c.queue ++ out in
    both handed_on (is_empty url || is_empty json_data) (sym (append-nil c.queue))
      (both handed_on c.stop (sym (append-nil c.queue)) refl)
apply_lem worked c = round_lem c.queue c refl ∙ sym (append-nil c.queue)

-- Over any history, what is posted and then what is still queued is what was queued and then what
-- was pushed with a URL and a text while no stop was on, in this order.
pub run_lem :
    (ops : List Op) (c : CdrWebhookClient)
    → (run ops c).0 ++ (run ops c).1.queue ≡ c.queue ++ handed_all ops c
unfolding run handed_all
run_lem [] c = sym (append-nil c.queue)
run_lem (op ∷ ops) c =
    let (out, after) = apply op c in
    let (rest, end) = run ops after in
    append_assoc out rest end.queue
    ∙ ap (λ s. out ++ s) (run_lem ops after)
    ∙ sym (append_assoc out after.queue (handed_all ops after))
    ∙ ap (λ s. s ++ handed_all ops after) (apply_lem op c)
    ∙ append_assoc c.queue (handed op c) (handed_all ops after)

cons_all : WebhookPayload → Option (List WebhookPayload) → Option (List WebhookPayload)
cons_all payload none = none
cons_all payload (some out) = some (payload ∷ out)

next_round :
    WorkerRound
    → (CdrWebhookClient → Option (List WebhookPayload))
    → CdrWebhookClient
    → Option (List WebhookPayload)
next_round leaves loop c = some []
next_round waits loop c = loop c
next_round (posts payload after) loop c = cons_all payload (loop after)

-- `workerLoop` while nobody pushes, for at most so many rounds: what it posts until it leaves, or
-- `none` if they are not enough.
pub worker_loop : ℕ → CdrWebhookClient → Option (List WebhookPayload)
worker_loop zero c = none
worker_loop (suc fuel) c = next_round (worker_round c) (λ d. worker_loop fuel d) c

drain :
    (queue : List WebhookPayload) (c : CdrWebhookClient)
    → c.stop ≡ true
    → c.queue ≡ queue
    → worker_loop (suc (length queue)) c ≡ some queue
unfolding worker_loop worker_round next_payload next_round cons_all
drain [] c h e = rw (e, h) refl
drain (payload ∷ queue) c h e =
    rw e (ap (cons_all payload) (drain queue (record c { queue = queue }) h refl))

-- Once a stop is on, the worker posts all that is queued, in order, and leaves its loop, within one
-- round more than there are records.
pub worker_loop_drains :
    (c : CdrWebhookClient) → c.stop ≡ true → worker_loop (suc (length c.queue)) c ≡ some c.queue
worker_loop_drains c h = drain c.queue c h refl
