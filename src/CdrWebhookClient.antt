-- ===== src/CdrWebhookClient.antt =====
-- src/utils/CdrWebhookClient.h and CdrWebhookClient.cpp: the queue of call records and the thread that
-- posts them. What touches the queue holds its mutex, so it is one step. libcurl is left out: a record
-- that is posted counts as an output, whatever comes of it, and is not posted again.
pub mod Delivery
mod Tests
use vbgw_pjsip_v.Common.{
  Text, List, [], ◌∷◌, ◌++◌, Bool, true, false, not, ◌||◌, is_empty, if◌then◌else◌,
}

pub record WebhookPayload : Type 0 where
  pub url : Text
  pub json_data : Text

pub record CdrWebhookClient : Type 0 where
  pub queue : List WebhookPayload
  pub stop : Bool
  pub is_running : Bool

unfoldable pub create : CdrWebhookClient
create = record { queue = []; stop = false; is_running = false }

unfoldable pub start : CdrWebhookClient → CdrWebhookClient
start c = if c.is_running then c else record c { is_running = true; stop = false }

-- `stop`, up to its wait for the thread.
unfoldable pub request_stop : CdrWebhookClient → CdrWebhookClient
request_stop c = if not c.is_running then c else record c { is_running = false; stop = true }

unfoldable pub push_cdr : Text → Text → CdrWebhookClient → CdrWebhookClient
push_cdr url json_data c =
    let payload : WebhookPayload = record { url = url; json_data = json_data } in
    if is_empty url || is_empty json_data
    then c
    else if c.stop
    then c
    else record c { queue = c.queue ++ payload ∷ [] }

-- A round of `workerLoop`: it waits, leaves the loop, or posts a record.
pub data WorkerRound : Type 0 where
  waits : WorkerRound
  leaves : WorkerRound
  posts : WebhookPayload → CdrWebhookClient → WorkerRound

next_payload : List WebhookPayload → CdrWebhookClient → WorkerRound
next_payload [] c = if c.stop then leaves else waits
next_payload (payload ∷ queue) c = posts payload (record c { queue = queue })

unfoldable pub worker_round : CdrWebhookClient → WorkerRound
unfolding next_payload
worker_round c = next_payload c.queue c
