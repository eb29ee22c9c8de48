-- ===== src/VoicebotCall.antt =====
-- src/engine/VoicebotCall.h and VoicebotCall.cpp: one call, with what it changes around it. A method
-- that holds a mutex for its state is one step. What PJSIP is told to do is a list of effects; what it
-- answers is an argument, `none` for success and the text of the `pj::Error` otherwise. An answer of
-- `AudioMedia::startTransmit` outside a try block is taken to be success.
pub mod Cdr
pub mod Recording
pub mod Control
pub mod Bridge
pub mod Bridging
pub mod Conference
pub mod Life
pub mod Media
pub mod Keeps
pub mod Steady
pub mod Connected
pub mod History
pub mod Once
pub mod EndSteps
pub mod Ended
pub mod Turns
pub mod Digits
mod Tests
use vbgw_pjsip_v.Common.{ℕ, Text, Option, none, List, [], ◌∷◌, ◌++◌, Bool, false}
use vbgw_pjsip_v.Common.Int.{ℤ, negsuc}
use vbgw_pjsip_v.Redis.{Redis}
use vbgw_pjsip_v.RuntimeMetrics.{RuntimeMetrics}
use vbgw_pjsip_v.SessionManager.{SessionManager}
use vbgw_pjsip_v.IvrManager.{IvrManager}
use vbgw_pjsip_v.IvrManager
use vbgw_pjsip_v.VoicebotAiClient.{Client}
use vbgw_pjsip_v.CdrWebhookClient.{CdrWebhookClient}
use vbgw_pjsip_v.SileroVad.{Network}
use vbgw_pjsip_v.VoicebotMediaPort.{Dsp, MediaPort}

-- The Redis server, the network of the VAD, and the Speex library.
pub record Platform : Type 1 where
  pub redis : Redis
  pub network : Network
  pub dsp : Dsp

-- What a call has PJSIP do, and the CDR lines that it logs.
pub data Effect : Type 0 where
  hung_up : ℕ → Effect
  transferred : Text → Effect
  dialled_dtmf : Text → Effect
  cdr_logged : Text → Effect
  lease_timer_set : Effect
  lease_timer_cancelled : Effect
  cushion_timer_set : Effect
  cushion_timer_cancelled : Effect

module _ (p : Platform) where
  -- A recorder or a player is its file; the ids of the timers are those of their `pj_timer_entry`.
  pub record VoicebotCall : Type 0 where
    pub media_port : Option (MediaPort p.network p.dsp)
    pub ai_client : Option Client
    pub ivr_manager : IvrManager
    pub recorder : Option Text
    pub announcement_player : Option Text
    pub recording_active : Bool
    pub recording_file_path : Text
    pub primary_audio_media_index : ℤ
    pub initial_call_id : ℤ
    pub session_id : Text
    pub service_name : Text
    pub entry_number : Text
    pub route_type : Text
    pub slot_id : Text
    pub start_time : ℕ
    pub vad_trigger_count : ℕ
    pub bargein_count : ℕ
    pub turn_count : ℕ
    pub lifecycle_finalized : Bool
    pub lease_timer_id : ℕ
    pub cushion_timer_id : ℕ

  -- A call, the parts of the process that it works on, and what it has done.
  pub record World : Type 0 where
    pub call : VoicebotCall
    pub metrics : RuntimeMetrics
    pub sessions : SessionManager
    pub store : p.redis.Store
    pub webhook : CdrWebhookClient
    pub effects : List Effect

  -- The constructor. It leaves the two timer entries as the memory had them.
  unfoldable pub create : ℤ → Text → ℕ → ℕ → ℕ → VoicebotCall
  create call_id session_id now lease_memory cushion_memory = record {
    media_port = none;
    ai_client = none;
    ivr_manager = IvrManager.create;
    recorder = none;
    announcement_player = none;
    recording_active = false;
    recording_file_path = [];
    primary_audio_media_index = negsuc 0;
    initial_call_id = call_id;
    session_id = session_id;
    service_name = [];
    entry_number = [];
    route_type = [];
    slot_id = [];
    start_time = now;
    vad_trigger_count = 0;
    bargein_count = 0;
    turn_count = 0;
    lifecycle_finalized = false;
    lease_timer_id = lease_memory;
    cushion_timer_id = cushion_memory;
  }

  unfoldable pub set_routing_info : Text → Text → Text → VoicebotCall → VoicebotCall
  set_routing_info service_name entry_number route_type c = record c {
    service_name = service_name;
    entry_number = entry_number;
    route_type = route_type;
  }

  unfoldable pub set_slot_id : Text → VoicebotCall → VoicebotCall
  set_slot_id slot_id c = record c { slot_id = slot_id }

  abbrev pub set_call : VoicebotCall → World → World
  set_call c w = record w { call = c }

  abbrev pub emit : Effect → World → World
  emit e w = record w { effects = w.effects ++ e ∷ [] }
