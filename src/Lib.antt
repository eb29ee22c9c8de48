-- ===== src/Lib.antt =====
-- A verification library of the voicebot gateway: a SIP endpoint that answers or places calls,
-- plays and records their audio, and connects each to a conversational AI service.
--
-- An incoming call is routed by its destination number (src/engine/RoutingEngine), gets a slot of
-- its service that several gateway nodes share through Redis (src/engine/CapacityManager), and is
-- entered into the table of active calls (src/engine/SessionManager). The call itself
-- (src/engine/VoicebotCall) connects its sound to a media port (src/engine/VoicebotMediaPort),
-- which tells speech from silence (src/ai/SileroVad), hands the caller's voice to the AI service
-- and plays the service's speech through a byte queue (src/utils/RingBuffer.h). Keys go through a
-- menu (src/ivr/IvrManager). At its end a call gives back its slot and leaves a record, which may
-- be posted to a webhook (src/utils/CdrWebhookClient). All parts count into one registry
-- (src/utils/RuntimeMetrics.h), and the settings come from the environment (src/utils/AppConfig.h).
-- An admin server (src/api/HttpServer.cpp) places and controls calls for clients that have its key.
--
-- Which file models which part:
--   Common and its children: tests, lists over the native numbers, texts as lists of bytes,
--   integers.
--   RingBuffer: src/utils/RingBuffer.h. Positions are size_t and wrap at 2 ^ 64; RingBuffer.Inv
--   has the invariant, RingBuffer.Refine and RingBuffer.Calls the queue it stands for.
--   IvrManager: src/ivr/IvrManager.h and IvrManager.cpp. The callbacks that a key is to run are an
--   output; IvrManager.Diagram has the diagram of the header row by row, IvrManager.Rows what no
--   row names, IvrManager.Graph the steps of the code as a relation.
--   RuntimeMetrics: src/utils/RuntimeMetrics.h. RuntimeMetrics.Floor has decrementWithFloor with
--   the writes of the other threads between its load and its exchange; its rounds are a list, and
--   the loop has no result where they are not enough.
--   Redis: what the gateway uses of the Redis server, a parameter of CapacityManager with its
--   documented behaviour as laws; Redis.Memory is a store that has them.
--   CapacityManager: src/engine/CapacityManager.h and CapacityManager.cpp, the Lua script
--   included. Clock, slot id and the faults of the connection are arguments.
--   RoutingEngine: src/engine/RoutingEngine.h and RoutingEngine.cpp; yaml-cpp is a parameter.
--   SessionManager: src/engine/SessionManager.h and SessionManager.cpp. A map is an association
--   list, and nothing is claimed of its order.
--   HttpServer: src/api/HttpServer.cpp. HttpServer.Parse and HttpServer.Validate have its text
--   helpers, HttpServer.RateLimit the token bucket, whose double is counted exactly in billionths
--   of a token, HttpServer.Handlers and HttpServer.Outbound the handlers, HttpServer.Routes the
--   choice of one. The methods of calls and accounts are an interface, HttpServer.Response.Engine.
--   The long texts of the reporting pages are parameters.
--   VoicebotAiClient: src/ai/VoicebotAiClient.h and VoicebotAiClient.cpp, one step for each method
--   and for each round of its two threads. VoicebotAiClient.Queue has histories of them,
--   VoicebotAiClient.Reconnect and VoicebotAiClient.Breaks the rounds after a broken stream,
--   VoicebotAiClient.Reading the responses of the service.
--   VoicebotAccount: onIncomingCall of src/engine/VoicebotAccount.cpp, over RoutingEngine,
--   CapacityManager and SessionManager; VoicebotAccount.Outbound has makeOutboundCall and the late
--   answer of asyncAnswerCall. What PJSIP is told to do with the call is its result.
--   Gateway: the parts together for a request that places a call, from src/api/HttpServer.cpp over
--   AccountManager and VoicebotAccount to SessionManager. What other threads do to the table
--   meanwhile is an argument.
--   AccountManager: src/engine/AccountManager.h and AccountManager.cpp. Whether an account is
--   registered is an argument of a round of probing.
--   AppConfig: src/utils/AppConfig.h. AppConfig.Read has the readers of a variable,
--   AppConfig.Settings and AppConfig.Plain the sections of the constructor, AppConfig.Load the
--   whole of it with the check of the address of the AI service, AppConfig.Policy the security
--   policy. The environment and the files that exist are arguments.
--   CdrWebhookClient: src/utils/CdrWebhookClient.h and CdrWebhookClient.cpp;
--   CdrWebhookClient.Delivery has its histories and the worker's loop, whose rounds are counted by
--   fuel.
--   SileroVad: src/ai/SileroVad.h and SileroVad.cpp. The network is a parameter; SileroVad.Windows
--   has the queue that the buffer stands for.
--   VoicebotMediaPort: src/engine/VoicebotMediaPort.h and VoicebotMediaPort.cpp, over RingBuffer
--   and SileroVad, with the Speex library a parameter.
--   VoicebotCall: src/engine/VoicebotCall.h and VoicebotCall.cpp, over CapacityManager,
--   SessionManager, IvrManager, VoicebotAiClient, VoicebotMediaPort and CdrWebhookClient. A World
--   is one call with what it works on; what PJSIP is told to do is a list of effects, and what it
--   answers is an argument. The conference bridge of PJSIP is a parameter,
--   VoicebotCall.Conference, with its documented behaviour as laws. VoicebotCall.Control, Bridge,
--   Recording, Media, Life and Cdr have the methods, VoicebotCall.History the histories of them.
--
-- Each method that holds its mutex for its whole body is one step. Logging is left out. Not
-- modelled are the destructor of a call and the copying of its RTP counters, the state of a
-- registration and the pending answers of src/engine/VoicebotAccount, the making of gRPC channels
-- from certificates (src/utils/AppConfig.h), and src/ai/SpeexDsp; nor the PJSIP endpoint, the gRPC
-- transport, the neural network, the HTTP sockets, the requests to the webhook, the exporters of
-- metrics and traces, and the process's start and stop, which only call libraries.
pub mod Common
pub mod RingBuffer
pub mod IvrManager
pub mod RuntimeMetrics
pub mod Redis
pub mod CapacityManager
pub mod RoutingEngine
pub mod SessionManager
pub mod AccountManager
pub mod AppConfig
pub mod CdrWebhookClient
pub mod Gateway
pub mod HttpServer
pub mod SileroVad
pub mod VoicebotAccount
pub mod VoicebotAiClient
pub mod VoicebotCall
pub mod VoicebotMediaPort
