-- ===== src/Lib.antt =====
-- Pairion client: the voice assistant's desktop client, as far as it is program logic.
--
-- The client keeps a WebSocket to its server, shows what the server says in QML, and runs a voice
-- pipeline: a wake word starts an upload of speech, the voice activity detection ends it, the
-- answer comes back as audio, and speech over the answer interrupts it.
--
-- - Base: lists, association lists and Boolean tests that the parts share.
-- - Qt: what the code takes from Qt, as one record of operations (JSON, variants, UUIDs, doubles)
--   with records of the laws that some theorems need. Qt/Toy is an instance that runs and meets
--   the laws; it serves the tests only.
-- - ConnectionState: src/state/connection_state.cpp. The members are the record `Properties`; `seen`
--   is what QML last read, since it reads a property again only on that property's signal. Each slot
--   is a function with the name of the slot.
-- - Protocol: src/protocol. Messages holds the structs of messages.h, Envelope the two directions of
--   envelope_codec.cpp, Envelope/Server what the peer writes and reads (from the field names of the
--   protocol), Binary the frames of binary_codec.cpp.
-- - Ws: src/ws/pairion_websocket_client.cpp. What it asks of the socket and the signals it emits are
--   a trace of effects, newest first; the socket's own events are steps in Ws/Lifecycle.
-- - Vad: src/vad/silero_vad.cpp, over a session that is a parameter.
-- - Playback: src/audio/pairion_audio_playback.cpp and pairion_opus_decoder.cpp, over a device and a
--   decoder that are parameters.
-- - Orchestrator: src/pipeline/audio_session_orchestrator.cpp. Its record holds the client, the VAD
--   and the playback that it drives. Orchestrator/Events connects the signals as the constructor
--   does and makes every event a step: the invariants range over all orders of events.
--   Orchestrator/Talk is a whole upload, Orchestrator/BargeIn an interruption, Orchestrator/Streams
--   which stream a server that follows the messages has open, and whose frames it gets.
-- - Capture: src/audio/pairion_audio_capture.cpp, over the audio inputs of the machine.
-- - Health: src/pipeline/pipeline_health_monitor.cpp. A check is the composition of its numbered
--   checks, and Health/Verdict compares it with a ranking of the faults.
-- - Wake: src/wake/open_wakeword_detector.cpp, over the three ONNX sessions and the arithmetic of
--   floats. A frame's handler returns the detection that it emits, if any. Wake/Asked compares the
--   sessions with ones that refuse what has not the size of their tensor.
-- - Logger: src/util/logger.cpp. Logger/Batches interleaves the locked blocks of any threads.
-- - Store, Settings, DeviceIdentity: src/settings/settings.cpp and src/core/device_identity.cpp over
--   one QSettings, which is a record of operations with its laws; Store/Toy is an instance for the
--   tests.
-- - ModelDownloader: src/core/model_downloader.cpp, with the files of the cache by their names, the
--   requests in flight, and replies as steps.
-- - Startup: src/main.cpp, from the permission and the sessions to the pipelines, over the parts
--   above.
-- - Memory: src/memory/memory_browser_model.cpp, with the requests in flight beside its members, and
--   MemoryClient: src/memory/memory_client.cpp, whose replies the browser model takes; Memory/Shown is
--   what it shows after each.
-- - OpusEncoder: src/audio/pairion_opus_encoder.cpp, over libopus; OpusEncoder/Captured feeds it with
--   the frames of the capture.
-- - RingBuffer: src/audio/ring_buffer.h. The producer and the consumer take turns at every access to
--   the shared memory; RingBuffer/Queue relates the indices, which run around, to what was pushed
--   and popped, and RingBuffer/Fifo takes the steps in any order.
--
-- Numbers are natural numbers; the counters of the code stay far below the bounds of their types.
-- A clock, a fresh UUID, the time of day and random bytes are arguments. The loops over the
-- pre-roll and over the accumulators of the VAD and of the capture take as fuel the length of what
-- they cut, which each round shortens. The objects run on one thread, as their slots do; what the
-- worker threads do reaches them as queued events.
--
-- Not modelled: QML, and the bindings of ONNX Runtime and libopus. Of src/main.cpp the end of the
-- program is left out, and a pipeline's orchestrator is noted, not run. Log lines are left out
-- everywhere but in the logger itself.
pub mod Base
pub mod Qt
pub mod Protocol
pub mod ConnectionState
pub mod Ws
pub mod Vad
pub mod Playback
pub mod Capture
pub mod Health
pub mod Wake
pub mod Logger
pub mod Store
pub mod Settings
pub mod DeviceIdentity
pub mod ModelDownloader
pub mod Startup
pub mod RingBuffer
pub mod Memory
pub mod MemoryClient
pub mod OpusEncoder
pub mod Orchestrator
