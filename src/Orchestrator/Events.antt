-- ===== src/Orchestrator/Events.antt =====
-- The events of the voice pipeline as steps: what the worker threads, the timers, the socket and
-- the playback deliver to the main thread, in any order. The signals of the client are connected
-- as in the constructor of the orchestrator, and a slot runs where its signal is emitted.
use pairion_client.Base.{ℕ, ◌≡◌, ◌≢◌, String, Bool, false, true, List, [], Option, some}
use pairion_client.Qt.{Qt}
use pairion_client.Protocol.Messages.{
  InboundMessage, session_opened, audio_stream_start_out, audio_stream_end_out,
}
use pairion_client.Protocol.Envelope.{deserialize_from_string}
use pairion_client.Ws.{
  Client, drop_session, after_disconnected, on_connected, on_text_message_received,
  on_binary_message_received, on_heartbeat_tick, connect_to_server,
}
use pairion_client.Playback.{Device, Decoded, on_silence_timeout, on_drain_tick}
use pairion_client.Orchestrator.{
  Orchestrator, Encoder, on_client, start_listening, shutdown, on_wake_word_detected,
  on_vad_speech_started, on_speech_ended, on_opus_frame_encoded, on_streaming_timeout, on_playback,
  on_barge_in_timer_expired, on_inbound_audio, on_inbound_audio_stream_start, on_inbound_stream_end,
  on_ws_disconnected, on_ws_reconnected, on_pipeline_error,
}

module _ {q : Qt} where
  -- The slots on the signals of a text message.
  abbrev pub respond : Bool → Device → Option (InboundMessage q) → Orchestrator q → Orchestrator q
  respond starts write (some (session_opened id version)) o = on_ws_reconnected o
  respond starts write (some (audio_stream_start_out id codec rate)) o =
      on_inbound_audio_stream_start starts write id o
  respond starts write (some (audio_stream_end_out id reason)) o = on_inbound_stream_end reason o
  respond starts write _ o = o

  -- `onTextMessageReceived` with the slots that it sets off.
  unfoldable pub text_arrives : Bool → Device → q.Text → Orchestrator q → Orchestrator q
  text_arrives starts write t o =
      respond starts write (deserialize_from_string q t) (on_client (on_text_message_received t) o)

  -- `onBinaryMessageReceived` with the slot on its signal.
  unfoldable pub audio_arrives :
      (List ℕ → Decoded) → Device → List ℕ → Orchestrator q → Orchestrator q
  audio_arrives opus_decode write frame o =
      on_inbound_audio opus_decode write frame (on_client (on_binary_message_received frame) o)

  abbrev pub socket_closes : Client q → Client q
  socket_closes c = drop_session (record c { socket_connected = false })

  -- `onDisconnected` with the slot on its signal.
  unfoldable pub connection_lost : Orchestrator q → Orchestrator q
  connection_lost o = on_client after_disconnected (on_ws_disconnected (on_client socket_closes o))

pub data Step {q : Qt} : Orchestrator q → Orchestrator q → Type 0 where
  listen : (o : Orchestrator q) → Step o (start_listening o)
  shut : (o : Orchestrator q) → Step o (shutdown o)
  wake :
      (o : Orchestrator q) (encode : Encoder) (fresh now : String) (score : q.Double)
      (pre_roll : List ℕ)
      → fresh ≢ ""
      → Step o (on_wake_word_detected encode fresh now score pre_roll o)
  speech_starts : (o : Orchestrator q) → Step o (on_vad_speech_started o)
  speech_ends : (o : Orchestrator q) → Step o (on_speech_ended o)
  packet : (o : Orchestrator q) (frame : List ℕ) → Step o (on_opus_frame_encoded frame o)
  streaming_times_out :
      (o : Orchestrator q)
      → o.streaming_timeout ≡ true
      → Step o (on_streaming_timeout (record o { streaming_timeout = false }))
  barge_in_times_out :
      (o : Orchestrator q) (encode : Encoder) (fresh : String)
      → fresh ≢ ""
      → o.barge_in_timer ≡ true
      → Step o (on_barge_in_timer_expired encode fresh (record o { barge_in_timer = false }))
  playback_times_out : (o : Orchestrator q) → Step o (on_playback on_silence_timeout o)
  playback_drains :
      (o : Orchestrator q) (write : Device)
      → Step o (on_playback (λ p. (on_drain_tick write p, [])) o)
  text_in :
      (o : Orchestrator q) (starts : Bool) (write : Device) (t : q.Text)
      → Step o (text_arrives starts write t o)
  audio_in :
      (o : Orchestrator q) (opus_decode : List ℕ → Decoded) (write : Device) (frame : List ℕ)
      → Step o (audio_arrives opus_decode write frame o)
  connected :
      (o : Orchestrator q) (version : String)
      → Step o (on_client (λ c. on_connected version (record c { socket_connected = true })) o)
  lost : (o : Orchestrator q) → Step o (connection_lost o)
  heartbeat : (o : Orchestrator q) (now : String) → Step o (on_client (on_heartbeat_tick now) o)
  reconnect : (o : Orchestrator q) → Step o (on_client connect_to_server o)
  error : (o : Orchestrator q) (reason : String) → Step o (on_pipeline_error reason o)
  pre_roll_grows :
      (o : Orchestrator q) (pre_roll : List ℕ) → Step o (record o { wake_pre_roll = pre_roll })

pub data Reach {q : Qt} (o : Orchestrator q) : Orchestrator q → Type 0 where
  here : Reach o o
  next : {p r : Orchestrator q} → Reach o p → Step p r → Reach o r
