-- ===== src/Protocol/Envelope.antt =====
-- src/protocol/envelope_codec.cpp: messages to and from JSON envelopes. The field `type` tells
-- the messages apart.
pub mod Server
pub mod Outbound
pub mod Inbound
mod Tests
use pairion_client.Base.{String, List, [], ◌∷◌, Option, none, some, str_eq, if◌then◌else◌}
use pairion_client.Qt.{Qt}
use pairion_client.Protocol.Messages.{
  OutboundMessage, device_identify, heartbeat_ping, wake_word_detected, audio_stream_start_in,
  speech_ended, audio_stream_end_in, text_message, barge_in, InboundMessage, session_opened,
  session_closed, heartbeat_pong, error_message, agent_state_change, transcript_partial,
  transcript_final, llm_token_stream, tool_call_started, tool_call_completed,
  audio_stream_start_out, audio_stream_end_out, under_breath_ack, map_focus, map_clear,
  background_change, overlay_add, overlay_remove, overlay_clear, scene_data_push,
}

module _ (q : Qt) where
  open q use {
    Value, Object, Text, of_string, of_int, of_double, to_string, to_int, to_double, to_object,
    empty, insert, get, contains,
  }

  -- A QJsonObject from an initialiser list, or from assignments to its keys, in order.
  abbrev pub fill : Object → List (String × Value) → Object
  fill o [] = o
  fill o ((k, v) ∷ fields) = fill (insert k v o) fields

  abbrev pub object_of : List (String × Value) → Object
  object_of = fill empty

  unfoldable pub serialize : OutboundMessage q → Object
  serialize (device_identify device_id bearer_token client_version) = object_of (
      ("type", of_string "DeviceIdentify")
      ∷ ("deviceId", of_string device_id)
      ∷ ("bearerToken", of_string bearer_token)
      ∷ ("clientVersion", of_string client_version)
      ∷ [])
  serialize (heartbeat_ping timestamp) =
      object_of (("type", of_string "HeartbeatPing") ∷ ("timestamp", of_string timestamp) ∷ [])
  serialize (wake_word_detected timestamp none) =
      object_of (("type", of_string "WakeWordDetected") ∷ ("timestamp", of_string timestamp) ∷ [])
  serialize (wake_word_detected timestamp (some confidence)) = object_of (
      ("type", of_string "WakeWordDetected")
      ∷ ("timestamp", of_string timestamp)
      ∷ ("confidence", of_double confidence)
      ∷ [])
  serialize (audio_stream_start_in stream_id codec sample_rate) = object_of (
      ("type", of_string "AudioStreamStart")
      ∷ ("streamId", of_string stream_id)
      ∷ ("codec", of_string codec)
      ∷ ("sampleRate", of_int sample_rate)
      ∷ [])
  serialize (speech_ended stream_id) =
      object_of (("type", of_string "SpeechEnded") ∷ ("streamId", of_string stream_id) ∷ [])
  serialize (audio_stream_end_in stream_id reason) = object_of (
      ("type", of_string "AudioStreamEnd")
      ∷ ("streamId", of_string stream_id)
      ∷ ("reason", of_string reason)
      ∷ [])
  serialize (text_message text) =
      object_of (("type", of_string "TextMessage") ∷ ("text", of_string text) ∷ [])
  serialize (barge_in interrupted_stream_id) = object_of (
      ("type", of_string "BargeIn") ∷ ("interruptedStreamId", of_string interrupted_stream_id) ∷ [])

  unfoldable pub serialize_to_string : OutboundMessage q → Text
  serialize_to_string m = q.print (serialize m)

  -- `obj["key"].toString()`
  abbrev pub string_at : Object → String → String
  string_at o k = to_string (get o k)

  -- The member `acknowledgementType`, if it is there.
  abbrev pub ack_type : Object → Option String
  ack_type o =
      if contains o "acknowledgementType" then some (string_at o "acknowledgementType") else none

  unfoldable pub deserialize : Object → Option (InboundMessage q)
  deserialize o =
      let type = string_at o "type" in
      if str_eq type "SessionOpened"
      then some (session_opened (string_at o "sessionId") (string_at o "serverVersion"))
      else if str_eq type "SessionClosed"
      then some (session_closed (string_at o "reason"))
      else if str_eq type "HeartbeatPong"
      then some (heartbeat_pong (string_at o "timestamp"))
      else if str_eq type "Error"
      then some (error_message (string_at o "code") (string_at o "message"))
      else if str_eq type "AgentStateChange"
      then some (agent_state_change (string_at o "state"))
      else if str_eq type "TranscriptPartial"
      then some (transcript_partial (string_at o "text"))
      else if str_eq type "TranscriptFinal"
      then some (transcript_final (string_at o "text"))
      else if str_eq type "LlmTokenStream"
      then some (llm_token_stream (string_at o "delta"))
      else if str_eq type "ToolCallStarted"
      then some (
          tool_call_started (string_at o "toolCallId") (string_at o "toolName")
            (to_object (get o "input")))
      else if str_eq type "ToolCallCompleted"
      then some (tool_call_completed (string_at o "toolCallId") (to_object (get o "output")))
      else if str_eq type "AudioStreamStart"
      then some (
          audio_stream_start_out (string_at o "streamId") (string_at o "codec")
            (to_int (get o "sampleRate")))
      else if str_eq type "AudioStreamEnd"
      then some (audio_stream_end_out (string_at o "streamId") (string_at o "reason"))
      else if str_eq type "UnderBreathAck"
      then some (under_breath_ack (ack_type o))
      else if str_eq type "MapFocus"
      then some (
          map_focus (to_double (get o "lat")) (to_double (get o "lon")) (string_at o "label")
            (string_at o "zoom"))
      else if str_eq type "MapClear"
      then some map_clear
      else if str_eq type "BackgroundChange"
      then some (
          background_change (string_at o "backgroundId") (to_object (get o "params"))
            (string_at o "transition"))
      else if str_eq type "OverlayAdd"
      then some (overlay_add (string_at o "overlayId") (to_object (get o "params")))
      else if str_eq type "OverlayRemove"
      then some (overlay_remove (string_at o "overlayId"))
      else if str_eq type "OverlayClear"
      then some overlay_clear
      else if str_eq type "SceneDataPush"
      then some (scene_data_push (string_at o "modelId") (get o "data"))
      else none

  abbrev from_document : Option Object → Option (InboundMessage q)
  from_document none = none
  from_document (some o) = deserialize o

  unfoldable pub deserialize_from_string : Text → Option (InboundMessage q)
  deserialize_from_string json = from_document (q.parse json)
