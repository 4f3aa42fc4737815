-- ===== src/Protocol/Envelope/Server.antt =====
-- The other end of the connection, which is not in the repository: how a peer reads the client's
-- envelopes and writes its own, by the message types of src/protocol/messages.h.
use pairion_client.Base.{
  String, Bool, false, List, [], ◌∷◌, Option, none, some, str_eq, if◌then◌else◌, ◌||◌,
}
use pairion_client.Qt.{Qt}
use pairion_client.Protocol.Messages.{
  OutboundMessage, device_identify, heartbeat_ping, wake_word_detected, audio_stream_start_in,
  speech_ended, audio_stream_end_in, text_message, barge_in, InboundMessage, session_opened,
  session_closed, heartbeat_pong, error_message, agent_state_change, transcript_partial,
  transcript_final, llm_token_stream, tool_call_started, tool_call_completed,
  audio_stream_start_out, audio_stream_end_out, under_breath_ack, map_focus, map_clear,
  background_change, overlay_add, overlay_remove, overlay_clear, scene_data_push,
}
use pairion_client.Protocol.Envelope.{object_of, string_at}

module _ (q : Qt) where
  open q use {Object, of_string, of_int, of_double, of_object, to_int, to_double, get, contains}

  abbrev confidence_at : Object → Option q.Double
  confidence_at o = if contains o "confidence" then some (to_double (get o "confidence")) else none

  -- A client message, read back from its envelope.
  unfoldable pub read_outbound : Object → Option (OutboundMessage q)
  read_outbound o =
      let type = string_at q o "type" in
      if str_eq type "DeviceIdentify"
      then some (
          device_identify (string_at q o "deviceId") (string_at q o "bearerToken")
            (string_at q o "clientVersion"))
      else if str_eq type "HeartbeatPing"
      then some (heartbeat_ping (string_at q o "timestamp"))
      else if str_eq type "WakeWordDetected"
      then some (wake_word_detected (string_at q o "timestamp") (confidence_at o))
      else if str_eq type "AudioStreamStart"
      then some (
          audio_stream_start_in (string_at q o "streamId") (string_at q o "codec")
            (to_int (get o "sampleRate")))
      else if str_eq type "SpeechEnded"
      then some (speech_ended (string_at q o "streamId"))
      else if str_eq type "AudioStreamEnd"
      then some (audio_stream_end_in (string_at q o "streamId") (string_at q o "reason"))
      else if str_eq type "TextMessage"
      then some (text_message (string_at q o "text"))
      else if str_eq type "BargeIn"
      then some (barge_in (string_at q o "interruptedStreamId"))
      else none

  abbrev read_document : Option Object → Option (OutboundMessage q)
  read_document none = none
  read_document (some o) = read_outbound o

  unfoldable pub read_text : q.Text → Option (OutboundMessage q)
  unfolding read_outbound
  read_text json = read_document (q.parse json)

  -- A server message as an envelope.
  unfoldable pub write_inbound : InboundMessage q → Object
  write_inbound (session_opened id version) = object_of q (
      ("type", of_string "SessionOpened")
      ∷ ("sessionId", of_string id)
      ∷ ("serverVersion", of_string version)
      ∷ [])
  write_inbound (session_closed reason) =
      object_of q (("type", of_string "SessionClosed") ∷ ("reason", of_string reason) ∷ [])
  write_inbound (heartbeat_pong timestamp) =
      object_of q (("type", of_string "HeartbeatPong") ∷ ("timestamp", of_string timestamp) ∷ [])
  write_inbound (error_message code message) =
      object_of q (
        ("type", of_string "Error")
        ∷ ("code", of_string code)
        ∷ ("message", of_string message)
        ∷ [])
  write_inbound (agent_state_change state) =
      object_of q (("type", of_string "AgentStateChange") ∷ ("state", of_string state) ∷ [])
  write_inbound (transcript_partial text) =
      object_of q (("type", of_string "TranscriptPartial") ∷ ("text", of_string text) ∷ [])
  write_inbound (transcript_final text) =
      object_of q (("type", of_string "TranscriptFinal") ∷ ("text", of_string text) ∷ [])
  write_inbound (llm_token_stream delta) =
      object_of q (("type", of_string "LlmTokenStream") ∷ ("delta", of_string delta) ∷ [])
  write_inbound (tool_call_started id name input) = object_of q (
      ("type", of_string "ToolCallStarted")
      ∷ ("toolCallId", of_string id)
      ∷ ("toolName", of_string name)
      ∷ ("input", of_object input)
      ∷ [])
  write_inbound (tool_call_completed id output) = object_of q (
      ("type", of_string "ToolCallCompleted")
      ∷ ("toolCallId", of_string id)
      ∷ ("output", of_object output)
      ∷ [])
  write_inbound (audio_stream_start_out id codec rate) = object_of q (
      ("type", of_string "AudioStreamStart")
      ∷ ("streamId", of_string id)
      ∷ ("codec", of_string codec)
      ∷ ("sampleRate", of_int rate)
      ∷ [])
  write_inbound (audio_stream_end_out id reason) = object_of q (
      ("type", of_string "AudioStreamEnd")
      ∷ ("streamId", of_string id)
      ∷ ("reason", of_string reason)
      ∷ [])
  write_inbound (under_breath_ack none) = object_of q (("type", of_string "UnderBreathAck") ∷ [])
  write_inbound (under_breath_ack (some kind)) =
      object_of q
        (("type", of_string "UnderBreathAck") ∷ ("acknowledgementType", of_string kind) ∷ [])
  write_inbound (map_focus lat lon label zoom) = object_of q (
      ("type", of_string "MapFocus")
      ∷ ("lat", of_double lat)
      ∷ ("lon", of_double lon)
      ∷ ("label", of_string label)
      ∷ ("zoom", of_string zoom)
      ∷ [])
  write_inbound map_clear = object_of q (("type", of_string "MapClear") ∷ [])
  write_inbound (background_change id params transition) = object_of q (
      ("type", of_string "BackgroundChange")
      ∷ ("backgroundId", of_string id)
      ∷ ("params", of_object params)
      ∷ ("transition", of_string transition)
      ∷ [])
  write_inbound (overlay_add id params) = object_of q (
      ("type", of_string "OverlayAdd")
      ∷ ("overlayId", of_string id)
      ∷ ("params", of_object params)
      ∷ [])
  write_inbound (overlay_remove id) =
      object_of q (("type", of_string "OverlayRemove") ∷ ("overlayId", of_string id) ∷ [])
  write_inbound overlay_clear = object_of q (("type", of_string "OverlayClear") ∷ [])
  write_inbound (scene_data_push id payload) =
      object_of q
        (("type", of_string "SceneDataPush") ∷ ("modelId", of_string id) ∷ ("data", payload) ∷ [])

-- The types of the envelopes that a server sends.
abbrev pub server_types : List String
server_types =
    "SessionOpened" ∷ "SessionClosed" ∷ "HeartbeatPong" ∷ "Error" ∷ "AgentStateChange"
    ∷ "TranscriptPartial" ∷ "TranscriptFinal" ∷ "LlmTokenStream" ∷ "ToolCallStarted"
    ∷ "ToolCallCompleted" ∷ "AudioStreamStart" ∷ "AudioStreamEnd" ∷ "UnderBreathAck" ∷ "MapFocus"
    ∷ "MapClear" ∷ "BackgroundChange" ∷ "OverlayAdd" ∷ "OverlayRemove" ∷ "OverlayClear"
    ∷ "SceneDataPush" ∷ []

abbrev pub one_of : String → List String → Bool
one_of s [] = false
one_of s (t ∷ ts) = str_eq s t || one_of s ts
