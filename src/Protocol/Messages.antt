-- ===== src/Protocol/Messages.antt =====
-- src/protocol/messages.h: one constructor for each struct of the two variants.
use pairion_client.Base.{String, Option}
use pairion_client.Qt.{ℤ, pos, Qt}

pub data OutboundMessage (q : Qt) : Type 0 where
  device_identify : (device_id bearer_token client_version : String) → OutboundMessage q
  heartbeat_ping : (timestamp : String) → OutboundMessage q
  wake_word_detected : (timestamp : String) (confidence : Option q.Double) → OutboundMessage q
  audio_stream_start_in : (stream_id codec : String) (sample_rate : ℤ) → OutboundMessage q
  speech_ended : (stream_id : String) → OutboundMessage q
  audio_stream_end_in : (stream_id reason : String) → OutboundMessage q
  text_message : (text : String) → OutboundMessage q
  barge_in : (interrupted_stream_id : String) → OutboundMessage q

pub data InboundMessage (q : Qt) : Type 0 where
  session_opened : (session_id server_version : String) → InboundMessage q
  session_closed : (reason : String) → InboundMessage q
  heartbeat_pong : (timestamp : String) → InboundMessage q
  error_message : (code message : String) → InboundMessage q
  agent_state_change : (state : String) → InboundMessage q
  transcript_partial : (text : String) → InboundMessage q
  transcript_final : (text : String) → InboundMessage q
  llm_token_stream : (delta : String) → InboundMessage q
  tool_call_started : (tool_call_id tool_name : String) (input : q.Object) → InboundMessage q
  tool_call_completed : (tool_call_id : String) (output : q.Object) → InboundMessage q
  audio_stream_start_out : (stream_id codec : String) (sample_rate : ℤ) → InboundMessage q
  audio_stream_end_out : (stream_id reason : String) → InboundMessage q
  under_breath_ack : (acknowledgement_type : Option String) → InboundMessage q
  map_focus : (lat lon : q.Double) (label zoom : String) → InboundMessage q
  map_clear : InboundMessage q
  background_change :
      (background_id : String) (params : q.Object) (transition : String) → InboundMessage q
  overlay_add : (overlay_id : String) (params : q.Object) → InboundMessage q
  overlay_remove : (overlay_id : String) → InboundMessage q
  overlay_clear : InboundMessage q
  scene_data_push : (model_id : String) (payload : q.Value) → InboundMessage q

-- `AudioStreamStartIn` with its member defaults, as the pipeline fills it in.
abbrev pub new_stream_start : {q : Qt} → String → OutboundMessage q
new_stream_start stream_id = audio_stream_start_in stream_id "opus" (pos 16000)
