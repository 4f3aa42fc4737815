-- ===== src/Orchestrator.antt =====
-- src/pipeline/audio_session_orchestrator.cpp: the state machine of the voice pipeline. The objects
-- that it drives (client, VAD, playback) stand inside its state; the ConnectionState is the one of
-- the client. A fresh UUID, the time and the packets of the encoder are arguments.
pub mod Events
pub mod Threshold
pub mod BargeIn
pub mod Talk
pub mod PreRoll
pub mod Invariant
pub mod Streams
mod Tests
use pairion_client.Base.{
  ℕ, zero, suc, ◌+◌, String, Bool, true, false, List, [], ◌∷◌, Option, none, some, str_eq, ltb,
  if◌then◌else◌, length, take, drop,
}
use pairion_client.Qt.{Qt}
use pairion_client.Protocol.Messages.{
  OutboundMessage, wake_word_detected, new_stream_start, speech_ended, audio_stream_end_in,
  barge_in,
}
use pairion_client.Protocol.Binary.{encode_binary_frame, decode_binary_frame}
use pairion_client.ConnectionState.{set_voice_state, set_agent_state}
use pairion_client.Ws.{Client, tell, is_connected, send_message, send_binary_frame}
use pairion_client.Vad.{Vad}
use pairion_client.Vad
use pairion_client.Playback.{
  Playback, PlaybackSignal, speaking_state_changed, playback_error, Device, Decoded,
  prepare_playback, handle_opus_frame, handle_stream_end,
}
use pairion_client.Playback

pub data State : Type 0 where
  idle awaiting_wake streaming ending_speech playing_back : State

pub data PipelineSignal : Type 0 where
  wake_fired stream_ended pipeline_error : String → PipelineSignal

pub record Orchestrator (q : Qt) : Type 0 where
  pub client : Client q
  pub vad : Vad q
  -- `m_playback` may be null
  pub playback : Option Playback
  -- `m_wakeDetector->preRollBuffer()`
  pub wake_pre_roll : List ℕ
  pub state : State
  pub active_stream_id : String
  pub inbound_stream_id : String
  pub streaming_timeout : Bool
  pub barge_in_timer : Bool
  pub barge_in_timer_interval_ms : ℕ
  pub normal_vad_threshold : q.Double
  -- newest first
  pub emitted : List PipelineSignal

abbrev pub state_eq : State → State → Bool
state_eq idle idle = true
state_eq awaiting_wake awaiting_wake = true
state_eq streaming streaming = true
state_eq ending_speech ending_speech = true
state_eq playing_back playing_back = true
state_eq _ _ = false

-- `kStateNames`
abbrev pub state_name : State → String
state_name idle = "idle"
state_name awaiting_wake = "awaiting_wake"
state_name streaming = "streaming"
state_name ending_speech = "ending_speech"
state_name playing_back = "playing_back"

abbrev pub frame_bytes : ℕ
frame_bytes = 640

-- The packet that the encoder makes of a frame of PCM, or none after an error; the number is that
-- of the frame within its stream.
abbrev pub Encoder : Type 0
Encoder = ℕ → List ℕ → Option (List ℕ)

-- kBargeInVadThreshold
abbrev pub barge_in_vad_threshold : (q : Qt) → q.Double
barge_in_vad_threshold q = q.literal "0.7"

module _ {q : Qt} where
  abbrev pub on_client : (Client q → Client q) → Orchestrator q → Orchestrator q
  on_client f o = record o { client = f o.client }

  abbrev pub on_vad : (Vad q → Vad q) → Orchestrator q → Orchestrator q
  on_vad f o = record o { vad = f o.vad }

  abbrev pub signal : PipelineSignal → Orchestrator q → Orchestrator q
  signal s o = record o { emitted = s ∷ o.emitted }

  pub transition_to : State → Orchestrator q → Orchestrator q
  transition_to s o =
      if state_eq o.state s
      then o
      else on_client (tell (set_voice_state (state_name s))) (record o { state = s })

  unfoldable pub set_barge_in_timer_interval_ms : ℕ → Orchestrator q → Orchestrator q
  set_barge_in_timer_interval_ms ms o = record o { barge_in_timer_interval_ms = ms }

  unfoldable pub start_listening : Orchestrator q → Orchestrator q
  unfolding transition_to
  start_listening o = if state_eq o.state idle then transition_to awaiting_wake o else o

  unfoldable pub shutdown : Orchestrator q → Orchestrator q
  unfolding transition_to
  shutdown o = transition_to idle (record o { streaming_timeout = false })

  pub send : OutboundMessage q → Orchestrator q → Orchestrator q
  send m o = on_client (send_message m) o

  -- A packet of the pre-roll encoder goes out under the active stream.
  pub send_packet : Option (List ℕ) → Orchestrator q → Orchestrator q
  send_packet none o = o
  send_packet (some packet) o =
      on_client (send_binary_frame (encode_binary_frame q o.active_stream_id packet)) o

  -- `for (offset = 0; offset + kFrameBytes <= size; offset += kFrameBytes)`, on fuel, over what is
  -- left of the buffer.
  pub send_pre_roll : Encoder → ℕ → ℕ → List ℕ → Orchestrator q → Orchestrator q
  send_pre_roll encode zero k pre_roll o = o
  send_pre_roll encode (suc fuel) k pre_roll o =
      let rest =
        send_pre_roll encode fuel (k + 1) (drop frame_bytes pre_roll)
          (send_packet (encode k (take frame_bytes pre_roll)) o) in
      if ltb (length pre_roll) frame_bytes then o else rest

  -- The wake word is acted on.
  pub start_stream : Encoder → String → String → q.Double → List ℕ → Orchestrator q → Orchestrator q
  start_stream encode fresh now score pre_roll o =
      let o1 = record o { active_stream_id = fresh } in
      let o2 = send (new_stream_start fresh) (send (wake_word_detected now (some score)) o1) in
      let o3 = send_pre_roll encode (length pre_roll) 0 pre_roll o2 in
      let o4 = record (transition_to streaming o3) { streaming_timeout = true } in
      signal (wake_fired fresh) (on_vad Vad.reset o4)

  unfoldable pub on_wake_word_detected :
      Encoder → String → String → q.Double → List ℕ → Orchestrator q → Orchestrator q
  unfolding start_stream send send_pre_roll send_packet transition_to
  on_wake_word_detected encode fresh now score pre_roll o =
      if state_eq o.state awaiting_wake
      then (if is_connected o.client then start_stream encode fresh now score pre_roll o else o)
      else o

  unfoldable pub on_vad_speech_started : Orchestrator q → Orchestrator q
  on_vad_speech_started o =
      if state_eq o.state playing_back then record o { barge_in_timer = true } else o

  -- SpeechEnded and AudioStreamEnd for the active stream.
  pub send_end : String → Orchestrator q → Orchestrator q
  unfolding send
  send_end reason o =
      send (audio_stream_end_in o.active_stream_id reason)
        (send (speech_ended o.active_stream_id) o)

  pub end_stream : String → Orchestrator q → Orchestrator q
  unfolding send_end transition_to start_listening
  end_stream reason o =
      let o1 = send_end reason (record o { streaming_timeout = false }) in
      let o2 = start_listening (transition_to idle (record o1 { active_stream_id = "" })) in
      signal (stream_ended o.active_stream_id) o2

  unfoldable pub on_speech_ended : Orchestrator q → Orchestrator q
  unfolding end_stream
  on_speech_ended o =
      if state_eq o.state streaming
      then end_stream "normal" o
      else if state_eq o.state playing_back
      then record o { barge_in_timer = false }
      else o

  unfoldable pub on_opus_frame_encoded : List ℕ → Orchestrator q → Orchestrator q
  on_opus_frame_encoded opus_frame o =
      if state_eq o.state streaming
      then on_client (send_binary_frame (encode_binary_frame q o.active_stream_id opus_frame)) o
      else o

  unfoldable pub on_streaming_timeout : Orchestrator q → Orchestrator q
  unfolding end_stream
  on_streaming_timeout o = if state_eq o.state streaming then end_stream "timeout" o else o

  -- The end of `onTtsPlaybackStarted`.
  pub raise_threshold : Orchestrator q → Orchestrator q
  raise_threshold o =
      on_vad (λ v. Vad.set_threshold (barge_in_vad_threshold q) (Vad.reset v))
        (record o { normal_vad_threshold = o.vad.threshold })

  -- Its first branch: the upload ends without listening again.
  pub yield_stream : Orchestrator q → Orchestrator q
  unfolding send_end transition_to
  yield_stream o =
      let o1 = send_end "normal" (record o { streaming_timeout = false }) in
      signal (stream_ended o.active_stream_id)
        (transition_to playing_back (record o1 { active_stream_id = "" }))

  pub tts_started : State → Orchestrator q → Orchestrator q
  unfolding yield_stream raise_threshold transition_to
  tts_started streaming o = raise_threshold (yield_stream o)
  tts_started awaiting_wake o = raise_threshold (transition_to playing_back o)
  tts_started playing_back o = raise_threshold (record o { barge_in_timer = false })
  tts_started _ o = o

  unfoldable pub on_tts_playback_started : Orchestrator q → Orchestrator q
  unfolding tts_started
  on_tts_playback_started o = tts_started o.state o

  unfoldable pub on_tts_playback_ended : Orchestrator q → Orchestrator q
  unfolding transition_to start_listening
  on_tts_playback_ended o =
      if state_eq o.state playing_back
      then (let o1 = record o { barge_in_timer = false } in
          let o2 = on_vad (λ v. Vad.reset (Vad.set_threshold o1.normal_vad_threshold v)) o1 in
          start_listening (transition_to idle o2))
      else o

  -- The two slots on `speakingStateChanged`, in the order of their connections.
  pub react_speaking : String → Orchestrator q → Orchestrator q
  unfolding on_tts_playback_started on_tts_playback_ended
  react_speaking state o =
      let o' = on_client (tell (set_agent_state state)) o in
      if str_eq state "speaking"
      then on_tts_playback_started o'
      else if str_eq state "idle"
      then on_tts_playback_ended o'
      else o'

  -- The signals of the playback, in order. Nothing here listens to its errors.
  pub react : List PlaybackSignal → Orchestrator q → Orchestrator q
  unfolding react_speaking
  react [] o = o
  react (speaking_state_changed state ∷ signals) o = react signals (react_speaking state o)
  react (playback_error message ∷ signals) o = react signals o

  -- A call of the playback, if there is one. Its signals are handled before it returns; the slots
  -- on them do not call it.
  pub call_playback :
      (Playback → Playback × List PlaybackSignal)
      → Option Playback
      → Orchestrator q
      → Orchestrator q
  unfolding react
  call_playback f none o = o
  call_playback f (some p) o = react (f p).1 (record o { playback = some (f p).0 })

  unfoldable pub on_playback :
      (Playback → Playback × List PlaybackSignal) → Orchestrator q → Orchestrator q
  unfolding call_playback
  on_playback f o = call_playback f o.playback o

  -- `executeBargeIn` up to the AudioStreamStart of the new stream.
  pub begin_barge_in : String → Orchestrator q → Orchestrator q
  unfolding on_playback send
  begin_barge_in fresh o =
      let o1 = on_playback Playback.stop o in
      let o2 = on_vad (Vad.set_threshold o1.normal_vad_threshold) o1 in
      let o3 = record (send (barge_in o2.inbound_stream_id) o2) { active_stream_id = fresh } in
      send (new_stream_start fresh) o3

  pub execute_barge_in : Encoder → String → Orchestrator q → Orchestrator q
  unfolding begin_barge_in send_pre_roll send_packet transition_to
  execute_barge_in encode fresh o =
      let o1 = begin_barge_in fresh o in
      let pre_roll = o1.wake_pre_roll in
      let o2 = on_vad Vad.reset (send_pre_roll encode (length pre_roll) 0 pre_roll o1) in
      signal (wake_fired fresh) (record (transition_to streaming o2) { streaming_timeout = true })

  unfoldable pub on_barge_in_timer_expired : Encoder → String → Orchestrator q → Orchestrator q
  unfolding execute_barge_in
  on_barge_in_timer_expired encode fresh o =
      if state_eq o.state playing_back then execute_barge_in encode fresh o else o

  abbrev pub play_payload : (List ℕ → Decoded) → Device → List ℕ → Orchestrator q → Orchestrator q
  play_payload opus_decode write [] o = o
  play_payload opus_decode write (b ∷ payload) o =
      on_playback (handle_opus_frame opus_decode write (b ∷ payload)) o

  unfoldable pub on_inbound_audio :
      (List ℕ → Decoded) → Device → List ℕ → Orchestrator q → Orchestrator q
  unfolding on_playback
  on_inbound_audio opus_decode write binary_frame o =
      play_payload opus_decode write (decode_binary_frame binary_frame).payload o

  unfoldable pub on_inbound_audio_stream_start :
      Bool → Device → String → Orchestrator q → Orchestrator q
  unfolding on_playback
  on_inbound_audio_stream_start starts write stream_id o =
      on_playback (λ p. (prepare_playback starts write p, []))
        (record o { inbound_stream_id = stream_id })

  unfoldable pub on_inbound_stream_end : String → Orchestrator q → Orchestrator q
  unfolding on_playback
  on_inbound_stream_end reason o = on_playback (handle_stream_end reason) o

  unfoldable pub on_ws_disconnected : Orchestrator q → Orchestrator q
  unfolding transition_to
  on_ws_disconnected o =
      transition_to idle (record o { streaming_timeout = false; active_stream_id = "" })

  unfoldable pub on_ws_reconnected : Orchestrator q → Orchestrator q
  unfolding start_listening
  on_ws_reconnected o = start_listening o

  unfoldable pub on_pipeline_error : String → Orchestrator q → Orchestrator q
  unfolding transition_to
  on_pipeline_error reason o =
      signal (pipeline_error reason)
        (transition_to idle (record o { streaming_timeout = false; active_stream_id = "" }))

-- The constructor.
abbrev pub new : {q : Qt} → Client q → Vad q → Option Playback → Orchestrator q
new client vad playback = record {
  client = client;
  vad = vad;
  playback = playback;
  wake_pre_roll = [];
  state = idle;
  active_stream_id = "";
  inbound_stream_id = "";
  streaming_timeout = false;
  barge_in_timer = false;
  barge_in_timer_interval_ms = 400;
  normal_vad_threshold = vad.threshold;
  emitted = [];
}
