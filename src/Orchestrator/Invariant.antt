-- ===== src/Orchestrator/Invariant.antt =====
-- What holds of the voice pipeline between two events.
pub mod Upload
pub mod Speech
pub mod Socket
pub mod Steps
use pairion_client.Base.{
  ℕ, ◌≡◌, ◌≢◌, refl, sym, ◌∙◌, ◌⊎◌, inl, inr, String, Bool, true, false, List, [], ◌∷◌, Option,
  none, some, arith, str_eq, if◌then◌else◌, eq_iff, Bool-cases, length,
}
use pairion_client.Qt.{Qt}
use pairion_client.Protocol.Messages.{
  InboundMessage, session_opened, audio_stream_start_out, audio_stream_end_out,
}
use pairion_client.Protocol.Envelope.{deserialize_from_string}
use pairion_client.ConnectionState.{
  ConnectionState, set_status, set_session_id, set_server_version, set_reconnect_attempts,
  set_transcript_partial, set_transcript_final, set_agent_state, set_voice_state, append_llm_token,
  clear_llm_response, set_map_focus, clear_map_focus, set_background, add_overlay, remove_overlay,
  clear_overlays, set_scene_data,
}
use pairion_client.Protocol.Binary.{decode_binary_frame}
use pairion_client.Playback
use pairion_client.Vad
use pairion_client.Vad.{Vad}
use pairion_client.Ws.{
  Client, tell, send_message, send_binary_frame, drop_session, after_disconnected, on_connected,
  dispatch, receive, on_text_message_received, on_binary_message_received, on_heartbeat_tick,
  connect_to_server,
}
use pairion_client.Playback.{
  Playback, PlaybackSignal, Device, Decoded, speaking_state_changed, playback_error,
  handle_opus_frame, handle_stream_end, prepare_playback, on_silence_timeout,
}
use pairion_client.Orchestrator.{
  State, idle, awaiting_wake, streaming, ending_speech, playing_back, state_eq, state_name,
  Orchestrator, Encoder, on_client, on_vad, begin_barge_in, transition_to, start_listening,
  shutdown, send, start_stream, on_wake_word_detected, on_vad_speech_started, send_end, end_stream,
  on_speech_ended, on_opus_frame_encoded, on_streaming_timeout, raise_threshold, yield_stream,
  tts_started, on_tts_playback_started, on_tts_playback_ended, react_speaking, react, call_playback,
  on_playback, execute_barge_in, on_barge_in_timer_expired, play_payload, on_inbound_audio,
  on_inbound_audio_stream_start, on_inbound_stream_end, on_ws_disconnected, on_ws_reconnected,
  on_pipeline_error, send_pre_roll, new,
}
use pairion_client.Orchestrator.PreRoll.{send_pre_roll-trace}
use pairion_client.Orchestrator.Events.{
  Step, listen, shut, wake, speech_starts, speech_ends, packet, streaming_times_out,
  barge_in_times_out, playback_times_out, text_in, audio_in, connected, lost, heartbeat, reconnect,
  error, pre_roll_grows, Reach, here, next, text_arrives, audio_arrives, connection_lost, respond,
  socket_closes,
}

abbrev pub voice : {q : Qt} → Orchestrator q → String
voice o = o.client.conn_state.props.voice_state

-- The state, the streaming timeout, the active stream and the voice state that QML shows.
pub record Holds (s : State) (timeout : Bool) (id shown_state : String) : Type 0 where
  -- the streaming timeout runs just while streaming
  pub timed : timeout ≡ true → s ≡ streaming
  pub running : s ≡ streaming → timeout ≡ true
  pub never_ending : s ≢ ending_speech
  pub named : s ≡ streaming → id ≢ ""
  -- QML shows the state, but for the idle state at the start
  pub shown : (shown_state ≡ state_name s) ⊎ ((s ≡ idle) × (shown_state ≡ ""))

abbrev pub Inv : {q : Qt} → Orchestrator q → Type 0
Inv o = Holds o.state o.streaming_timeout o.active_stream_id (voice o)

abbrev pub IsShown : {q : Qt} → Orchestrator q → Type 0
IsShown o = (voice o ≡ state_name o.state) ⊎ ((o.state ≡ idle) × (voice o ≡ ""))

pub state_eq-eq : (s t : State) → state_eq s t ≡ true → s ≡ t
state_eq-eq s t h = ground arith

module _ {q : Qt} where
  pub voice-set_voice_state :
      (s : String) (c : ConnectionState q) → (set_voice_state s c).props.voice_state ≡ s
  unfolding set_voice_state
  voice-set_voice_state s c = ground (arith, eq_iff c.props.voice_state s)

  -- A transition to a state other than Streaming, with the timeout stopped.
  pub transition-Inv :
      (s : State) (o : Orchestrator q)
      → s ≢ streaming
      → s ≢ ending_speech
      → o.streaming_timeout ≡ false
      → IsShown o
      → Inv (transition_to s o)
  unfolding transition_to
  transition-Inv s o h k t v =
      let w = voice-set_voice_state (state_name s) o.client.conn_state in
      record {
        timed = λ e. ground arith;
        running = λ e. ground (arith, state_eq-eq o.state s);
        never_ending = λ e. ground (arith, state_eq-eq o.state s);
        named = λ e. ground (arith, state_eq-eq o.state s);
        shown = ground (arith, w, state_eq-eq o.state s);
      }

  -- A transition to Streaming, with the timeout started.
  pub streaming-Inv :
      (o : Orchestrator q)
      → o.active_stream_id ≢ ""
      → IsShown o
      → Inv (record (transition_to streaming o) { streaming_timeout = true })
  unfolding transition_to
  streaming-Inv o h v =
      let w = voice-set_voice_state "streaming" o.client.conn_state in
      record {
        timed = λ e. ground (arith, state_eq-eq o.state streaming);
        running = λ e. refl;
        never_ending = λ e. ground (arith, state_eq-eq o.state streaming);
        named = λ e f. h (ground arith);
        shown = ground (arith, w, state_eq-eq o.state streaming);
      }

  -- The timeout is stopped outside Streaming.
  pub stopped : (o : Orchestrator q) → Inv o → o.state ≢ streaming → o.streaming_timeout ≡ false
  stopped o v h = elim (Bool-cases o.streaming_timeout) [
    | inl e ↦ absurd (h (v.timed e))
    | inr e ↦ e
  ]

  pub start_listening-Inv : (o : Orchestrator q) → Inv o → Inv (start_listening o)
  unfolding start_listening
  start_listening-Inv o v = elim (Bool-cases (state_eq o.state idle)) [
    | inl e ↦
        rw (e, if◌then◌else◌)
          (transition-Inv awaiting_wake o (λ h. cc) (λ h. cc)
            (stopped o v (λ h. ground (arith, state_eq-eq o.state idle))) v.shown)
    | inr e ↦ rw (e, if◌then◌else◌) v
  ]

  -- To Idle, and on to AwaitingWake.
  pub listen_again-Inv :
      (o : Orchestrator q)
      → o.streaming_timeout ≡ false
      → IsShown o
      → Inv (start_listening (transition_to idle o))
  listen_again-Inv o t v =
      start_listening-Inv (transition_to idle o) (transition-Inv idle o (λ h. cc) (λ h. cc) t v)

  pub end_stream-Inv :
      (reason : String) (o : Orchestrator q) → IsShown o → Inv (end_stream reason o)
  unfolding end_stream send_end send send_message
  end_stream-Inv reason o v = listen_again-Inv _ refl v

  pub pre_roll-IsShown :
      (encode : Encoder) (fuel k : ℕ) (pre_roll : List ℕ) (o : Orchestrator q)
      → IsShown o
      → IsShown (send_pre_roll encode fuel k pre_roll o)
  pre_roll-IsShown encode fuel k pre_roll o v = rw (send_pre_roll-trace encode fuel k pre_roll o) v

  pub pre_roll-id :
      (encode : Encoder) (fuel k : ℕ) (pre_roll : List ℕ) (o : Orchestrator q)
      → (send_pre_roll encode fuel k pre_roll o).active_stream_id ≡ o.active_stream_id
  pre_roll-id encode fuel k pre_roll o = rw (send_pre_roll-trace encode fuel k pre_roll o)
