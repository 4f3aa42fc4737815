-- ===== src/Orchestrator/Invariant/Socket.antt =====
-- The invariant over the events of the socket.
use pairion_client.Base.{◌≡◌, refl, String, Bool, [], Option, none, some, arith}
use pairion_client.Qt.{Qt}
use pairion_client.Protocol.Messages.{
  InboundMessage, session_opened, audio_stream_start_out, audio_stream_end_out,
}
use pairion_client.Protocol.Envelope.{deserialize_from_string}
use pairion_client.ConnectionState.{
  set_status, set_session_id, set_server_version, set_reconnect_attempts, set_transcript_partial,
  set_transcript_final, set_agent_state, append_llm_token, clear_llm_response, set_map_focus,
  clear_map_focus, set_background, add_overlay, remove_overlay, clear_overlays, set_scene_data,
}
use pairion_client.Ws.{
  Client, drop_session, after_disconnected, on_connected, dispatch, receive,
  on_text_message_received, connect_to_server,
}
use pairion_client.Playback.{Device, handle_stream_end, prepare_playback}
use pairion_client.Orchestrator.{
  idle, Orchestrator, on_client, shutdown, on_inbound_audio_stream_start, on_inbound_stream_end,
  on_ws_disconnected, on_ws_reconnected, on_pipeline_error,
}
use pairion_client.Orchestrator.Events.{text_arrives, connection_lost, respond, socket_closes}
use pairion_client.Orchestrator.Invariant.{transition-Inv, start_listening-Inv, Inv, IsShown}
use pairion_client.Orchestrator.Invariant.Speech.{playback-Inv}

module _ {q : Qt} where
  pub ws_disconnected-Inv : (o : Orchestrator q) → IsShown o → Inv (on_ws_disconnected o)
  unfolding on_ws_disconnected
  ws_disconnected-Inv o v = transition-Inv idle _ (λ h. cc) (λ h. cc) refl v

  pub error-Inv :
      (reason : String) (o : Orchestrator q) → IsShown o → Inv (on_pipeline_error reason o)
  unfolding on_pipeline_error
  error-Inv reason o v = transition-Inv idle _ (λ h. cc) (λ h. cc) refl v

  pub shutdown-Inv : (o : Orchestrator q) → IsShown o → Inv (shutdown o)
  unfolding shutdown
  shutdown-Inv o v = transition-Inv idle _ (λ h. cc) (λ h. cc) refl v

  -- The messages of the server do not touch the voice state.
  pub voice-receive :
      (m : Option (InboundMessage q)) (c : Client q)
      → (receive m c).conn_state.props.voice_state ≡ c.conn_state.props.voice_state
  unfolding dispatch set_status set_session_id set_server_version set_transcript_partial
      set_transcript_final set_agent_state append_llm_token clear_llm_response set_map_focus
      clear_map_focus set_background add_overlay remove_overlay clear_overlays set_scene_data
  voice-receive none c = refl
  voice-receive (some (session_opened i v)) c = ground arith
  voice-receive (some _) c = ground arith

  pub respond-Inv :
      (starts : Bool) (write : Device) (m : Option (InboundMessage q)) (o : Orchestrator q)
      → Inv o
      → Inv (respond starts write m o)
  unfolding on_ws_reconnected on_inbound_audio_stream_start on_inbound_stream_end
  respond-Inv starts write (some (session_opened id version)) o v = start_listening-Inv o v
  respond-Inv starts write (some (audio_stream_start_out id codec rate)) o v =
      playback-Inv (λ p. (prepare_playback starts write p, []))
        (record o { inbound_stream_id = id }) v
  respond-Inv starts write (some (audio_stream_end_out id reason)) o v =
      playback-Inv (handle_stream_end reason) o v
  respond-Inv starts write none o v = v
  respond-Inv starts write (some _) o v = v

  pub text-Inv :
      (starts : Bool) (write : Device) (t : q.Text) (o : Orchestrator q)
      → Inv o
      → Inv (text_arrives starts write t o)
  unfolding text_arrives on_text_message_received
  text-Inv starts write t o v =
      respond-Inv starts write (deserialize_from_string q t) _
        (rw (voice-receive (deserialize_from_string q t) o.client) v)

  pub voice-socket_closes :
      (c : Client q)
      → (socket_closes c).conn_state.props.voice_state ≡ c.conn_state.props.voice_state
  unfolding drop_session set_session_id set_server_version
  voice-socket_closes c = ground arith

  pub voice-after_disconnected :
      (c : Client q)
      → (after_disconnected c).conn_state.props.voice_state ≡ c.conn_state.props.voice_state
  unfolding after_disconnected set_status set_reconnect_attempts
  voice-after_disconnected c = ground arith

  pub lost-Inv : (o : Orchestrator q) → Inv o → Inv (connection_lost o)
  unfolding connection_lost
  lost-Inv o v =
      let o1 = on_client socket_closes o in
      rw (voice-after_disconnected (on_ws_disconnected o1).client)
        (ws_disconnected-Inv o1 (rw (voice-socket_closes o.client) v.shown))

  pub voice-on_connected :
      (version : String) (c : Client q)
      → (on_connected version c).conn_state.props.voice_state ≡ c.conn_state.props.voice_state
  unfolding on_connected set_reconnect_attempts
  voice-on_connected version c = ground arith

  pub voice-connect_to_server :
      (c : Client q)
      → (connect_to_server c).conn_state.props.voice_state ≡ c.conn_state.props.voice_state
  unfolding connect_to_server set_status
  voice-connect_to_server c = ground arith
