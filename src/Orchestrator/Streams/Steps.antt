-- ===== src/Orchestrator/Streams/Steps.antt =====
-- The server's view of the streams over every event of the pipeline.
use pairion_client.Base.{
  ◌≡◌, ◌≢◌, ◌⊎◌, ◌∙◌, refl, inl, inr, arith, false, true, String, Bool, [], Option, none, some,
  Bool-cases, if◌then◌else◌,
}
use pairion_client.Qt.{Qt, JsonLaws}
use pairion_client.Protocol.Messages.{
  InboundMessage, session_opened, audio_stream_start_out, audio_stream_end_out, device_identify,
  heartbeat_ping,
}
use pairion_client.Protocol.Envelope.{deserialize_from_string}
use pairion_client.Vad.{Vad}
use pairion_client.Ws.{
  Client, drop_session, after_disconnected, on_connected, dispatch, receive, send_message,
  on_text_message_received, on_binary_message_received, on_heartbeat_tick, connect_to_server,
}
use pairion_client.Playback.{
  Playback, Device, handle_stream_end, prepare_playback, on_silence_timeout, on_drain_tick,
}
use pairion_client.Orchestrator.{
  idle, streaming, state_eq, Orchestrator, new, on_client, shutdown, on_inbound_audio_stream_start,
  on_inbound_stream_end, on_ws_disconnected, on_ws_reconnected, on_pipeline_error,
}
use pairion_client.Orchestrator.Invariant.{state_eq-eq}
use pairion_client.Orchestrator.Events.{
  Step, listen, shut, wake, speech_starts, speech_ends, packet, streaming_times_out,
  barge_in_times_out, playback_times_out, playback_drains, text_in, audio_in, connected, lost,
  heartbeat, reconnect, error, pre_roll_grows, Reach, here, next, text_arrives, audio_arrives,
  connection_lost, respond, socket_closes,
}
use pairion_client.Orchestrator.Streams.{
  Inv, IsAttributed, open_stream, heard-sent, transition-Inv, start_listening-Inv,
}
use pairion_client.Orchestrator.Streams.Upload.{
  wake-Inv, speech_ended-Inv, speech_started-Inv, packet-Inv, timeout-Inv,
}
use pairion_client.Orchestrator.Streams.Speech.{playback-Inv, barge_in-Inv, inbound_audio-Inv}

module _ {q : Qt} where
  -- What a message of the server makes the client do is no message to the server.
  receive-Inv :
      (m : Option (InboundMessage q)) (o : Orchestrator q) → Inv o → Inv (on_client (receive m) o)
  unfolding dispatch
  receive-Inv none o v = v
  receive-Inv (some (session_opened id version)) o v = record {
    opened = v.opened;
    attributed = v.attributed;
  }
  receive-Inv (some _) o v = record { opened = v.opened; attributed = v.attributed }

  respond-Inv :
      (starts : Bool) (write : Device) (m : Option (InboundMessage q)) (o : Orchestrator q)
      → Inv o
      → Inv (respond starts write m o)
  unfolding on_ws_reconnected on_inbound_audio_stream_start on_inbound_stream_end
  respond-Inv starts write (some (session_opened id version)) o v = start_listening-Inv o v
  respond-Inv starts write (some (audio_stream_start_out id codec rate)) o v =
      playback-Inv (λ p. (prepare_playback starts write p, []))
        (record o { inbound_stream_id = id }) v
  respond-Inv starts write (some (audio_stream_end_out id reason)) o v =
      playback-Inv (handle_stream_end reason) o v
  respond-Inv starts write none o v = v
  respond-Inv starts write (some _) o v = v

  text-Inv :
      (starts : Bool) (write : Device) (t : q.Text) (o : Orchestrator q)
      → Inv o
      → Inv (text_arrives starts write t o)
  unfolding text_arrives on_text_message_received
  text-Inv starts write t o v =
      respond-Inv starts write (deserialize_from_string q t) _
        (receive-Inv (deserialize_from_string q t) o v)

  trace-after_disconnected : (c : Client q) → (after_disconnected c).trace ≡ c.trace
  unfolding after_disconnected
  trace-after_disconnected c = elim (Bool-cases c.intentional_disconnect) [
    | inl e ↦ rw (e, if◌then◌else◌) refl
    | inr e ↦ rw (e, if◌then◌else◌) refl
  ]

  socket_closes-IsAttributed :
      (o : Orchestrator q)
      → IsAttributed o.client.trace
      → IsAttributed (socket_closes o.client).trace
  unfolding drop_session
  socket_closes-IsAttributed o a = a

  ws_disconnected-Inv :
      (o : Orchestrator q) → IsAttributed o.client.trace → Inv (on_ws_disconnected o)
  unfolding on_ws_disconnected
  ws_disconnected-Inv o a =
      transition-Inv idle (record o { streaming_timeout = false; active_stream_id = "" }) (λ h. cc)
        a

  shutdown-Inv : (o : Orchestrator q) → IsAttributed o.client.trace → Inv (shutdown o)
  unfolding shutdown
  shutdown-Inv o a = transition-Inv idle (record o { streaming_timeout = false }) (λ h. cc) a

  -- A pipeline error stops as a lost connection does.
  error-Inv :
      (reason : String) (o : Orchestrator q)
      → IsAttributed o.client.trace
      → Inv (on_pipeline_error reason o)
  unfolding on_pipeline_error on_ws_disconnected
  error-Inv reason o a =
      let v = ws_disconnected-Inv o a in record { opened = v.opened; attributed = v.attributed }

  lost-Inv : (o : Orchestrator q) → Inv o → Inv (connection_lost o)
  unfolding connection_lost
  lost-Inv o v =
      let o1 = on_client socket_closes o in
      rw (trace-after_disconnected (on_ws_disconnected o1).client)
        (ws_disconnected-Inv o1 (socket_closes-IsAttributed o v.attributed))

  connected-Inv :
      JsonLaws q
      → (version : String) (o : Orchestrator q) → Inv o
      → Inv (on_client (λ c. on_connected version (record c { socket_connected = true })) o)
  unfolding on_connected send_message
  connected-Inv laws version o v = record {
    opened = λ e.
        heard-sent laws (device_identify o.client.device_id o.client.bearer_token version) _ tt
        ∙ v.opened e;
    attributed = v.attributed;
  }

  heartbeat-Inv :
      JsonLaws q
      → (now : String) (o : Orchestrator q) → Inv o
      → Inv (on_client (on_heartbeat_tick now) o)
  unfolding on_heartbeat_tick send_message
  heartbeat-Inv laws now o v = record {
    opened = λ e. heard-sent laws (heartbeat_ping now) _ tt ∙ v.opened e;
    attributed = v.attributed;
  }

  -- Every step keeps the invariant.
  Step-Inv : JsonLaws q → {o p : Orchestrator q} → Step o p → Inv o → Inv p
  unfolding audio_arrives on_binary_message_received connect_to_server
  Step-Inv laws (listen o) v = start_listening-Inv o v
  Step-Inv laws (shut o) v = shutdown-Inv o v.attributed
  Step-Inv laws (wake o encode fresh now score pre h) v =
      wake-Inv laws encode fresh now score pre o v
  Step-Inv laws (speech_starts o) v = speech_started-Inv o v
  Step-Inv laws (speech_ends o) v = speech_ended-Inv o v
  Step-Inv laws (packet o frame) v = packet-Inv frame o v
  Step-Inv laws (streaming_times_out o h) v = timeout-Inv (record o { streaming_timeout = false }) v
  Step-Inv laws (barge_in_times_out o encode fresh h k) v =
      barge_in-Inv laws encode fresh (record o { barge_in_timer = false }) v
  Step-Inv laws (playback_times_out o) v = playback-Inv on_silence_timeout o v
  Step-Inv laws (playback_drains o write) v = playback-Inv (λ p. (on_drain_tick write p, [])) o v
  Step-Inv laws (text_in o starts write t) v = text-Inv starts write t o v
  Step-Inv laws (audio_in o opus_decode write frame) v =
      inbound_audio-Inv opus_decode write frame (on_client (on_binary_message_received frame) o)
        (record { opened = v.opened; attributed = v.attributed })
  Step-Inv laws (connected o version) v = connected-Inv laws version o v
  Step-Inv laws (lost o) v = lost-Inv o v
  Step-Inv laws (heartbeat o now) v = heartbeat-Inv laws now o v
  Step-Inv laws (reconnect o) v = record { opened = v.opened; attributed = v.attributed }
  Step-Inv laws (error o reason) v = error-Inv reason o v.attributed
  Step-Inv laws (pre_roll_grows o pre) v = v

  Reach-Inv : JsonLaws q → {o p : Orchestrator q} → Inv o → Reach o p → Inv p
  Reach-Inv laws v here = v
  Reach-Inv laws v (next r s) = Step-Inv laws s (Reach-Inv laws v r)

-- Given the JSON laws, after any events of a new pipeline in any order, a server that follows the
-- messages of the client has the active stream open whenever the pipeline is streaming, and every
-- binary frame that was sent carried the prefix of the stream that was open at the server when it
-- went out. The client has sent nothing before; a lost connection closes the server's stream.
pub Reach-new-IsAttributed :
    {q : Qt} (laws : JsonLaws q) (client : Client q) (vad : Vad q) (playback : Option Playback)
    (o : Orchestrator q)
    → client.trace ≡ []
    → Reach (new client vad playback) o
    → ((o.state ≢ streaming) ⊎ (open_stream o.client.trace ≡ some o.active_stream_id))
      × IsAttributed o.client.trace
Reach-new-IsAttributed laws client vad playback o h r =
    let v : Inv o = Reach-Inv laws (record { opened = λ e. cc; attributed = rw (h) tt }) r in
    elim (Bool-cases (state_eq o.state streaming)) [
      | inl e ↦ (inr (v.opened (state_eq-eq o.state streaming e)), v.attributed)
      | inr e ↦ (inl (λ f. ground (arith, e)), v.attributed)
    ]
