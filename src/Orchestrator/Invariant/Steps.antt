-- ===== src/Orchestrator/Invariant/Steps.antt =====
-- The invariant over every event of the pipeline.
use pairion_client.Base.{
  str_eq, str_eq-cases, Bool-cases, String, ◌&&◌, sym, ◌∙◌, ap, ◌⊎◌, false, inl, Bool, ◌≢◌, ◌≡◌,
  refl, [], inr, true, Option,
}
use pairion_client.Qt.{Qt}
use pairion_client.Vad.{Vad}
use pairion_client.Ws.{Client, on_binary_message_received, on_heartbeat_tick}
use pairion_client.Playback.{Playback, on_silence_timeout, on_drain_tick}
use pairion_client.Orchestrator.{
  State, state_eq, state_name, streaming, ending_speech, idle, Orchestrator, on_client, new,
}
use pairion_client.Orchestrator.Events.{
  Step, listen, shut, wake, speech_starts, speech_ends, packet, streaming_times_out,
  barge_in_times_out, playback_times_out, playback_drains, text_in, audio_in, connected, lost,
  heartbeat, reconnect, error, pre_roll_grows, Reach, here, next, audio_arrives,
}
use pairion_client.Orchestrator.Invariant.{voice, state_eq-eq, start_listening-Inv, Inv}
use pairion_client.Orchestrator.Invariant.Upload.{
  wake-Inv, speech_ended-Inv, speech_started-Inv, packet-Inv, timeout-Inv,
}
use pairion_client.Orchestrator.Invariant.Speech.{playback-Inv, barge_in-Inv, inbound_audio-Inv}
use pairion_client.Orchestrator.Invariant.Socket.{
  error-Inv, shutdown-Inv, text-Inv, lost-Inv, voice-on_connected, voice-connect_to_server,
}

module _ {q : Qt} where
  -- Every step keeps the invariant.
  pub Step-Inv : {o p : Orchestrator q} → Step o p → Inv o → Inv p
  unfolding audio_arrives on_binary_message_received on_heartbeat_tick
  Step-Inv (listen o) v = start_listening-Inv o v
  Step-Inv (shut o) v = shutdown-Inv o v.shown
  Step-Inv (wake o encode fresh now score pre h) v = wake-Inv encode fresh now score pre o h v
  Step-Inv (speech_starts o) v = speech_started-Inv o v
  Step-Inv (speech_ends o) v = speech_ended-Inv o v
  Step-Inv (packet o frame) v = packet-Inv frame o v
  Step-Inv (streaming_times_out o h) v = timeout-Inv o h v
  Step-Inv (barge_in_times_out o encode fresh h k) v = barge_in-Inv encode fresh o h v
  Step-Inv (playback_times_out o) v = playback-Inv on_silence_timeout o v
  Step-Inv (playback_drains o write) v = playback-Inv (λ p. (on_drain_tick write p, [])) o v
  Step-Inv (text_in o starts write t) v = text-Inv starts write t o v
  Step-Inv (audio_in o opus_decode write frame) v =
      inbound_audio-Inv opus_decode write frame (on_client (on_binary_message_received frame) o) v
  Step-Inv (connected o version) v =
      rw (voice-on_connected version (record (o.client) { socket_connected = true })) v
  Step-Inv (lost o) v = lost-Inv o v
  Step-Inv (heartbeat o now) v = v
  Step-Inv (reconnect o) v = rw (voice-connect_to_server o.client) v
  Step-Inv (error o reason) v = error-Inv reason o v.shown
  Step-Inv (pre_roll_grows o pre) v = v

  pub Reach-Inv : {o p : Orchestrator q} → Inv o → Reach o p → Inv p
  Reach-Inv v here = v
  Reach-Inv v (next r s) = Step-Inv s (Reach-Inv v r)

timed_eq :
    (s : State) (t : Bool)
    → (t ≡ true → s ≡ streaming)
    → (s ≡ streaming → t ≡ true)
    → t ≡ state_eq s streaming
timed_eq streaming t h k = k refl
timed_eq s false h k = elim (Bool-cases (state_eq s streaming)) [
  | inl e ↦ k (state_eq-eq s streaming e) ∙ sym e
  | inr e ↦ sym e
]
timed_eq s true h k = sym (ap (λ r. state_eq r streaming) (h refl))

named_eq :
    (s : State) (id : String)
    → (s ≡ streaming → id ≢ "")
    → (state_eq s streaming && str_eq id "") ≡ false
named_eq s id h = elim (Bool-cases (state_eq s streaming)) [
  | inr e ↦ rw (e) refl
  | inl e ↦ elim (str_eq-cases id "") [
    | inl f ↦ absurd (h (state_eq-eq s streaming e) f)
    | inr f ↦ rw (e, f) refl
  ]
]

-- In every state that a new pipeline reaches, by any events in any order: the streaming timeout
-- runs exactly while the state is Streaming, the state EndingSpeech is never entered, a streaming
-- pipeline has an active stream id, and the voice state shown is the name of the state, unless
-- the pipeline is idle and has not yet shown any state. Stream ids are not empty, and the
-- connection state that the client starts with shows no voice state.
pub Reach-new-Holds :
    {q : Qt} (client : Client q) (vad : Vad q) (playback : Option Playback) (o : Orchestrator q)
    → client.conn_state.props.voice_state ≡ ""
    → Reach (new client vad playback) o
    → (o.streaming_timeout ≡ state_eq o.state streaming)
      × (o.state ≢ ending_speech)
      × ((state_eq o.state streaming && str_eq o.active_stream_id "") ≡ false)
      × ((voice o ≡ state_name o.state) ⊎ ((o.state ≡ idle) × (voice o ≡ "")))
Reach-new-Holds client vad playback o h r =
    let v : Inv o =
      Reach-Inv
        (record {
          timed = λ e. cc;
          running = λ e. cc;
          never_ending = λ e. cc;
          named = λ e. cc;
          shown = inr (refl, h);
        })
        r in
    (
      timed_eq o.state o.streaming_timeout v.timed v.running,
      v.never_ending,
      named_eq o.state o.active_stream_id v.named,
      v.shown,
    )
