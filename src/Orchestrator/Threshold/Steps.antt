-- ===== src/Orchestrator/Threshold/Steps.antt =====
-- The threshold over every event of the pipeline.
use pairion_client.Base.{
  ◌⊎◌, inl, inr, ◌&&◌, not, Bool-cases, arith, sym, ap, ◌∙◌, false, ◌≡◌, ◌≢◌, refl, [], Option,
}
use pairion_client.Qt.{Qt}
use pairion_client.Protocol.Envelope.{deserialize_from_string}
use pairion_client.Vad.{Vad}
use pairion_client.Vad
use pairion_client.Playback.{Playback, on_silence_timeout, on_drain_tick}
use pairion_client.Playback.Speaking.{silence-IsAnnounced, drain_tick-is_speaking}
use pairion_client.Ws.{Client}
use pairion_client.Orchestrator.{
  state_eq, awaiting_wake, playing_back, Orchestrator, on_client, transition_to, start_listening,
  shutdown, raise_threshold, tts_started, on_tts_playback_started, on_tts_playback_ended,
  on_ws_disconnected, on_ws_reconnected, on_pipeline_error, new, barge_in_vad_threshold,
}
use pairion_client.Orchestrator.Threshold.{is_speaking, IsTuned}
use pairion_client.Orchestrator.Events.{
  Step, listen, shut, wake, speech_starts, speech_ends, packet, streaming_times_out,
  barge_in_times_out, playback_times_out, playback_drains, text_in, audio_in, connected, lost,
  heartbeat, reconnect, error, pre_roll_grows, text_arrives, audio_arrives, connection_lost,
  socket_closes,
}
use pairion_client.Orchestrator.Invariant.{state_eq-eq}
use pairion_client.Orchestrator.Threshold.Slots.{
  playback-Tuned, listening-IsTuned, wake-IsTuned, speech_started-IsTuned, speech_ended-IsTuned,
  packet-IsTuned, timeout-IsTuned, barge_in-IsTuned, inbound_audio-IsTuned, respond-IsTuned,
  reset-IsTuned,
}

-- Every step but a loss of the connection, an error and a shutdown while PlayingBack.
abbrev pub IsCalm : {q : Qt} {o p : Orchestrator q} → Step o p → Type 0
IsCalm (lost o) = o.state ≢ playing_back
IsCalm (error o reason) = o.state ≢ playing_back
IsCalm (shut o) = o.state ≢ playing_back
IsCalm _ = Unit {0}

module _ {q : Qt} (n : q.Double) where
  Step-IsTuned : {o p : Orchestrator q} (s : Step o p) → IsCalm s → IsTuned n o → IsTuned n p
  unfolding text_arrives audio_arrives connection_lost on_ws_disconnected on_pipeline_error shutdown
  Step-IsTuned (listen o) c v = listening-IsTuned n o v
  Step-IsTuned (shut o) c v = reset-IsTuned n (record o { streaming_timeout = false }) c v
  Step-IsTuned (wake o encode fresh now score pre h) c v =
      wake-IsTuned n encode fresh now score pre o v
  Step-IsTuned (speech_starts o) c v = speech_started-IsTuned n o v
  Step-IsTuned (speech_ends o) c v = speech_ended-IsTuned n o v
  Step-IsTuned (packet o frame) c v = packet-IsTuned n frame o v
  Step-IsTuned (streaming_times_out o h) c v =
      timeout-IsTuned n (record o { streaming_timeout = false }) v
  Step-IsTuned (barge_in_times_out o encode fresh h k) c v =
      barge_in-IsTuned n encode fresh (record o { barge_in_timer = false }) v
  Step-IsTuned (playback_times_out o) c v =
      playback-Tuned n on_silence_timeout o (λ p. silence-IsAnnounced p) v
  Step-IsTuned (playback_drains o write) c v =
      playback-Tuned n (λ p. (on_drain_tick write p, [])) o
        (λ p. sym (drain_tick-is_speaking write p)) v
  Step-IsTuned (text_in o starts write t) c v =
      respond-IsTuned n starts write (deserialize_from_string q t) _ v
  Step-IsTuned (audio_in o opus_decode write frame) c v =
      inbound_audio-IsTuned n opus_decode write frame _ v
  Step-IsTuned (connected o version) c v = v
  Step-IsTuned (lost o) c v =
      reset-IsTuned n
        (record (on_client socket_closes o) { streaming_timeout = false; active_stream_id = "" }) c
        v
  Step-IsTuned (heartbeat o now) c v = v
  Step-IsTuned (reconnect o) c v = v
  Step-IsTuned (error o reason) c v =
      reset-IsTuned n (record o { streaming_timeout = false; active_stream_id = "" }) c v
  Step-IsTuned (pre_roll_grows o pre) c v = v

pub data CalmReach {q : Qt} (o : Orchestrator q) : Orchestrator q → Type 0 where
  here : CalmReach o o
  next : {p r : Orchestrator q} → CalmReach o p → (s : Step p r) → IsCalm s → CalmReach o r

CalmReach-IsTuned :
    {q : Qt} {n : q.Double} {o p : Orchestrator q} → IsTuned n o → CalmReach o p → IsTuned n p
CalmReach-IsTuned v here = v
CalmReach-IsTuned v (next r s c) = Step-IsTuned _ s c (CalmReach-IsTuned v r)

-- In every state that a new pipeline reaches by any events, as long as no connection is lost and
-- no error or shutdown happens during PlayingBack: outside PlayingBack the VAD has the threshold
-- that it was created with, the one saved for the end of a playback is that one too, and in
-- PlayingBack the playback is speaking, so that its "idle" is still to come.
pub CalmReach-new-IsTuned :
    {q : Qt} (client : Client q) (vad : Vad q) (playback : Option Playback) (o : Orchestrator q)
    → CalmReach (new client vad playback) o
    → ((o.state ≡ playing_back) ⊎ (o.vad.threshold ≡ vad.threshold))
      × (o.normal_vad_threshold ≡ vad.threshold)
      × ((state_eq o.state playing_back && not (is_speaking o.playback)) ≡ false)
CalmReach-new-IsTuned client vad playback o r =
    let v = CalmReach-IsTuned (record { saved = refl; tuned = λ k. refl; heard = λ k. cc }) r in
    elim (Bool-cases (state_eq o.state playing_back)) [
      | inl e ↦
          let playing = state_eq-eq o.state playing_back e in
          (inl playing, v.saved, rw (e, v.heard playing) refl)
      | inr e ↦
          let now = v.tuned (λ k. ground (arith, sym e ∙ ap (λ s. state_eq s playing_back) k)) in
          (inr now, v.saved, rw (e) refl)
    ]

-- A connection lost during PlayingBack leaves the raised threshold behind for good: with a new
-- session the pipeline listens with it, and the next playback saves and restores it as if it were
-- the normal one.
pub lost_stays_raised :
    {q : Qt} (o : Orchestrator q)
    → o.state ≡ playing_back
    → o.vad.threshold ≡ barge_in_vad_threshold q
    → let listening = on_ws_reconnected (connection_lost o) in
      let after_speech = on_tts_playback_ended (on_tts_playback_started listening) in
      (listening.state ≡ awaiting_wake)
      × (listening.vad.threshold ≡ barge_in_vad_threshold q)
      × (after_speech.state ≡ awaiting_wake)
      × (after_speech.vad.threshold ≡ barge_in_vad_threshold q)
unfolding connection_lost on_ws_disconnected on_ws_reconnected on_tts_playback_started tts_started
    raise_threshold on_tts_playback_ended start_listening transition_to Vad.reset Vad.set_threshold
lost_stays_raised o h k = rw (h) (refl, k, refl, k)
