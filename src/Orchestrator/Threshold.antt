-- ===== src/Orchestrator/Threshold.antt =====
-- The threshold of the VAD, which the voice pipeline raises for a playback.
pub mod Unchanged
pub mod Slots
pub mod Steps
use pairion_client.Base.{
  ℕ, ◌≡◌, ◌≢◌, refl, sym, ◌∙◌, ap, subst, ◌⊎◌, inl, inr, String, Bool, true, false, List, [], ◌∷◌,
  Option, none, some, arith, str_eq, if◌then◌else◌, eq_iff, Bool-cases, length,
}
use pairion_client.Qt.{Qt}
use pairion_client.Protocol.Messages.{
  InboundMessage, session_opened, audio_stream_start_out, audio_stream_end_out,
}
use pairion_client.Protocol.Envelope.{deserialize_from_string}
use pairion_client.Protocol.Binary.{decode_binary_frame}
use pairion_client.ConnectionState.{set_agent_state, set_voice_state}
use pairion_client.Vad.{Vad}
use pairion_client.Vad
use pairion_client.Playback
use pairion_client.Playback.{
  Playback, PlaybackSignal, Device, Decoded, speaking_state_changed, playback_error,
  handle_opus_frame, handle_stream_end, prepare_playback, on_silence_timeout,
}
use pairion_client.Playback.Speaking.{
  Announces, IsAnnounced, opus-IsAnnounced, stream_end-IsAnnounced, stop-IsAnnounced,
  silence-IsAnnounced, prepare-is_speaking,
}
use pairion_client.Ws.{Client, tell}
use pairion_client.Orchestrator.{
  State, idle, awaiting_wake, streaming, ending_speech, playing_back, state_eq, state_name,
  Orchestrator, Encoder, on_client, on_vad, transition_to, start_listening, shutdown, send,
  start_stream, on_wake_word_detected, on_vad_speech_started, send_end, end_stream, on_speech_ended,
  on_opus_frame_encoded, on_streaming_timeout, raise_threshold, yield_stream, tts_started,
  on_tts_playback_started, on_tts_playback_ended, react_speaking, react, call_playback, on_playback,
  begin_barge_in, execute_barge_in, on_barge_in_timer_expired, play_payload, on_inbound_audio,
  on_inbound_audio_stream_start, on_inbound_stream_end, on_ws_disconnected, on_ws_reconnected,
  on_pipeline_error, send_pre_roll, new, signal, stream_ended,
}
use pairion_client.Orchestrator.Invariant.{state_eq-eq}

abbrev pub is_speaking : Option Playback → Bool
is_speaking none = false
is_speaking (some p) = p.is_speaking

-- The speech, the state, the threshold and the saved threshold, where `n` is the normal one.
pub record Tuned {D : Type 0} (n : D) (speaking : Bool) (s : State) (threshold normal : D)
    : Type 0 where
  pub saved : normal ≡ n
  pub tuned : s ≢ playing_back → threshold ≡ n
  pub heard : s ≡ playing_back → speaking ≡ true

module _ {q : Qt} where
  abbrev pub TunedBy : q.Double → Bool → Orchestrator q → Type 0
  TunedBy n speaking o = Tuned n speaking o.state o.vad.threshold o.normal_vad_threshold

  abbrev pub IsTuned : q.Double → Orchestrator q → Type 0
  IsTuned n o = TunedBy n (is_speaking o.playback) o

  pub state-transition_to : (s : State) (o : Orchestrator q) → (transition_to s o).state ≡ s
  unfolding transition_to
  state-transition_to s o = elim (Bool-cases (state_eq o.state s)) [
    | inl e ↦ rw (e, if◌then◌else◌) (state_eq-eq o.state s e)
    | inr e ↦ rw (e, if◌then◌else◌) refl
  ]

  -- A transition to another state than PlayingBack, with the normal threshold in place.
  pub transition-Tuned :
      (n : q.Double) (b : Bool) (s : State) (o : Orchestrator q)
      → s ≢ playing_back
      → o.normal_vad_threshold ≡ n
      → o.vad.threshold ≡ n
      → TunedBy n b (transition_to s o)
  unfolding transition_to
  transition-Tuned n b s o h normal now = elim (Bool-cases (state_eq o.state s)) [
    | inl e ↦
        rw (e, if◌then◌else◌)
          (record {
            saved = normal;
            tuned = λ k. now;
            heard = λ k. absurd (h (sym (state_eq-eq o.state s e) ∙ k));
          })
    | inr e ↦
        rw (e, if◌then◌else◌)
          (record { saved = normal; tuned = λ k. now; heard = λ k. absurd (h k) })
  ]

  pub start_listening-Tuned :
      (n : q.Double) (b : Bool) (o : Orchestrator q)
      → TunedBy n b o
      → TunedBy n b (start_listening o)
  unfolding start_listening
  start_listening-Tuned n b o v = elim (Bool-cases (state_eq o.state idle)) [
    | inl e ↦
        rw (e, if◌then◌else◌)
          (transition-Tuned n b awaiting_wake o (λ k. cc) v.saved
            (v.tuned (λ k. ground (arith, state_eq-eq o.state idle))))
    | inr e ↦ rw (e, if◌then◌else◌) v
  ]

  listen_again-Tuned :
      (n : q.Double) (b : Bool) (o : Orchestrator q)
      → o.normal_vad_threshold ≡ n
      → o.vad.threshold ≡ n
      → TunedBy n b (start_listening (transition_to idle o))
  listen_again-Tuned n b o normal now =
      start_listening-Tuned n b (transition_to idle o)
        (transition-Tuned n b idle o (λ k. cc) normal now)

  pub end_stream-Tuned :
      (n : q.Double) (b : Bool) (reason : String) (o : Orchestrator q)
      → o.normal_vad_threshold ≡ n
      → o.vad.threshold ≡ n
      → TunedBy n b (end_stream reason o)
  unfolding end_stream send_end send
  end_stream-Tuned n b reason o normal now = listen_again-Tuned n b _ normal now

  -- The threshold goes up when speech is heard that was not heard before.
  raise-Tuned :
      (n : q.Double) (o : Orchestrator q)
      → o.vad.threshold ≡ n
      → o.state ≡ playing_back
      → TunedBy n true (raise_threshold o)
  unfolding raise_threshold Vad.reset Vad.set_threshold
  raise-Tuned n o now h = record { saved = now; tuned = λ k. absurd (k h); heard = λ k. refl }

  threshold-transition_to :
      (s : State) (o : Orchestrator q) → (transition_to s o).vad.threshold ≡ o.vad.threshold
  unfolding transition_to
  threshold-transition_to s o = elim (Bool-cases (state_eq o.state s)) [
    | inl e ↦ rw (e, if◌then◌else◌)
    | inr e ↦ rw (e, if◌then◌else◌)
  ]

  tts_started-Tuned :
      (n : q.Double) (s : State) (o : Orchestrator q)
      → o.state ≡ s
      → TunedBy n false o
      → TunedBy n true (tts_started s o)
  unfolding tts_started yield_stream send_end send
  tts_started-Tuned n streaming o e v =
      let o0 = record (send_end "normal" (record o { streaming_timeout = false })) {
        active_stream_id = "";
      } in
      raise-Tuned n (signal (stream_ended o.active_stream_id) (transition_to playing_back o0))
        (threshold-transition_to playing_back o0 ∙ v.tuned (λ k. cc))
        (state-transition_to playing_back o0)
  tts_started-Tuned n awaiting_wake o e v =
      raise-Tuned n (transition_to playing_back o)
        (threshold-transition_to playing_back o ∙ v.tuned (λ k. cc))
        (state-transition_to playing_back o)
  tts_started-Tuned n playing_back o e v = absurd (ground (arith, v.heard e))
  tts_started-Tuned n _ o e v = record { saved = v.saved; tuned = v.tuned; heard = λ k. refl }

  tts_ended-Tuned :
      (n : q.Double) (o : Orchestrator q)
      → TunedBy n true o
      → TunedBy n false (on_tts_playback_ended o)
  unfolding on_tts_playback_ended Vad.reset Vad.set_threshold
  tts_ended-Tuned n o v = elim (Bool-cases (state_eq o.state playing_back)) [
    | inl e ↦ rw (e, if◌then◌else◌) (listen_again-Tuned n false _ v.saved v.saved)
    | inr e ↦
        rw (e, if◌then◌else◌)
          (record {
            saved = v.saved;
            tuned = v.tuned;
            heard = λ k. absurd (ground (arith, sym e ∙ ap (λ s. state_eq s playing_back) k));
          })
  ]

  -- The slots on the signals of a playback that announces what it does.
  pub react-Tuned :
      (n : q.Double) (signals : List PlaybackSignal) (b c : Bool) (o : Orchestrator q)
      → Announces b signals c
      → TunedBy n b o
      → TunedBy n c (react signals o)
  unfolding react react_speaking on_tts_playback_started
  react-Tuned n [] b c o h v = subst (λ d. TunedBy n d o) h v
  react-Tuned n (speaking_state_changed s ∷ signals) b c o (inl h) v =
      rw (h.0, if◌then◌else◌)
        (react-Tuned n signals true c _ h.2
          (tts_started-Tuned n o.state _ refl (subst (λ d. TunedBy n d o) h.1 v)))
  react-Tuned n (speaking_state_changed s ∷ signals) b c o (inr h) v =
      rw (h.0, if◌then◌else◌)
        (react-Tuned n signals false c _ h.2
          (tts_ended-Tuned n _ (subst (λ d. TunedBy n d o) h.1 v)))
  react-Tuned n (playback_error m ∷ signals) b c o h v = react-Tuned n signals b c o h v
