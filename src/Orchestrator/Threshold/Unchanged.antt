-- ===== src/Orchestrator/Threshold/Unchanged.antt =====
-- The slots on the signals of the playback, and the playback itself.
use pairion_client.Base.{
  ◌≡◌, refl, ◌∙◌, inl, inr, String, false, List, [], ◌∷◌, str_eq, if◌then◌else◌, Bool-cases,
}
use pairion_client.Qt.{Qt}
use pairion_client.ConnectionState.{set_agent_state}
use pairion_client.Vad.{Vad}
use pairion_client.Vad
use pairion_client.Playback.{PlaybackSignal, speaking_state_changed, playback_error}
use pairion_client.Ws.{tell}
use pairion_client.Orchestrator.{
  State, idle, awaiting_wake, streaming, playing_back, state_eq, Orchestrator, on_client, on_vad,
  transition_to, start_listening, send, send_end, raise_threshold, yield_stream, tts_started,
  on_tts_playback_started, on_tts_playback_ended, react_speaking, react,
}

module _ {q : Qt} where
  pub playback-transition_to :
      (s : State) (o : Orchestrator q) → (transition_to s o).playback ≡ o.playback
  unfolding transition_to
  playback-transition_to s o = elim (Bool-cases (state_eq o.state s)) [
    | inl e ↦ rw (e, if◌then◌else◌)
    | inr e ↦ rw (e, if◌then◌else◌)
  ]

  pub playback-start_listening : (o : Orchestrator q) → (start_listening o).playback ≡ o.playback
  unfolding start_listening
  playback-start_listening o = elim (Bool-cases (state_eq o.state idle)) [
    | inl e ↦ rw (e, if◌then◌else◌) (playback-transition_to awaiting_wake o)
    | inr e ↦ rw (e, if◌then◌else◌) refl
  ]

  pub playback-listen_again :
      (o : Orchestrator q) → (start_listening (transition_to idle o)).playback ≡ o.playback
  playback-listen_again o =
      playback-start_listening (transition_to idle o) ∙ playback-transition_to idle o

  pub playback-tts_started :
      (s : State) (o : Orchestrator q) → (tts_started s o).playback ≡ o.playback
  unfolding tts_started raise_threshold yield_stream send_end send
  playback-tts_started streaming o =
      playback-transition_to playing_back
        (record (send_end "normal" (record o { streaming_timeout = false })) {
          active_stream_id = "";
        })
  playback-tts_started awaiting_wake o = playback-transition_to playing_back o
  playback-tts_started playing_back o = refl
  playback-tts_started _ o = refl

  pub playback-tts_ended : (o : Orchestrator q) → (on_tts_playback_ended o).playback ≡ o.playback
  unfolding on_tts_playback_ended
  playback-tts_ended o = elim (Bool-cases (state_eq o.state playing_back)) [
    | inl e ↦
        rw (e, if◌then◌else◌)
          (playback-listen_again (
            on_vad (λ v. Vad.reset (Vad.set_threshold o.normal_vad_threshold v))
              (record o { barge_in_timer = false })))
    | inr e ↦ rw (e, if◌then◌else◌) refl
  ]

  pub playback-react_speaking :
      (s : String) (o : Orchestrator q) → (react_speaking s o).playback ≡ o.playback
  unfolding react_speaking on_tts_playback_started
  playback-react_speaking s o = elim (Bool-cases (str_eq s "speaking")) [
    | inl e ↦
        rw (e, if◌then◌else◌)
          (playback-tts_started o.state (on_client (tell (set_agent_state s)) o))
    | inr e ↦ elim (Bool-cases (str_eq s "idle")) [
      | inl i ↦
          rw (e, i, if◌then◌else◌) (playback-tts_ended (on_client (tell (set_agent_state s)) o))
      | inr i ↦ rw (e, i, if◌then◌else◌) refl
    ]
  ]

  pub react-playback :
      (signals : List PlaybackSignal) (o : Orchestrator q) → (react signals o).playback ≡ o.playback
  unfolding react
  react-playback [] o = refl
  react-playback (speaking_state_changed s ∷ signals) o =
      react-playback signals (react_speaking s o) ∙ playback-react_speaking s o
  react-playback (playback_error m ∷ signals) o = react-playback signals o
