-- ===== src/Orchestrator/Streams/Speech.antt =====
-- The server's view of the streams over the events of the playback and of barge-in.
use pairion_client.Base.{
  ℕ, ◌≡◌, inl, inr, false, length, String, List, [], ◌∷◌, Option, none, some, str_eq, if◌then◌else◌,
  Bool-cases,
}
use pairion_client.Qt.{Qt, JsonLaws}
use pairion_client.Protocol.Binary.{decode_binary_frame}
use pairion_client.Playback
use pairion_client.Vad
use pairion_client.Vad.{Vad}
use pairion_client.Ws.{send_message, tell}
use pairion_client.ConnectionState.{set_agent_state}
use pairion_client.Playback.{
  Playback, PlaybackSignal, Decoded, Device, speaking_state_changed, playback_error,
  handle_opus_frame,
}
use pairion_client.Orchestrator.{
  State, awaiting_wake, streaming, playing_back, state_eq, Orchestrator, Encoder, on_client, on_vad,
  send_pre_roll, begin_barge_in, send, send_end, raise_threshold, yield_stream, tts_started,
  on_tts_playback_started, on_tts_playback_ended, react_speaking, react, call_playback, on_playback,
  execute_barge_in, on_barge_in_timer_expired, play_payload, on_inbound_audio,
}
use pairion_client.Orchestrator.Streams.{
  Inv, transition-Inv, listen_again-Inv, streaming-Inv, pre_roll_lem, open_stream, IsAttributed,
  heard-new_stream_start,
}

module _ {q : Qt} where
  tts_started-Inv : (s : State) (o : Orchestrator q) → Inv o → Inv (tts_started s o)
  unfolding tts_started raise_threshold yield_stream send_end send send_message
  tts_started-Inv streaming o v =
      let ended = send_end "normal" (record o { streaming_timeout = false }) in
      transition-Inv playing_back (record ended { active_stream_id = "" }) (λ h. cc) v.attributed
  tts_started-Inv awaiting_wake o v = transition-Inv playing_back o (λ h. cc) v.attributed
  tts_started-Inv playing_back o v = v
  tts_started-Inv _ o v = v

  tts_ended-Inv : (o : Orchestrator q) → Inv o → Inv (on_tts_playback_ended o)
  unfolding on_tts_playback_ended
  tts_ended-Inv o v = elim (Bool-cases (state_eq o.state playing_back)) [
    | inl e ↦ rw (e, if◌then◌else◌) (listen_again-Inv _ v.attributed)
    | inr e ↦ rw (e, if◌then◌else◌) v
  ]

  react_speaking-Inv : (s : String) (o : Orchestrator q) → Inv o → Inv (react_speaking s o)
  unfolding react_speaking on_tts_playback_started
  react_speaking-Inv s o v =
      let agent : Inv (on_client (tell (set_agent_state s)) o) = v in
      elim (Bool-cases (str_eq s "speaking")) [
        | inl e ↦ rw (e, if◌then◌else◌) (tts_started-Inv o.state _ agent)
        | inr e ↦ elim (Bool-cases (str_eq s "idle")) [
          | inl p ↦ rw (e, p, if◌then◌else◌) (tts_ended-Inv _ agent)
          | inr p ↦ rw (e, p, if◌then◌else◌) agent
        ]
      ]

  react-Inv : (signals : List PlaybackSignal) (o : Orchestrator q) → Inv o → Inv (react signals o)
  unfolding react
  react-Inv [] o v = v
  react-Inv (speaking_state_changed s ∷ signals) o v =
      react-Inv signals (react_speaking s o) (react_speaking-Inv s o v)
  react-Inv (playback_error message ∷ signals) o v = react-Inv signals o v

  call_playback-Inv :
      (f : Playback → Playback × List PlaybackSignal) (p : Option Playback) (o : Orchestrator q)
      → Inv o
      → Inv (call_playback f p o)
  unfolding call_playback
  call_playback-Inv f none o v = v
  call_playback-Inv f (some p) o v = react-Inv (f p).1 _ v

  pub playback-Inv :
      (f : Playback → Playback × List PlaybackSignal) (o : Orchestrator q)
      → Inv o
      → Inv (on_playback f o)
  unfolding on_playback
  playback-Inv f o v = call_playback-Inv f o.playback o v

  begin_barge_in-opened :
      JsonLaws q
      → (fresh : String) (o : Orchestrator q)
      → open_stream (begin_barge_in fresh o).client.trace
        ≡ some (begin_barge_in fresh o).active_stream_id
  unfolding begin_barge_in send send_message
  begin_barge_in-opened laws fresh o = heard-new_stream_start laws fresh _

  begin_barge_in-IsAttributed :
      (fresh : String) (o : Orchestrator q)
      → Inv o
      → IsAttributed (begin_barge_in fresh o).client.trace
  unfolding begin_barge_in send send_message
  begin_barge_in-IsAttributed fresh o v = (playback-Inv Playback.stop o v).attributed

  execute-Inv :
      JsonLaws q
      → (encode : Encoder) (fresh : String) (o : Orchestrator q) → Inv o
      → Inv (execute_barge_in encode fresh o)
  unfolding execute_barge_in
  execute-Inv laws encode fresh o v =
      let o1 = begin_barge_in fresh o in
      let pre = o1.wake_pre_roll in
      let sent =
        pre_roll_lem encode pre o1 (begin_barge_in-opened laws fresh o)
          (begin_barge_in-IsAttributed fresh o v) in
      streaming-Inv (on_vad Vad.reset (send_pre_roll encode (length pre) 0 pre o1)) sent.0 sent.1

  pub barge_in-Inv :
      JsonLaws q
      → (encode : Encoder) (fresh : String) (o : Orchestrator q) → Inv o
      → Inv (on_barge_in_timer_expired encode fresh o)
  unfolding on_barge_in_timer_expired
  barge_in-Inv laws encode fresh o v = elim (Bool-cases (state_eq o.state playing_back)) [
    | inr e ↦ rw (e, if◌then◌else◌) v
    | inl e ↦ rw (e, if◌then◌else◌) (execute-Inv laws encode fresh o v)
  ]

  pub inbound_audio-Inv :
      (opus_decode : List ℕ → Decoded) (write : Device) (frame : List ℕ) (o : Orchestrator q)
      → Inv o
      → Inv (on_inbound_audio opus_decode write frame o)
  unfolding on_inbound_audio
  inbound_audio-Inv opus_decode write frame o v = play (decode_binary_frame frame).payload
    where
      play : (payload : List ℕ) → Inv (play_payload opus_decode write payload o)
      play [] = v
      play (b ∷ payload) = playback-Inv (handle_opus_frame opus_decode write (b ∷ payload)) o v
