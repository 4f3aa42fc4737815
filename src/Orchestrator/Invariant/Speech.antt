-- ===== src/Orchestrator/Invariant/Speech.antt =====
-- The invariant over the events of the playback and of barge-in.
use pairion_client.Base.{
  ℕ, ◌≡◌, ◌≢◌, refl, sym, ◌∙◌, inl, inr, String, false, List, [], ◌∷◌, Option, none, some, arith,
  str_eq, if◌then◌else◌, Bool-cases, length,
}
use pairion_client.Qt.{Qt}
use pairion_client.ConnectionState.{ConnectionState, set_agent_state}
use pairion_client.Protocol.Binary.{decode_binary_frame}
use pairion_client.Playback
use pairion_client.Vad
use pairion_client.Vad.{Vad}
use pairion_client.Ws.{tell, send_message}
use pairion_client.Playback.{
  Playback, PlaybackSignal, Device, Decoded, speaking_state_changed, playback_error,
  handle_opus_frame, handle_stream_end, prepare_playback, on_silence_timeout,
}
use pairion_client.Orchestrator.{
  State, awaiting_wake, streaming, playing_back, state_eq, Orchestrator, Encoder, on_client, on_vad,
  begin_barge_in, send, send_end, raise_threshold, yield_stream, tts_started,
  on_tts_playback_started, on_tts_playback_ended, react_speaking, react, call_playback, on_playback,
  execute_barge_in, on_barge_in_timer_expired, play_payload, on_inbound_audio, send_pre_roll,
}
use pairion_client.Orchestrator.Invariant.{
  state_eq-eq, transition-Inv, streaming-Inv, stopped, listen_again-Inv, pre_roll-IsShown,
  pre_roll-id, Inv, IsShown,
}

module _ {q : Qt} where
  pub tts_started-Inv :
      (s : State) (o : Orchestrator q) → o.state ≡ s → Inv o → Inv (tts_started s o)
  unfolding tts_started raise_threshold yield_stream send_end send send_message
  tts_started-Inv streaming o e v = transition-Inv playing_back _ (λ h. cc) (λ h. cc) refl v.shown
  tts_started-Inv awaiting_wake o e v =
      transition-Inv playing_back o (λ h. cc) (λ h. cc) (stopped o v (λ h. cc)) v.shown
  tts_started-Inv playing_back o e v = v
  tts_started-Inv _ o e v = v

  pub tts_ended-Inv : (o : Orchestrator q) → Inv o → Inv (on_tts_playback_ended o)
  unfolding on_tts_playback_ended
  tts_ended-Inv o v = elim (Bool-cases (state_eq o.state playing_back)) [
    | inl e ↦
        rw (e, if◌then◌else◌)
          (listen_again-Inv _ (stopped o v (λ h. ground (arith, state_eq-eq o.state playing_back)))
            v.shown)
    | inr e ↦ rw (e, if◌then◌else◌) v
  ]

  pub voice-set_agent_state :
      (s : String) (c : ConnectionState q)
      → (set_agent_state s c).props.voice_state ≡ c.props.voice_state
  unfolding set_agent_state
  voice-set_agent_state s c = ground arith

  pub react_speaking-Inv : (s : String) (o : Orchestrator q) → Inv o → Inv (react_speaking s o)
  unfolding react_speaking on_tts_playback_started
  react_speaking-Inv s o v =
      let agent : Inv (on_client (tell (set_agent_state s)) o) =
        rw (voice-set_agent_state s o.client.conn_state) v in
      elim (Bool-cases (str_eq s "speaking")) [
        | inl e ↦ rw (e, if◌then◌else◌) (tts_started-Inv o.state _ refl agent)
        | inr e ↦ elim (Bool-cases (str_eq s "idle")) [
          | inl p ↦ rw (e, p, if◌then◌else◌) (tts_ended-Inv _ agent)
          | inr p ↦ rw (e, p, if◌then◌else◌) agent
        ]
      ]

  pub react-Inv :
      (signals : List PlaybackSignal) (o : Orchestrator q) → Inv o → Inv (react signals o)
  unfolding react
  react-Inv [] o v = v
  react-Inv (speaking_state_changed s ∷ signals) o v =
      react-Inv signals (react_speaking s o) (react_speaking-Inv s o v)
  react-Inv (playback_error message ∷ signals) o v = react-Inv signals o v

  pub call_playback-Inv :
      (f : Playback → Playback × List PlaybackSignal) (p : Option Playback) (o : Orchestrator q)
      → Inv o
      → Inv (call_playback f p o)
  unfolding call_playback
  call_playback-Inv f none o v = v
  call_playback-Inv f (some p) o v = react-Inv (f p).1 _ v

  pub playback-Inv :
      (f : Playback → Playback × List PlaybackSignal) (o : Orchestrator q)
      → Inv o
      → Inv (on_playback f o)
  unfolding on_playback
  playback-Inv f o v = call_playback-Inv f o.playback o v

  pub begin_barge_in-IsShown :
      (fresh : String) (o : Orchestrator q) → Inv o → IsShown (begin_barge_in fresh o)
  unfolding begin_barge_in send send_message
  begin_barge_in-IsShown fresh o v = (playback-Inv Playback.stop o v).shown

  pub begin_barge_in-id :
      (fresh : String) (o : Orchestrator q) → (begin_barge_in fresh o).active_stream_id ≡ fresh
  unfolding begin_barge_in send
  begin_barge_in-id fresh o = refl

  pub execute-Inv :
      (encode : Encoder) (fresh : String) (o : Orchestrator q)
      → fresh ≢ ""
      → Inv o
      → Inv (execute_barge_in encode fresh o)
  unfolding execute_barge_in
  execute-Inv encode fresh o h v =
      let o1 = begin_barge_in fresh o in
      let pre = o1.wake_pre_roll in
      let id = pre_roll-id encode (length pre) 0 pre o1 ∙ begin_barge_in-id fresh o in
      streaming-Inv (on_vad Vad.reset (send_pre_roll encode (length pre) 0 pre o1))
        (λ f. h (sym id ∙ f))
        (pre_roll-IsShown encode (length pre) 0 pre o1 (begin_barge_in-IsShown fresh o v))

  -- The single-shot timer has stopped when its slot runs.
  pub barge_in-Inv :
      (encode : Encoder) (fresh : String) (o : Orchestrator q)
      → fresh ≢ ""
      → Inv o
      → Inv (on_barge_in_timer_expired encode fresh (record o { barge_in_timer = false }))
  unfolding on_barge_in_timer_expired
  barge_in-Inv encode fresh o h v = elim (Bool-cases (state_eq o.state playing_back)) [
    | inr e ↦ rw (e, if◌then◌else◌) v
    | inl e ↦
        rw (e, if◌then◌else◌) (execute-Inv encode fresh (record o { barge_in_timer = false }) h v)
  ]

  pub inbound_audio-Inv :
      (opus_decode : List ℕ → Decoded) (write : Device) (frame : List ℕ) (o : Orchestrator q)
      → Inv o
      → Inv (on_inbound_audio opus_decode write frame o)
  unfolding on_inbound_audio
  inbound_audio-Inv opus_decode write frame o v = play (decode_binary_frame frame).payload
    where
      play : (payload : List ℕ) → Inv (play_payload opus_decode write payload o)
      play [] = v
      play (b ∷ payload) = playback-Inv (handle_opus_frame opus_decode write (b ∷ payload)) o v
