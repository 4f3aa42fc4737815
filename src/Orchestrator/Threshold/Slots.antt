-- ===== src/Orchestrator/Threshold/Slots.antt =====
-- The threshold over each slot of the pipeline.
use pairion_client.Base.{
  ℕ, ◌≡◌, ◌≢◌, refl, sym, ◌∙◌, ap, subst, inl, inr, String, Bool, true, false, List, [], ◌∷◌,
  Option, none, some, arith, if◌then◌else◌, Bool-cases, length,
}
use pairion_client.Qt.{Qt}
use pairion_client.Protocol.Messages.{
  InboundMessage, session_opened, audio_stream_start_out, audio_stream_end_out, new_stream_start,
  wake_word_detected,
}
use pairion_client.Protocol.Binary.{decode_binary_frame}
use pairion_client.Vad.{Vad}
use pairion_client.Vad
use pairion_client.Playback
use pairion_client.Playback.{
  Playback, PlaybackSignal, Device, Decoded, speaking_state_changed, playback_error,
  handle_opus_frame, handle_stream_end, prepare_playback, on_silence_timeout,
}
use pairion_client.Playback.Speaking.{
  IsAnnounced, opus-IsAnnounced, stream_end-IsAnnounced, stop-IsAnnounced, prepare-is_speaking,
}
use pairion_client.Orchestrator.{
  State, idle, awaiting_wake, streaming, playing_back, state_eq, Orchestrator, Encoder, on_vad,
  transition_to, start_listening, send, start_stream, on_wake_word_detected, on_vad_speech_started,
  end_stream, on_speech_ended, on_opus_frame_encoded, on_streaming_timeout, react, call_playback,
  on_playback, begin_barge_in, execute_barge_in, on_barge_in_timer_expired, play_payload,
  on_inbound_audio, on_inbound_audio_stream_start, on_inbound_stream_end, on_ws_reconnected,
  send_pre_roll,
}
use pairion_client.Orchestrator.Invariant.{state_eq-eq}
use pairion_client.Orchestrator.PreRoll.{send_pre_roll-trace}
use pairion_client.Orchestrator.Threshold.{
  is_speaking, TunedBy, IsTuned, transition-Tuned, start_listening-Tuned, end_stream-Tuned,
  react-Tuned,
}
use pairion_client.Orchestrator.Events.{respond}
use pairion_client.Orchestrator.Threshold.Unchanged.{playback-start_listening, react-playback}

module _ {q : Qt} (n : q.Double) where
  pub playback-Tuned :
      (f : Playback → Playback × List PlaybackSignal) (o : Orchestrator q)
      → ((p : Playback) → IsAnnounced p (f p))
      → IsTuned n o
      → IsTuned n (on_playback f o)
  unfolding on_playback call_playback
  playback-Tuned f o h v = call o.playback refl
    where
      call : (p : Option Playback) → o.playback ≡ p → IsTuned n (call_playback f p o)
      call none e = v
      call (some p) e =
          let o' = record o { playback = some (f p).0 } in
          subst (λ r. TunedBy n (is_speaking r) (react (f p).1 o'))
            (sym (react-playback (f p).1 o'))
            (react-Tuned n (f p).1 p.is_speaking (f p).0.is_speaking o' (h p)
              (subst (λ r. TunedBy n (is_speaking r) o) e v))

  pub not_playing :
      (s : State) (o : Orchestrator q) → o.state ≡ s → s ≢ playing_back → o.state ≢ playing_back
  not_playing s o e h k = h (sym e ∙ k)

  pub transition-IsTuned :
      (s : State) (o : Orchestrator q)
      → s ≢ playing_back
      → o.normal_vad_threshold ≡ n
      → o.vad.threshold ≡ n
      → IsTuned n (transition_to s o)
  transition-IsTuned s o h normal now =
      transition-Tuned n (is_speaking (transition_to s o).playback) s o h normal now

  pub listening-IsTuned : (o : Orchestrator q) → IsTuned n o → IsTuned n (start_listening o)
  listening-IsTuned o v =
      start_listening-Tuned n (is_speaking (start_listening o).playback) o
        (subst (λ p. TunedBy n (is_speaking p) o) (sym (playback-start_listening o)) v)

  pub end_stream-IsTuned :
      (reason : String) (o : Orchestrator q)
      → IsTuned n o
      → o.state ≢ playing_back
      → IsTuned n (end_stream reason o)
  end_stream-IsTuned reason o v h =
      end_stream-Tuned n (is_speaking (end_stream reason o).playback) reason o v.saved (v.tuned h)

  -- The start of an upload, whatever its pre-roll.
  pub upload-IsTuned :
      (encode : Encoder) (pre_roll : List ℕ) (o : Orchestrator q)
      → o.normal_vad_threshold ≡ n
      → o.vad.threshold ≡ n
      → IsTuned n (transition_to streaming (send_pre_roll encode (length pre_roll) 0 pre_roll o))
  upload-IsTuned encode pre_roll o normal now =
      let loop = send_pre_roll encode (length pre_roll) 0 pre_roll o in
      let e = send_pre_roll-trace encode (length pre_roll) 0 pre_roll o in
      transition-IsTuned streaming loop (λ k. cc) (ap (λ r. r.normal_vad_threshold) e ∙ normal)
        (ap (λ r. r.vad.threshold) e ∙ now)

  pub wake-IsTuned :
      (encode : Encoder) (fresh now : String) (score : q.Double) (pre_roll : List ℕ)
      (o : Orchestrator q)
      → IsTuned n o
      → IsTuned n (on_wake_word_detected encode fresh now score pre_roll o)
  unfolding on_wake_word_detected start_stream send Vad.reset
  wake-IsTuned encode fresh now score pre_roll o v =
      let o1 = record o { active_stream_id = fresh } in
      let o2 = send (new_stream_start fresh) (send (wake_word_detected now (some score)) o1) in
      elim (Bool-cases (state_eq o.state awaiting_wake)) [
        | inr e ↦ rw (e, if◌then◌else◌) v
        | inl e ↦ elim (Bool-cases o.client.socket_connected) [
          | inr down ↦ rw (e, down, if◌then◌else◌) v
          | inl up ↦
              let h = v.tuned (λ k. ground (arith, state_eq-eq o.state awaiting_wake)) in
              rw (e, if◌then◌else◌)
                (if_up o.client.socket_connected (upload-IsTuned encode pre_roll o2 v.saved h))
        ]
      ]
    where
      if_up :
          (b : Bool)
          → IsTuned n (start_stream encode fresh now score pre_roll o)
          → IsTuned n (if b then start_stream encode fresh now score pre_roll o else o)
      if_up true w = w
      if_up false w = v

  pub speech_started-IsTuned :
      (o : Orchestrator q) → IsTuned n o → IsTuned n (on_vad_speech_started o)
  unfolding on_vad_speech_started
  speech_started-IsTuned o v = elim (Bool-cases (state_eq o.state playing_back)) [
    | inl e ↦ rw (e, if◌then◌else◌) v
    | inr e ↦ rw (e, if◌then◌else◌) v
  ]

  pub speech_ended-IsTuned : (o : Orchestrator q) → IsTuned n o → IsTuned n (on_speech_ended o)
  unfolding on_speech_ended
  speech_ended-IsTuned o v = elim (Bool-cases (state_eq o.state streaming)) [
    | inl e ↦
        rw (e, if◌then◌else◌)
          (end_stream-IsTuned "normal" o v (λ k. ground (arith, state_eq-eq o.state streaming)))
    | inr e ↦ elim (Bool-cases (state_eq o.state playing_back)) [
      | inl p ↦ rw (e, p, if◌then◌else◌) v
      | inr p ↦ rw (e, p, if◌then◌else◌) v
    ]
  ]

  pub packet-IsTuned :
      (frame : List ℕ) (o : Orchestrator q)
      → IsTuned n o
      → IsTuned n (on_opus_frame_encoded frame o)
  unfolding on_opus_frame_encoded
  packet-IsTuned frame o v = elim (Bool-cases (state_eq o.state streaming)) [
    | inl e ↦ rw (e, if◌then◌else◌) v
    | inr e ↦ rw (e, if◌then◌else◌) v
  ]

  pub timeout-IsTuned : (o : Orchestrator q) → IsTuned n o → IsTuned n (on_streaming_timeout o)
  unfolding on_streaming_timeout
  timeout-IsTuned o v = elim (Bool-cases (state_eq o.state streaming)) [
    | inl e ↦
        rw (e, if◌then◌else◌)
          (end_stream-IsTuned "timeout" o v (λ k. ground (arith, state_eq-eq o.state streaming)))
    | inr e ↦ rw (e, if◌then◌else◌) v
  ]

  -- The playback is stopped and the threshold restored.
  pub begin-restores :
      (fresh : String) (o : Orchestrator q)
      → IsTuned n o
      → ((begin_barge_in fresh o).normal_vad_threshold ≡ n)
        × ((begin_barge_in fresh o).vad.threshold ≡ n)
  unfolding begin_barge_in send Vad.set_threshold
  begin-restores fresh o v =
      let w = (playback-Tuned Playback.stop o (λ p. (stop-IsAnnounced p).0) v).saved in (w, w)

  -- The end of `executeBargeIn`.
  pub reopen-IsTuned :
      (encode : Encoder) (pre_roll : List ℕ) (o : Orchestrator q)
      → o.normal_vad_threshold ≡ n
      → o.vad.threshold ≡ n
      → IsTuned n (
          transition_to streaming
            (on_vad Vad.reset (send_pre_roll encode (length pre_roll) 0 pre_roll o)))
  unfolding Vad.reset
  reopen-IsTuned encode pre_roll o normal now =
      let loop = send_pre_roll encode (length pre_roll) 0 pre_roll o in
      let e = send_pre_roll-trace encode (length pre_roll) 0 pre_roll o in
      transition-IsTuned streaming (on_vad Vad.reset loop) (λ k. cc)
        (ap (λ r. r.normal_vad_threshold) e ∙ normal) (ap (λ r. r.vad.threshold) e ∙ now)

  pub execute-IsTuned :
      (encode : Encoder) (fresh : String) (o : Orchestrator q)
      → IsTuned n o
      → IsTuned n (execute_barge_in encode fresh o)
  unfolding execute_barge_in
  execute-IsTuned encode fresh o v =
      let o1 = begin_barge_in fresh o in
      let (normal, now) = begin-restores fresh o v in
      reopen-IsTuned encode o1.wake_pre_roll o1 normal now

  pub barge_in-IsTuned :
      (encode : Encoder) (fresh : String) (o : Orchestrator q)
      → IsTuned n o
      → IsTuned n (on_barge_in_timer_expired encode fresh o)
  unfolding on_barge_in_timer_expired
  barge_in-IsTuned encode fresh o v = elim (Bool-cases (state_eq o.state playing_back)) [
    | inl e ↦ rw (e, if◌then◌else◌) (execute-IsTuned encode fresh o v)
    | inr e ↦ rw (e, if◌then◌else◌) v
  ]

  pub inbound_audio-IsTuned :
      (opus_decode : List ℕ → Decoded) (write : Device) (frame : List ℕ) (o : Orchestrator q)
      → IsTuned n o
      → IsTuned n (on_inbound_audio opus_decode write frame o)
  unfolding on_inbound_audio
  inbound_audio-IsTuned opus_decode write frame o v = play (decode_binary_frame frame).payload
    where
      play : (payload : List ℕ) → IsTuned n (play_payload opus_decode write payload o)
      play [] = v
      play (b ∷ payload) =
          playback-Tuned (handle_opus_frame opus_decode write (b ∷ payload)) o
            (λ p. opus-IsAnnounced opus_decode write (b ∷ payload) p) v

  pub respond-IsTuned :
      (starts : Bool) (write : Device) (m : Option (InboundMessage q)) (o : Orchestrator q)
      → IsTuned n o
      → IsTuned n (respond starts write m o)
  unfolding on_ws_reconnected on_inbound_audio_stream_start on_inbound_stream_end
  respond-IsTuned starts write (some (session_opened id version)) o v = listening-IsTuned o v
  respond-IsTuned starts write (some (audio_stream_start_out id codec rate)) o v =
      playback-Tuned (λ p. (prepare_playback starts write p, []))
        (record o { inbound_stream_id = id }) (λ p. sym (prepare-is_speaking starts write p)) v
  respond-IsTuned starts write (some (audio_stream_end_out id reason)) o v =
      playback-Tuned (handle_stream_end reason) o (λ p. (stream_end-IsAnnounced reason p).0) v
  respond-IsTuned starts write none o v = v
  respond-IsTuned starts write (some _) o v = v

  -- A reset to Idle outside PlayingBack.
  pub reset-IsTuned :
      (o : Orchestrator q) → o.state ≢ playing_back → IsTuned n o → IsTuned n (transition_to idle o)
  reset-IsTuned o h v = transition-IsTuned idle o (λ k. cc) v.saved (v.tuned h)
