-- ===== src/Orchestrator/Talk.antt =====
-- A whole upload, from the wake word to the end of speech, as the server sees it.
use pairion_client.Base.{
  concat, ℕ, ◌≡◌, refl, sym, ◌∙◌, ap, subst, String, Bool, true, false, List, [], ◌∷◌, ◌++◌, some,
  arith, ltb, if◌then◌else◌, length,
}
use pairion_client.Qt.{Qt}
use pairion_client.Protocol.Messages.{
  wake_word_detected, new_stream_start, speech_ended, audio_stream_end_in,
}
use pairion_client.Protocol.Envelope.{serialize_to_string}
use pairion_client.Protocol.Binary.{encode_binary_frame}
use pairion_client.Ws.{Effect, send_text, send_binary, send_message, send_binary_frame}
use pairion_client.Orchestrator.{
  idle, awaiting_wake, streaming, state_eq, Orchestrator, Encoder, on_client, frame_bytes,
  transition_to, start_listening, send, start_stream, on_wake_word_detected, on_speech_ended,
  on_opus_frame_encoded, send_end, end_stream, send_pre_roll,
}
use pairion_client.Orchestrator.PreRoll.Frames.{AreFull, note_frames, send_pre_roll-frames}
use pairion_client.Orchestrator.Threshold.{state-transition_to}
use pairion_client.Orchestrator.BargeIn.{
  kept-transition_to, kept-start_listening, named, named-transition_to,
}

module _ {q : Qt} where
  -- The packets of the encoder thread, as they come in.
  abbrev pub send_all : List (List ℕ) → Orchestrator q → Orchestrator q
  send_all [] o = o
  send_all (x ∷ xs) o = send_all xs (on_opus_frame_encoded x o)

  abbrev pub note_all : String → List (List ℕ) → List (Effect q) → List (Effect q)
  note_all id [] trace = trace
  note_all id (x ∷ xs) trace = note_all id xs (send_binary (encode_binary_frame q id x) ∷ trace)

  -- The parts of the state that an upload is about.
  abbrev IsStreaming : String → List (Effect q) → Orchestrator q → Type 0
  IsStreaming id trace o =
      (o.state ≡ streaming) × (o.active_stream_id ≡ id) × (o.client.trace ≡ trace)

  packet-eq :
      (frame : List ℕ) (o : Orchestrator q)
      → o.state ≡ streaming
      → on_opus_frame_encoded frame o
        ≡ on_client (send_binary_frame (encode_binary_frame q o.active_stream_id frame)) o
  unfolding on_opus_frame_encoded
  packet-eq frame o h = by_test (state_eq o.state streaming) (ap (λ s. state_eq s streaming) h)
    where
      sent : Orchestrator q
      sent = on_client (send_binary_frame (encode_binary_frame q o.active_stream_id frame)) o

      by_test : (b : Bool) → b ≡ true → (if b then sent else o) ≡ sent
      by_test true e = refl
      by_test false e = absurd (ground (arith, e))

  send_all-IsStreaming :
      (id : String) (packets : List (List ℕ)) (trace : List (Effect q)) (o : Orchestrator q)
      → IsStreaming id trace o
      → IsStreaming id (note_all id packets trace) (send_all packets o)
  unfolding send_binary_frame
  send_all-IsStreaming id [] trace o v = v
  send_all-IsStreaming id (x ∷ xs) trace o (playing, named, traced) =
      let e = packet-eq x o playing in
      send_all-IsStreaming id xs (send_binary (encode_binary_frame q id x) ∷ trace)
        (on_opus_frame_encoded x o)
        (
          ap (λ p. p.state) e ∙ playing,
          ap (λ p. p.active_stream_id) e ∙ named,
          ap (λ p. p.client.trace) e
              ∙ ap (λ i. send_binary (encode_binary_frame q i x) ∷ o.client.trace) named
              ∙ ap (λ t. send_binary (encode_binary_frame q id x) ∷ t) traced,
        )

  -- The messages before the pre-roll, newest first.
  abbrev pub opening : String → String → q.Double → List (Effect q) → List (Effect q)
  opening fresh now score trace =
      send_text (serialize_to_string q (new_stream_start fresh))
      ∷ send_text (serialize_to_string q (wake_word_detected now (some score)))
      ∷ trace

  start-IsStreaming :
      (encode : Encoder) (fresh now : String) (score : q.Double) (frames : List (List ℕ))
      (rest : List ℕ) (o : Orchestrator q)
      → AreFull frames
      → ltb (length rest) frame_bytes ≡ true
      → IsStreaming fresh
          (note_frames encode fresh 0 frames (opening fresh now score o.client.trace))
          (start_stream encode fresh now score (concat frames ++ rest) o)
  unfolding start_stream send send_message
  start-IsStreaming encode fresh now score frames rest o full short =
      let o1 = record o { active_stream_id = fresh } in
      let o2 = send (new_stream_start fresh) (send (wake_word_detected now (some score)) o1) in
      let bytes = concat frames ++ rest in
      let o3 = send_pre_roll encode (length bytes) 0 bytes o2 in
      let e = send_pre_roll-frames encode frames rest o2 full short in
      (
        state-transition_to streaming o3,
        ap (λ k. k.0) (named-transition_to streaming o3) ∙ ap (λ p. p.active_stream_id) e,
        ap (λ k. k.0) (kept-transition_to streaming o3) ∙ ap (λ p. p.client.trace) e,
      )

  wake-eq :
      (encode : Encoder) (fresh now : String) (score : q.Double) (pre_roll : List ℕ)
      (o : Orchestrator q)
      → o.state ≡ awaiting_wake
      → o.client.socket_connected ≡ true
      → on_wake_word_detected encode fresh now score pre_roll o
        ≡ start_stream encode fresh now score pre_roll o
  unfolding on_wake_word_detected
  wake-eq encode fresh now score pre_roll o h k =
      by_test (state_eq o.state awaiting_wake) o.client.socket_connected
        (ap (λ s. state_eq s awaiting_wake) h) k
    where
      started : Orchestrator q
      started = start_stream encode fresh now score pre_roll o

      by_test :
          (b c : Bool)
          → b ≡ true
          → c ≡ true
          → (if b then (if c then started else o) else o) ≡ started
      by_test true true e f = refl
      by_test true false e f = absurd (ground (arith, f))
      by_test false c e f = absurd (ground (arith, e))

  -- The messages at the end, newest first.
  abbrev pub closing : String → String → List (Effect q) → List (Effect q)
  closing id reason trace =
      send_text (serialize_to_string q (audio_stream_end_in id reason))
      ∷ send_text (serialize_to_string q (speech_ended id))
      ∷ trace

  listening_after :
      (o : Orchestrator q) → (start_listening (transition_to idle o)).state ≡ awaiting_wake
  unfolding start_listening
  listening_after o = by_state (transition_to idle o) (state-transition_to idle o)
    where
      by_state :
          (p : Orchestrator q)
          → p.state ≡ idle
          → (if state_eq p.state idle then transition_to awaiting_wake p else p).state
            ≡ awaiting_wake
      by_state p h =
          subst
            (λ s.
              (if state_eq s idle then transition_to awaiting_wake p else p).state ≡ awaiting_wake)
            (sym h) (state-transition_to awaiting_wake p)

  end-eq :
      (reason : String) (o : Orchestrator q)
      → ((end_stream reason o).state ≡ awaiting_wake)
        × ((end_stream reason o).client.trace ≡ closing o.active_stream_id reason o.client.trace)
  unfolding end_stream send_end send send_message
  end-eq reason o =
      let o1 = record (send_end reason (record o { streaming_timeout = false })) {
        active_stream_id = "";
      } in
      (
        listening_after o1,
        ap (λ k. k.0) (kept-start_listening (transition_to idle o1) ∙ kept-transition_to idle o1),
      )

  ended-eq : (o : Orchestrator q) → o.state ≡ streaming → on_speech_ended o ≡ end_stream "normal" o
  unfolding on_speech_ended
  ended-eq o h = by_test (state_eq o.state streaming) (ap (λ s. state_eq s streaming) h) _
    where
      by_test :
          (b : Bool)
          → b ≡ true
          → (p : Orchestrator q) → (if b then end_stream "normal" o else p) ≡ end_stream "normal" o
      by_test true e p = refl
      by_test false e p = absurd (ground (arith, e))

  -- From AwaitingWake with the socket connected, the wake word, any packets of the encoder and the
  -- end of speech lead back to AwaitingWake, and the client sent, in this order: WakeWordDetected,
  -- AudioStreamStart for the fresh id, the packets of the full frames of the pre-roll, all packets
  -- of the encoder in order, SpeechEnded and AudioStreamEnd, all for that id. The pre-roll is any
  -- number of full frames and an incomplete rest.
  pub talk_lem :
      (encode : Encoder) (fresh now : String) (score : q.Double) (frames packets : List (List ℕ))
      (rest : List ℕ) (o : Orchestrator q)
      → o.state ≡ awaiting_wake
      → o.client.socket_connected ≡ true
      → AreFull frames
      → ltb (length rest) frame_bytes ≡ true
      → let woken = on_wake_word_detected encode fresh now score (concat frames ++ rest) o in
        let r = on_speech_ended (send_all packets woken) in
        (r.state ≡ awaiting_wake)
        × (r.client.trace
            ≡ closing fresh "normal" (
                note_all fresh packets
                  (note_frames encode fresh 0 frames (opening fresh now score o.client.trace))))
  talk_lem encode fresh now score frames packets rest o waiting up full short =
      let trace = note_frames encode fresh 0 frames (opening fresh now score o.client.trace) in
      let woken = on_wake_word_detected encode fresh now score (concat frames ++ rest) o in
      let start =
        subst (IsStreaming fresh trace)
          (sym (wake-eq encode fresh now score (concat frames ++ rest) o waiting up))
          (start-IsStreaming encode fresh now score frames rest o full short) in
      let spoken = send_all packets woken in
      let (playing, named, traced) = send_all-IsStreaming fresh packets trace woken start in
      let e = ended-eq spoken playing in
      let (state, sent) = end-eq "normal" spoken in
      (
        ap (λ p. p.state) e ∙ state,
        ap (λ p. p.client.trace) e
            ∙ sent
            ∙ ap (λ i. closing i "normal" spoken.client.trace) named
            ∙ ap (closing fresh "normal") traced,
      )
