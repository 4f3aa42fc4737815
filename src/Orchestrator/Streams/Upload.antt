-- ===== src/Orchestrator/Streams/Upload.antt =====
-- The server's view of the streams over the events of an upload.
use pairion_client.Base.{
  ℕ, ◌≡◌, length, refl, inl, inr, String, some, List, if◌then◌else◌, Bool-cases,
}
use pairion_client.Qt.{Qt, JsonLaws}
use pairion_client.Protocol.Messages.{new_stream_start, wake_word_detected}
use pairion_client.Ws.{send_message, send_binary_frame}
use pairion_client.Orchestrator.{
  awaiting_wake, streaming, playing_back, state_eq, Orchestrator, Encoder, send, send_pre_roll,
  start_stream, on_wake_word_detected, on_vad_speech_started, on_speech_ended,
  on_opus_frame_encoded, on_streaming_timeout,
}
use pairion_client.Orchestrator.Invariant.{state_eq-eq}
use pairion_client.Orchestrator.Streams.{
  Inv, branch-Inv, open_stream, IsAttributed, streaming-Inv, pre_roll_lem, end_stream-Inv,
  heard-new_stream_start,
}

module _ {q : Qt} where
  -- The wake word and the AudioStreamStart have been sent.
  abbrev announced : String → String → q.Double → Orchestrator q → Orchestrator q
  announced fresh now score o =
      send (new_stream_start fresh)
        (send (wake_word_detected now (some score)) (record o { active_stream_id = fresh }))

  announced-opened :
      JsonLaws q
      → (fresh now : String) (score : q.Double) (o : Orchestrator q)
      → open_stream (announced fresh now score o).client.trace
        ≡ some (announced fresh now score o).active_stream_id
  unfolding send send_message
  announced-opened laws fresh now score o = heard-new_stream_start laws fresh _

  announced-IsAttributed :
      (fresh now : String) (score : q.Double) (o : Orchestrator q)
      → IsAttributed o.client.trace
      → IsAttributed (announced fresh now score o).client.trace
  unfolding send send_message
  announced-IsAttributed fresh now score o a = a

  start_stream-Inv :
      JsonLaws q
      → (encode : Encoder) (fresh now : String) (score : q.Double) (pre_roll : List ℕ)
        (o : Orchestrator q)
      → Inv o
      → Inv (start_stream encode fresh now score pre_roll o)
  unfolding start_stream
  start_stream-Inv laws encode fresh now score pre_roll o v =
      let o2 = announced fresh now score o in
      let sent =
        pre_roll_lem encode pre_roll o2 (announced-opened laws fresh now score o)
          (announced-IsAttributed fresh now score o v.attributed) in
      let w = streaming-Inv (send_pre_roll encode (length pre_roll) 0 pre_roll o2) sent.0 sent.1 in
      record { opened = w.opened; attributed = w.attributed }

  pub wake-Inv :
      JsonLaws q
      → (encode : Encoder) (fresh now : String) (score : q.Double) (pre_roll : List ℕ)
        (o : Orchestrator q)
      → Inv o
      → Inv (on_wake_word_detected encode fresh now score pre_roll o)
  unfolding on_wake_word_detected
  wake-Inv laws encode fresh now score pre_roll o v =
      branch-Inv (state_eq o.state awaiting_wake) _ _
        (branch-Inv o.client.socket_connected _ _
          (start_stream-Inv laws encode fresh now score pre_roll o v) v)
        v

  pub speech_ended-Inv : (o : Orchestrator q) → Inv o → Inv (on_speech_ended o)
  unfolding on_speech_ended
  speech_ended-Inv o v = branch-Inv (state_eq o.state streaming) _ _ (end_stream-Inv "normal" o v) (
      branch-Inv (state_eq o.state playing_back) _ _
        (record { opened = v.opened; attributed = v.attributed }) v)

  pub speech_started-Inv : (o : Orchestrator q) → Inv o → Inv (on_vad_speech_started o)
  unfolding on_vad_speech_started
  speech_started-Inv o v =
      branch-Inv (state_eq o.state playing_back) _ _
        (record { opened = v.opened; attributed = v.attributed }) v

  pub packet-Inv :
      (frame : List ℕ) (o : Orchestrator q) → Inv o → Inv (on_opus_frame_encoded frame o)
  unfolding on_opus_frame_encoded send_binary_frame
  packet-Inv frame o v = elim (Bool-cases (state_eq o.state streaming)) [
    | inr e ↦ rw (e, if◌then◌else◌) v
    | inl e ↦
        rw (e, if◌then◌else◌)
          (record {
            opened = v.opened;
            attributed = (
              record {
                id = o.active_stream_id;
                payload = frame;
                is_open = v.opened (state_eq-eq o.state streaming e);
                framed = refl;
              },
              v.attributed,
            );
          })
  ]

  pub timeout-Inv : (o : Orchestrator q) → Inv o → Inv (on_streaming_timeout o)
  unfolding on_streaming_timeout
  timeout-Inv o v = branch-Inv (state_eq o.state streaming) _ _ (end_stream-Inv "timeout" o v) v
