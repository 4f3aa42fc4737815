-- ===== src/Orchestrator/Invariant/Upload.antt =====
-- The invariant over the events of an upload.
use pairion_client.Base.{
  ℕ, ◌≡◌, ◌≢◌, sym, ◌∙◌, inl, inr, String, true, false, List, arith, if◌then◌else◌, Bool-cases,
  length,
}
use pairion_client.Qt.{Qt}
use pairion_client.Ws.{send_message, send_binary_frame}
use pairion_client.Orchestrator.{
  awaiting_wake, streaming, playing_back, state_eq, Orchestrator, Encoder, send, start_stream,
  on_wake_word_detected, on_vad_speech_started, on_speech_ended, on_opus_frame_encoded,
  on_streaming_timeout,
}
use pairion_client.Orchestrator.Invariant.{
  streaming-Inv, end_stream-Inv, pre_roll-IsShown, pre_roll-id, Inv,
}

module _ {q : Qt} where
  pub wake-Inv :
      (encode : Encoder) (fresh now : String) (score : q.Double) (pre_roll : List ℕ)
      (o : Orchestrator q)
      → fresh ≢ ""
      → Inv o
      → Inv (on_wake_word_detected encode fresh now score pre_roll o)
  unfolding on_wake_word_detected start_stream send send_message
  wake-Inv encode fresh now score pre_roll o h v =
      elim (Bool-cases (state_eq o.state awaiting_wake)) [
        | inr e ↦ rw (e, if◌then◌else◌) v
        | inl e ↦ elim (Bool-cases o.client.socket_connected) [
          | inr down ↦ rw (e, down, if◌then◌else◌) v
          | inl up ↦
              rw (e, up, if◌then◌else◌)
                (streaming-Inv _
                  (λ f. h (sym (pre_roll-id encode (length pre_roll) 0 pre_roll _) ∙ f))
                  (pre_roll-IsShown encode (length pre_roll) 0 pre_roll _ v.shown))
        ]
      ]

  pub speech_ended-Inv : (o : Orchestrator q) → Inv o → Inv (on_speech_ended o)
  unfolding on_speech_ended
  speech_ended-Inv o v = elim (Bool-cases (state_eq o.state streaming)) [
    | inl e ↦ rw (e, if◌then◌else◌) (end_stream-Inv "normal" o v.shown)
    | inr e ↦ elim (Bool-cases (state_eq o.state playing_back)) [
      | inl p ↦ rw (e, p, if◌then◌else◌) v
      | inr p ↦ rw (e, p, if◌then◌else◌) v
    ]
  ]

  pub speech_started-Inv : (o : Orchestrator q) → Inv o → Inv (on_vad_speech_started o)
  unfolding on_vad_speech_started
  speech_started-Inv o v = elim (Bool-cases (state_eq o.state playing_back)) [
    | inl e ↦ rw (e, if◌then◌else◌) v
    | inr e ↦ rw (e, if◌then◌else◌) v
  ]

  pub packet-Inv :
      (frame : List ℕ) (o : Orchestrator q) → Inv o → Inv (on_opus_frame_encoded frame o)
  unfolding on_opus_frame_encoded send_binary_frame
  packet-Inv frame o v = elim (Bool-cases (state_eq o.state streaming)) [
    | inl e ↦ rw (e, if◌then◌else◌) v
    | inr e ↦ rw (e, if◌then◌else◌) v
  ]

  -- The single-shot timer has stopped when its slot runs.
  pub timeout-Inv :
      (o : Orchestrator q)
      → o.streaming_timeout ≡ true
      → Inv o
      → Inv (on_streaming_timeout (record o { streaming_timeout = false }))
  unfolding on_streaming_timeout
  timeout-Inv o t v = elim (Bool-cases (state_eq o.state streaming)) [
    | inl e ↦
        rw (e, if◌then◌else◌)
          (end_stream-Inv "timeout" (record o { streaming_timeout = false }) v.shown)
    | inr e ↦ absurd (ground (arith, v.timed t))
  ]
