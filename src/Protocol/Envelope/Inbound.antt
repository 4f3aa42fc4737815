-- ===== src/Protocol/Envelope/Inbound.antt =====
-- `EnvelopeCodec::deserialize` against the envelopes that a server writes.
use pairion_client.Base.{
  ◌≡◌, ◌↔◌, ◌||◌, refl, Bool, true, false, Option, none, some, if◌then◌else◌, String, str_eq,
}
use pairion_client.Qt.{IsInt32, Qt, JsonLaws}
use pairion_client.Protocol.Messages.{InboundMessage, audio_stream_start_out, under_breath_ack}
use pairion_client.Protocol.Envelope.{string_at, deserialize, deserialize_from_string}
use pairion_client.Protocol.Envelope.Server.{write_inbound, server_types, one_of}

-- The sample rate of a message is a C++ `int`.
abbrev pub IsReceivable : {q : Qt} → InboundMessage q → Type 0
IsReceivable (audio_stream_start_out id codec rate) = IsInt32 rate
IsReceivable _ = Unit {0}

module _ {q : Qt} (laws : JsonLaws q) where
  open laws use {
    get-insert, contains-insert, contains-empty, to_string-of_string, to_int-of_int,
    to_double-of_double, to_object-of_object, parse-print,
  }

  deserialize-write_inbound :
      (m : InboundMessage q) → IsReceivable m → deserialize q (write_inbound q m) ≡ some m
  unfolding deserialize write_inbound
  deserialize-write_inbound (audio_stream_start_out i c r) h =
      simp (string_at, get-insert, to_string-of_string, to_int-of_int r h)
  deserialize-write_inbound (under_breath_ack none) h =
      simp (string_at, get-insert, contains-insert, contains-empty, to_string-of_string)
  deserialize-write_inbound (under_breath_ack (some k)) h =
      simp (string_at, get-insert, contains-insert, to_string-of_string)
  deserialize-write_inbound _ h =
      simp (string_at, get-insert, to_string-of_string, to_object-of_object, to_double-of_double)

  -- Given the JSON laws, the client reads every message that a server writes as that message, if
  -- its sample rate is a 32-bit integer.
  pub deserialize_from_string-print :
      (m : InboundMessage q)
      → IsReceivable m
      → deserialize_from_string q (q.print (write_inbound q m)) ≡ some m
  unfolding deserialize_from_string
  deserialize_from_string-print m h =
      rw (parse-print (write_inbound q m)) (deserialize-write_inbound m h)

-- One test of the ladder: it refuses when it fails and the rest refuses.
ladder {ℓ} :
    {A : Type ℓ} (b c : Bool) (x : A) (r : Option A)
    → (r ≡ none) ↔ (c ≡ false)
    → ((if b then some x else r) ≡ none) ↔ ((b || c) ≡ false)
ladder true c x r h = ((λ e. cc), (λ e. cc))
ladder false c x r h = h

-- An envelope is refused exactly when its `type` is none of the twenty server types.
pub deserialize-none :
    {q : Qt} (o : q.Object)
    → (deserialize q o ≡ none) ↔ (one_of (string_at q o "type") server_types ≡ false)
unfolding deserialize
deserialize-none {q} o =
    let is = λ (s : String). str_eq (string_at q o "type") s in
    ladder (is "SessionOpened") _ _ _ (
      ladder (is "SessionClosed") _ _ _ (
        ladder (is "HeartbeatPong") _ _ _ (
          ladder (is "Error") _ _ _ (
            ladder (is "AgentStateChange") _ _ _ (
              ladder (is "TranscriptPartial") _ _ _ (
                ladder (is "TranscriptFinal") _ _ _ (
                  ladder (is "LlmTokenStream") _ _ _ (
                    ladder (is "ToolCallStarted") _ _ _ (
                      ladder (is "ToolCallCompleted") _ _ _ (
                        ladder (is "AudioStreamStart") _ _ _ (
                          ladder (is "AudioStreamEnd") _ _ _ (
                            ladder (is "UnderBreathAck") _ _ _ (
                              ladder (is "MapFocus") _ _ _ (
                                ladder (is "MapClear") _ _ _ (
                                  ladder (is "BackgroundChange") _ _ _ (
                                    ladder (is "OverlayAdd") _ _ _ (
                                      ladder (is "OverlayRemove") _ _ _ (
                                        ladder (is "OverlayClear") _ _ _ (
                                          ladder (is "SceneDataPush") _ _ _
                                            (((λ e. refl), (λ e. refl))))))))))))))))))))))
