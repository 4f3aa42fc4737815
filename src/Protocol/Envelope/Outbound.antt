-- ===== src/Protocol/Envelope/Outbound.antt =====
-- `EnvelopeCodec::serialize` against the server's reading of it.
use pairion_client.Base.{◌≡◌, none, some}
use pairion_client.Qt.{IsInt32, Qt, JsonLaws}
use pairion_client.Protocol.Messages.{
  OutboundMessage, device_identify, heartbeat_ping, wake_word_detected, audio_stream_start_in,
  speech_ended, audio_stream_end_in, text_message, barge_in,
}
use pairion_client.Protocol.Envelope.{serialize, serialize_to_string, string_at}
use pairion_client.Protocol.Envelope.Server.{read_outbound, read_text}

-- The sample rate of a message is a C++ `int`.
abbrev pub IsSendable : {q : Qt} → OutboundMessage q → Type 0
IsSendable (audio_stream_start_in id codec rate) = IsInt32 rate
IsSendable _ = Unit {0}

module _ {q : Qt} (laws : JsonLaws q) where
  open laws use {
    get-insert, contains-insert, contains-empty, to_string-of_string, to_int-of_int,
    to_double-of_double, parse-print,
  }

  read_outbound-serialize :
      (m : OutboundMessage q) → IsSendable m → read_outbound q (serialize q m) ≡ some m
  unfolding read_outbound serialize
  read_outbound-serialize (device_identify d b v) h =
      simp (string_at, get-insert, to_string-of_string)
  read_outbound-serialize (heartbeat_ping t) h = simp (string_at, get-insert, to_string-of_string)
  read_outbound-serialize (wake_word_detected t none) h =
      simp (string_at, get-insert, contains-insert, contains-empty, to_string-of_string)
  read_outbound-serialize (wake_word_detected t (some c)) h =
      simp (string_at, get-insert, contains-insert, to_string-of_string, to_double-of_double)
  read_outbound-serialize (audio_stream_start_in i c r) h =
      simp (string_at, get-insert, to_string-of_string, to_int-of_int r h)
  read_outbound-serialize (speech_ended i) h = simp (string_at, get-insert, to_string-of_string)
  read_outbound-serialize (audio_stream_end_in i r) h =
      simp (string_at, get-insert, to_string-of_string)
  read_outbound-serialize (text_message t) h = simp (string_at, get-insert, to_string-of_string)
  read_outbound-serialize (barge_in i) h = simp (string_at, get-insert, to_string-of_string)

  -- Given the JSON laws, a peer that reads the text of any client message gets that message back,
  -- if its sample rate is a 32-bit integer.
  pub read_text-serialize_to_string :
      (m : OutboundMessage q) → IsSendable m → read_text q (serialize_to_string q m) ≡ some m
  unfolding read_text serialize_to_string
  read_text-serialize_to_string m h = rw (parse-print (serialize q m)) (read_outbound-serialize m h)
