-- ===== src/Protocol/Envelope/Tests.antt =====
-- The theorems on envelopes at concrete messages.
use pairion_client.Base.{◌≡◌, ◌↔◌, refl, false, none, some}
use pairion_client.Qt.{pos}
use pairion_client.Qt.Toy.{toy, toy_json}
use pairion_client.Protocol.Messages.{
  new_stream_start, wake_word_detected, audio_stream_start_out, map_clear,
}
use pairion_client.Protocol.Envelope.{
  serialize, serialize_to_string, string_at, deserialize, deserialize_from_string,
}
use pairion_client.Protocol.Envelope.Server.{read_text, write_inbound, server_types, one_of}
use pairion_client.Protocol.Envelope.Outbound.{read_text-serialize_to_string}
use pairion_client.Protocol.Envelope.Inbound.{deserialize_from_string-print, deserialize-none}
use native.Mathlib.Omega.{arith}

start_codec : string_at toy (serialize toy (new_stream_start "s1")) "codec" ≡ "opus"
unfolding serialize
start_codec = refl

-- What the client itself sends is no server message, but for the audio stream messages.
not_for_client : deserialize toy (serialize toy (wake_word_detected "now" none)) ≡ none
unfolding deserialize serialize
not_for_client = refl

read_text-serialize_to_string_example :
    read_text toy (serialize_to_string toy (new_stream_start "s1")) ≡ some (new_stream_start "s1")
read_text-serialize_to_string_example =
    read_text-serialize_to_string toy_json (new_stream_start "s1") (omega arith)

deserialize_from_string-print_example :
    deserialize_from_string toy
      (toy.print (write_inbound toy (audio_stream_start_out "s2" "opus" (pos 48000))))
    ≡ some (audio_stream_start_out "s2" "opus" (pos 48000))
deserialize_from_string-print_example =
    deserialize_from_string-print toy_json (audio_stream_start_out "s2" "opus" (pos 48000))
      (omega arith)

deserialize-none_example :
    (deserialize toy (write_inbound toy map_clear) ≡ none)
    ↔ (one_of (string_at toy (write_inbound toy map_clear) "type") server_types ≡ false)
deserialize-none_example = deserialize-none (write_inbound toy map_clear)
