-- ===== src/Protocol/Binary/Tests.antt =====
-- The theorems on binary frames at concrete inputs.
use pairion_client.Base.{ℕ, ◌≡◌, refl, List, [], ◌∷◌, ◌++◌, ◌≤◌, ◌<◌, length}
use pairion_client.Qt.Toy.{toy, toy_uuid}
use pairion_client.Protocol.Binary.{
  decode_binary_frame, encode_binary_frame, stream_id_to_prefix, length-stream_id_to_prefix,
  decode-encode, decode_splits,
}

encode_null : encode_binary_frame toy "" (9 ∷ []) ≡ 0 ∷ 0 ∷ 0 ∷ 0 ∷ 9 ∷ []
unfolding encode_binary_frame stream_id_to_prefix
encode_null = refl

length-stream_id_to_prefix_example : length (stream_id_to_prefix toy "some-stream") ≡ 4
length-stream_id_to_prefix_example = length-stream_id_to_prefix toy_uuid "some-stream"

decode-encode_example :
    decode_binary_frame (encode_binary_frame toy "some-stream" (7 ∷ 8 ∷ []))
    ≡ record { prefix = stream_id_to_prefix toy "some-stream"; payload = 7 ∷ 8 ∷ [] }
decode-encode_example = decode-encode toy_uuid "some-stream" (7 ∷ 8 ∷ [])

decode_splits_example :
    let frame : List ℕ = 1 ∷ 2 ∷ 3 ∷ 4 ∷ 5 ∷ [] in
    let d = decode_binary_frame frame in
    (4 ≤ length frame → (d.prefix ++ d.payload ≡ frame) × (length d.prefix ≡ 4))
    × (length frame < 4 → (d.prefix ≡ []) × (d.payload ≡ []))
decode_splits_example = decode_splits (1 ∷ 2 ∷ 3 ∷ 4 ∷ 5 ∷ [])
