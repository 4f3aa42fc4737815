-- ===== src/Protocol/Binary.antt =====
-- src/protocol/binary_codec.cpp: audio frames with a prefix of four bytes, taken from the UUID of
-- the stream. Bytes are only moved, so a byte is any number.
mod Tests
use pairion_client.Base.{
  ℕ, ◌≤◌, ◌<◌, ◌≡◌, refl, ◌∙◌, String, Bool, List, [], ◌∷◌, ◌++◌, ltb, arith, length, take, drop,
  take-append-drop, length-take, take-append_exact, drop-append_exact, if◌then◌else◌, ◌+◌,
  length-append, Bool-cases, inl, inr, subst, ap,
}
use pairion_client.Qt.{Qt, UuidLaws}

pub record DecodedBinaryFrame : Type 0 where
  pub prefix : List ℕ
  pub payload : List ℕ

abbrev pub prefix_length : ℕ
prefix_length = 4

unfoldable pub stream_id_to_prefix : (q : Qt) → String → List ℕ
stream_id_to_prefix q stream_id =
    if q.is_uuid stream_id then take prefix_length (q.uuid_bytes stream_id) else 0 ∷ 0 ∷ 0 ∷ 0 ∷ []

unfoldable pub encode_binary_frame : (q : Qt) → String → List ℕ → List ℕ
encode_binary_frame q stream_id opus_payload = stream_id_to_prefix q stream_id ++ opus_payload

unfoldable pub decode_binary_frame : List ℕ → DecodedBinaryFrame
decode_binary_frame frame =
    if ltb (length frame) prefix_length
    then record { prefix = []; payload = [] }
    else record { prefix = take prefix_length frame; payload = drop prefix_length frame }

-- Given that a UUID has sixteen bytes, every prefix has four, also that of an invalid stream id.
pub length-stream_id_to_prefix :
    {q : Qt} → UuidLaws q → (stream_id : String) → length (stream_id_to_prefix q stream_id) ≡ 4
unfolding stream_id_to_prefix
length-stream_id_to_prefix {q} laws stream_id =
    ground
      (arith, laws.length-uuid_bytes stream_id, length-take prefix_length (q.uuid_bytes stream_id))

decode_long :
    (pre rest : List ℕ)
    → length pre ≡ 4
    → decode_binary_frame (pre ++ rest) ≡ record { prefix = pre; payload = rest }
unfolding decode_binary_frame
decode_long pre rest h = ground (
  arith,
  length-append pre rest,
  split (take-append_exact pre rest),
  skip (drop-append_exact pre rest),
)
  where
    split : take (length pre) (pre ++ rest) ≡ pre → take 4 (pre ++ rest) ≡ pre
    split = subst (λ n. take n (pre ++ rest) ≡ pre) h

    skip : drop (length pre) (pre ++ rest) ≡ rest → drop 4 (pre ++ rest) ≡ rest
    skip = subst (λ n. drop n (pre ++ rest) ≡ rest) h

-- Given that a UUID has sixteen bytes, decoding an encoded frame gives back the stream's prefix
-- and the payload, for every stream id, also an invalid one, and every payload, also an empty one.
pub decode-encode :
    {q : Qt}
    → UuidLaws q
    → (stream_id : String) (payload : List ℕ)
    → decode_binary_frame (encode_binary_frame q stream_id payload)
      ≡ record { prefix = stream_id_to_prefix q stream_id; payload = payload }
unfolding encode_binary_frame
decode-encode {q} laws stream_id payload =
    decode_long (stream_id_to_prefix q stream_id) payload
      (length-stream_id_to_prefix laws stream_id)

-- Decoding loses no byte of a frame of at least four bytes and splits it after the fourth; of a
-- shorter frame both parts are empty.
pub decode_splits :
    (frame : List ℕ)
    → let d = decode_binary_frame frame in
      (4 ≤ length frame → (d.prefix ++ d.payload ≡ frame) × (length d.prefix ≡ 4))
      × (length frame < 4 → (d.prefix ≡ []) × (d.payload ≡ []))
unfolding decode_binary_frame
decode_splits frame = ground (arith, take-append-drop 4 frame, length-take 4 frame)
