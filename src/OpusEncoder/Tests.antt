-- ===== src/OpusEncoder/Tests.antt =====
-- The encoder at concrete inputs.
use pairion_client.Base.{ℕ, ◌≡◌, refl, true, false, List, [], ◌∷◌, map, replicate}
use pairion_client.Capture.{Capture}
use pairion_client.Capture.Frames.{read_all}
use pairion_client.OpusEncoder.{encode_pcm_frame, encoder_error, packet, told}
use pairion_client.OpusEncoder.Captured.{frames, read_all-encoded}

too_short :
    encode_pcm_frame true (λ n. "n") (λ bytes. packet bytes) (1 ∷ 2 ∷ [])
    ≡ encoder_error "Invalid PCM frame size: n (expected n)"
unfolding encode_pcm_frame
too_short = refl

not_valid :
    encode_pcm_frame false (λ n. "n") (λ bytes. packet bytes) []
    ≡ encoder_error "Encoder not initialized"
unfolding encode_pcm_frame
not_valid = refl

abbrev opened : Capture
opened = record {
  audio_source = true;
  io_device = true;
  accumulator = [];
  owns_source = true;
  running = true;
  configured_device_id = "";
  configured_sample_rate = 16000;
  emitted = [];
}

abbrev chunks : List (List ℕ)
chunks = replicate 1000 1 ∷ replicate 300 2 ∷ []

read_all-encoded_example :
    map
      (encode_pcm_frame true (λ n. "n") (λ bytes. packet bytes))
      (frames (read_all chunks opened).emitted)
    ≡ map (λ frame. told (packet frame)) (frames (read_all chunks opened).emitted)
read_all-encoded_example =
    read_all-encoded (λ n. "n") (λ bytes. packet bytes) [] chunks opened refl (tt, refl, refl)
