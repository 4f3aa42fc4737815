-- ===== src/OpusEncoder/Captured.antt =====
-- src/audio/pairion_opus_encoder.cpp and pairion_audio_capture.cpp: captured frames at the encoder.
use pairion_client.Base.{ℕ, ◌≡◌, refl, String, true, List, [], ◌∷◌, map, if◌then◌else◌, length}
use pairion_client.Capture.{Capture, CaptureSignal, audio_frame_available, capture_error}
use pairion_client.Capture.Frames.{AreFrames, HasCut, read_all, read_all-HasCut}
use pairion_client.OpusEncoder.{OpusResult, frame_bytes, told, encode_pcm_frame}

-- The frames that were emitted, newest first, as the encoder gets them.
abbrev pub frames : List CaptureSignal → List (List ℕ)
frames [] = []
frames (audio_frame_available bytes ∷ signals) = bytes ∷ frames signals
frames (capture_error reason ∷ signals) = frames signals

module _ (decimal : ℕ → String) (opus : List ℕ → OpusResult) where
  encode_full :
      (bytes : List ℕ)
      → length bytes ≡ frame_bytes
      → encode_pcm_frame true decimal opus bytes ≡ told (opus bytes)
  unfolding encode_pcm_frame
  encode_full bytes e = rw (e, if◌then◌else◌) refl

  AreFrames-encoded :
      (signals : List CaptureSignal)
      → AreFrames signals
      → map (encode_pcm_frame true decimal opus) (frames signals)
        ≡ map (λ bytes. told (opus bytes)) (frames signals)
  AreFrames-encoded [] h = refl
  AreFrames-encoded (audio_frame_available bytes ∷ signals) (e, h) =
      cc (encode_full bytes e, AreFrames-encoded signals h)
  AreFrames-encoded (capture_error reason ∷ signals) h = AreFrames-encoded signals h

  -- From an open device whose frames so far are full, whatever chunks are read: a valid encoder
  -- tells, for every frame that the capture emits, what libopus makes of it, and refuses none for
  -- its size.
  pub read_all-encoded :
      (bytes : List ℕ) (chunks : List (List ℕ)) (c : Capture)
      → c.io_device ≡ true
      → HasCut bytes c
      → map (encode_pcm_frame true decimal opus) (frames (read_all chunks c).emitted)
        ≡ map (λ frame. told (opus frame)) (frames (read_all chunks c).emitted)
  read_all-encoded bytes chunks c up cut =
      AreFrames-encoded (read_all chunks c).emitted (read_all-HasCut bytes chunks c up cut).0
