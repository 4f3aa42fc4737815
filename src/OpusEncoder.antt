-- ===== src/OpusEncoder.antt =====
-- src/audio/pairion_opus_encoder.cpp: the encoder of the captured frames. libopus is a parameter:
-- the packet that it makes of the samples, or the text of its error.
pub mod Captured
mod Tests
use pairion_client.Base.{ℕ, String, Bool, true, false, List, [], ◌∷◌, ◌==◌, if◌then◌else◌, length}
use Prim.Native.String.{◌++◌ as append_text}

pub data EncoderSignal : Type 0 where
  opus_frame_encoded : (opus_frame : List ℕ) → EncoderSignal
  encoder_error : (reason : String) → EncoderSignal

pub data OpusResult : Type 0 where
  packet : List ℕ → OpusResult
  negative : (error : String) → OpusResult

abbrev pub frame_bytes : ℕ
frame_bytes = 640

abbrev pub told : OpusResult → EncoderSignal
told (packet bytes) = opus_frame_encoded bytes
told (negative error) = encoder_error (append_text "Opus encode error: " error)

-- `valid` is `m_encoder != nullptr`; each call emits one signal.
unfoldable pub encode_pcm_frame :
    (valid : Bool) → (decimal : ℕ → String) → (List ℕ → OpusResult) → List ℕ → EncoderSignal
encode_pcm_frame valid decimal opus pcm20ms =
    if valid
    then (if length pcm20ms == frame_bytes
        then told (opus pcm20ms)
        else encoder_error (
            append_text "Invalid PCM frame size: " (
              append_text (decimal (length pcm20ms))
                (append_text " (expected " (append_text (decimal frame_bytes) ")")))))
    else encoder_error "Encoder not initialized"
