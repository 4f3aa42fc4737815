-- ===== src/Playback/Tests.antt =====
-- The theorems on the playback at concrete inputs.
use pairion_client.Base.{ℕ, ◌≡◌, refl, true, false, List, [], ◌∷◌}
use pairion_client.Playback.{
  Playback, PlaybackSignal, speaking_state_changed, playback_error, Device, Decoded, pcm, new,
  decode_opus_frame, handle_opus_frame, on_silence_timeout, handle_stream_end,
}
use pairion_client.Playback.Speaking.{
  Method, opus_frame, stream_end, silence_elapsed, drain, calls, Announces, calls-IsAnnounced,
}
use pairion_client.Playback.Bytes.{arrives, tick, play, accepted, play-accepted}

abbrev plain : List ℕ → Decoded
plain frame = pcm frame

-- A device that takes two bytes of a chunk.
abbrev two_bytes : Device
two_bytes written chunk = 2

abbrev methods : List Method
methods =
    opus_frame plain (1 ∷ 2 ∷ 3 ∷ [])
    ∷ opus_frame plain []
    ∷ silence_elapsed
    ∷ stream_end "error"
    ∷ drain
    ∷ []

abbrev spoken : Playback × List PlaybackSignal
spoken = calls two_bytes methods (new true)

methods_signals :
    spoken.1
    ≡ speaking_state_changed "speaking"
      ∷ playback_error "Empty Opus frame"
      ∷ speaking_state_changed "idle"
      ∷ playback_error "Stream ended with reason: error"
      ∷ []
unfolding handle_opus_frame on_silence_timeout handle_stream_end
methods_signals = refl

calls-IsAnnounced_example : Announces false spoken.1 spoken.0.is_speaking
calls-IsAnnounced_example = calls-IsAnnounced two_bytes methods (new true)

play-accepted_example :
    accepted (
      play two_bytes
        (arrives plain (1 ∷ 2 ∷ 3 ∷ []) ∷ tick ∷ arrives plain (4 ∷ []) ∷ [])
        (new true))
    ≡ 1 ∷ 2 ∷ 3 ∷ 4 ∷ []
unfolding decode_opus_frame
play-accepted_example =
    play-accepted two_bytes (arrives plain (1 ∷ 2 ∷ 3 ∷ []) ∷ tick ∷ arrives plain (4 ∷ []) ∷ [])
      (new true)
