-- ===== src/Playback.antt =====
-- src/audio/pairion_audio_playback.cpp and pairion_opus_decoder.cpp: the playback of inbound
-- speech. The sink and its device are parameters: a write takes a number of the bytes it is given.
-- A method returns the new state and the signals that it emits, in order.
pub mod Bytes
pub mod Speaking
mod Tests
use pairion_client.Base.{
  ℕ, zero, suc, ◌*◌, ◌/◌, String, Bool, true, false, not, List, [], ◌∷◌, ◌++◌, ltb, ◌==◌, str_eq,
  if◌then◌else◌, length, take, drop,
}
use Prim.Native.String.{◌++◌ as append_text}

pub data PlaybackSignal : Type 0 where
  speaking_state_changed : (state : String) → PlaybackSignal
  playback_error : (message : String) → PlaybackSignal

pub record Playback : Type 0 where
  -- `m_audioDevice` is not null
  pub device : Bool
  -- the sink is in QAudio::StoppedState
  pub sink_stopped : Bool
  -- the queue, its head first
  pub jitter_buffer : List (List ℕ)
  pub silence_timer : Bool
  pub drain_timer : Bool
  pub is_speaking : Bool
  -- the bytes that the device has taken so far
  pub written : List ℕ

-- How many bytes of a chunk the device takes, after what it has taken; a result of 0 stands for
-- every result that is not positive.
abbrev pub Device : Type 0
Device = List ℕ → List ℕ → ℕ

abbrev pub warmup_bytes : ℕ
warmup_bytes = 48000 * 2 * 50 / 1000

abbrev pub silence : ℕ → List ℕ
silence zero = []
silence (suc n) = 0 ∷ silence n

-- The loop that moves the jitter buffer to the device: what is written, and what is left.
pub flush : Device → List ℕ → List (List ℕ) → List ℕ × List (List ℕ)
flush write written [] = (written, [])
flush write written (head ∷ rest) =
    let n = write written head in
    let more = flush write (written ++ head) rest in
    if n == 0
    then (written, head ∷ rest)
    else if ltb n (length head)
    then (written ++ take n head, drop n head ∷ rest)
    else more

abbrev flushed : Device → Playback → Playback
flushed write p =
    let (written, rest) = flush write p.written p.jitter_buffer in
    if p.device then record p { written = written; jitter_buffer = rest } else p

-- `if (m_isSpeaking) { m_isSpeaking = false; emit speakingStateChanged("idle"); }`
fall_silent : Playback → Playback × List PlaybackSignal
fall_silent p =
    if p.is_speaking
    then (record p { is_speaking = false }, speaking_state_changed "idle" ∷ [])
    else (p, [])

unfoldable pub on_silence_timeout : Playback → Playback × List PlaybackSignal
unfolding fall_silent
on_silence_timeout p = fall_silent (record p { silence_timer = false })

abbrev is_empty : List (List ℕ) → Bool
is_empty [] = true
is_empty (x ∷ xs) = false

unfoldable pub on_drain_tick : Device → Playback → Playback
unfolding flush
on_drain_tick write p =
    let p' = flushed write p in
    if is_empty p'.jitter_buffer then record p' { drain_timer = false } else p'

-- `m_sink->start()`, which gives a device or null.
abbrev start_sink : Bool → Playback → Playback
start_sink starts p = record p { device = starts; sink_stopped = not starts }

unfoldable pub start : Bool → Playback → Playback
start starts p = if p.sink_stopped then start_sink starts p else p

unfoldable pub prepare_playback : Bool → Device → Playback → Playback
unfolding start
prepare_playback starts write p =
    let p' = start starts p in
    let warmup = silence warmup_bytes in
    if p'.device
    then record p' { written = p'.written ++ take (write p'.written warmup) warmup }
    else p'

unfoldable pub stop : Playback → Playback × List PlaybackSignal
unfolding fall_silent
stop p = fall_silent (record p {
  drain_timer = false;
  sink_stopped = true;
  device = false;
  jitter_buffer = [];
  silence_timer = false;
})

-- The signal of `handlePcmFrame`, before it writes.
abbrev started : Playback → List PlaybackSignal
started p = if p.is_speaking then [] else speaking_state_changed "speaking" ∷ []

unfoldable pub handle_pcm_frame : Device → List ℕ → Playback → Playback × List PlaybackSignal
unfolding flush
handle_pcm_frame write pcm p = (
  flushed write (record p {
    jitter_buffer = p.jitter_buffer ++ (pcm ∷ []);
    is_speaking = true;
    silence_timer = true;
  }),
  started p,
)

-- What libopus makes of a packet: samples as bytes, or an error text. Its decoder has a state of its
-- own, so each packet comes with what the decoder, as it is by then, makes of packets.
pub data Decoded : Type 0 where
  pcm : List ℕ → Decoded
  failed : String → Decoded

-- `PairionOpusDecoder::decodeOpusFrame`, whose decoder was created.
unfoldable pub decode_opus_frame : (List ℕ → Decoded) → List ℕ → Decoded
decode_opus_frame opus_decode [] = failed "Empty Opus frame"
decode_opus_frame opus_decode (b ∷ bytes) = opus_decode (b ∷ bytes)

abbrev play_decoded : Device → Decoded → Playback → Playback × List PlaybackSignal
play_decoded write (pcm bytes) p = handle_pcm_frame write bytes p
play_decoded write (failed message) p = (p, playback_error message ∷ [])

unfoldable pub handle_opus_frame :
    (List ℕ → Decoded) → Device → List ℕ → Playback → Playback × List PlaybackSignal
unfolding handle_pcm_frame decode_opus_frame
handle_opus_frame opus_decode write opus_frame p =
    play_decoded write (decode_opus_frame opus_decode opus_frame) p

-- The rest of `handleStreamEnd`, after the speaking state.
abbrev finish_stream : String → Playback → Playback
finish_stream reason p =
    if str_eq reason "normal"
    then (if is_empty p.jitter_buffer then p else record p { drain_timer = true })
    else record p { drain_timer = false; jitter_buffer = []; sink_stopped = true; device = false }

abbrev end_error : String → List PlaybackSignal
end_error reason =
    if str_eq reason "normal"
    then []
    else playback_error (append_text "Stream ended with reason: " reason) ∷ []

unfoldable pub handle_stream_end : String → Playback → Playback × List PlaybackSignal
unfolding fall_silent
handle_stream_end reason p =
    let (p', signals) = fall_silent (record p { silence_timer = false }) in
    (finish_stream reason p', signals ++ end_error reason)

-- The constructor, with a sink that started or not.
abbrev pub new : Bool → Playback
new starts = record {
  device = starts;
  sink_stopped = not starts;
  jitter_buffer = [];
  silence_timer = false;
  drain_timer = false;
  is_speaking = false;
  written = [];
}
