-- ===== src/Capture.antt =====
-- src/audio/pairion_audio_capture.cpp: the microphone. The audio inputs of the machine are an
-- argument: their names, the rates they support, and whether a source on them starts. A rate of 0
-- stands for every rate that is not positive.
pub mod Frames
mod Tests
use pairion_client.Base.{
  ℕ, zero, suc, String, Bool, true, false, List, [], ◌∷◌, ◌++◌, ltb, str_eq, if◌then◌else◌, length,
  take, drop,
}
use Prim.Native.String.{◌++◌ as append_text}

pub data CaptureSignal : Type 0 where
  audio_frame_available : List ℕ → CaptureSignal
  capture_error : (reason : String) → CaptureSignal

pub record AudioDevice : Type 0 where
  pub description : String
  pub is_format_supported : (rate : ℕ) → Bool
  -- whether `QAudioSource::start` gives a device to read from
  pub starts : (rate : ℕ) → Bool

pub record Inputs : Type 0 where
  pub default_input : AudioDevice
  pub audio_inputs : List AudioDevice

pub record Capture : Type 0 where
  -- `m_audioSource` and `m_ioDevice` are not null
  pub audio_source : Bool
  pub io_device : Bool
  pub accumulator : List ℕ
  pub owns_source : Bool
  pub running : Bool
  pub configured_device_id : String
  pub configured_sample_rate : ℕ
  -- newest first
  pub emitted : List CaptureSignal

abbrev pub frame_bytes : ℕ
frame_bytes = 640

abbrev pub sample_rate : ℕ
sample_rate = 16000

abbrev pub signal : CaptureSignal → Capture → Capture
signal s c = record c { emitted = s ∷ c.emitted }

-- The first input with the configured name, or the default.
abbrev pub select_device : String → List AudioDevice → AudioDevice → AudioDevice
select_device id [] default = default
select_device id (device ∷ devices) default =
    if str_eq device.description id then device else select_device id devices default

abbrev pub chosen : Inputs → Capture → AudioDevice
chosen inputs c =
    if str_eq c.configured_device_id ""
    then inputs.default_input
    else select_device c.configured_device_id inputs.audio_inputs inputs.default_input

-- The source at a rate that the device supports.
abbrev pub open_source : AudioDevice → ℕ → Capture → Capture
open_source device rate c =
    let c' = record c { audio_source = true; io_device = device.starts rate } in
    if device.starts rate
    then record c' { running = true }
    else signal (capture_error "Failed to start audio source") c'

abbrev pub positive_or_default : ℕ → ℕ
positive_or_default rate = if ltb 0 rate then rate else sample_rate

abbrev pub start_source : AudioDevice → Capture → Capture
start_source device c =
    let rate = positive_or_default c.configured_sample_rate in
    if device.is_format_supported rate
    then open_source device rate c
    else if device.is_format_supported sample_rate
    then open_source device sample_rate c
    else signal
        (capture_error (append_text "Audio format not supported by device: " device.description)) c

unfoldable pub start : Inputs → Capture → Capture
start inputs c =
    if c.running
    then c
    else if c.owns_source
    then start_source (chosen inputs c) c
    else record c { running = true }

abbrev pub release_source : Capture → Capture
release_source c =
    if c.owns_source
    then (if c.audio_source then record c { audio_source = false; io_device = false } else c)
    else c

unfoldable pub stop : Capture → Capture
stop c =
    if c.running
    then record (release_source (record c { running = false })) { accumulator = [] }
    else c

unfoldable pub configure : Inputs → String → ℕ → Capture → Capture
unfolding start stop
configure inputs device_id rate c =
    let c' = record c {
      configured_device_id = device_id;
      configured_sample_rate = positive_or_default rate;
    } in
    if c'.running then start inputs (stop c') else c'

-- The loop of `processAccumulator`, on fuel.
pub process_accumulator : ℕ → Capture → Capture
process_accumulator zero c = c
process_accumulator (suc fuel) c =
    let c' = record c { accumulator = drop frame_bytes c.accumulator } in
    let rest =
      process_accumulator fuel
        (signal (audio_frame_available (take frame_bytes c.accumulator)) c') in
    if ltb (length c.accumulator) frame_bytes then c else rest

abbrev append_data : List ℕ → Capture → Capture
append_data bytes c = record c { accumulator = c.accumulator ++ bytes }

-- The bytes are what `readAll` gives.
unfoldable pub on_audio_data_ready : List ℕ → Capture → Capture
unfolding process_accumulator
on_audio_data_ready [] c = c
on_audio_data_ready (x ∷ xs) c =
    if c.io_device
    then process_accumulator (length (c.accumulator ++ (x ∷ xs))) (append_data (x ∷ xs) c)
    else c

-- A change to StoppedState with an error; every other change does nothing.
unfoldable pub on_audio_source_stopped : String → Capture → Capture
on_audio_source_stopped error c =
    if c.running
    then (if c.audio_source
        then signal
            (capture_error
              (append_text "Audio device stopped unexpectedly (error " (append_text error ")")))
            (record c { running = false })
        else c)
    else c
