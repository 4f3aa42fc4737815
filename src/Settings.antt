-- ===== src/Settings.antt =====
-- src/settings/settings.cpp: the settings object over QSettings.
pub mod Persistence
mod Tests
use pairion_client.Base.{String, Bool, true, false, not, List, [], ◌∷◌, str_eq, if◌then◌else◌}
use pairion_client.Qt.{Qt, ℤ, pos, negsuc}
use pairion_client.Base.{ℕ, ◌==◌}
use pairion_client.Store.{QSettings}

pub data SettingsSignal : Type 0 where
  wake_threshold_changed vad_silence_end_ms_changed vad_threshold_changed : SettingsSignal
  audio_input_device_changed audio_sample_rate_changed : SettingsSignal

pub record Settings (q : Qt) : Type 0 where
  pub wake_threshold : q.Double
  pub vad_silence_end_ms : ℤ
  pub vad_threshold : q.Double
  pub audio_input_device : String
  pub audio_sample_rate : ℤ

abbrev pub int_eq : ℤ → ℤ → Bool
int_eq (pos a) (pos b) = a == b
int_eq (pos a) (negsuc b) = false
int_eq (negsuc a) (pos b) = false
int_eq (negsuc a) (negsuc b) = a == b

module _ {q : Qt} (s : QSettings q) where
  -- The object, the store, and the signals emitted so far, newest first.
  pub record World : Type 0 where
    pub settings : Settings q
    pub store : s.Store
    pub emitted : List SettingsSignal

  -- The constructor.
  unfoldable pub load : s.Store → Settings q
  load store = record {
    wake_threshold = s.to_double (s.value store "wake/threshold" (s.of_double (q.literal "0.3")));
    vad_silence_end_ms = s.to_int (s.value store "vad/silence_end_ms" (s.of_int (pos 800)));
    vad_threshold = s.to_double (s.value store "vad/threshold" (s.of_double (q.literal "0.5")));
    audio_input_device = s.to_string (s.value store "audio/input_device" (s.of_string ""));
    audio_sample_rate = s.to_int (s.value store "audio/sample_rate" (s.of_int (pos 16000)));
  }

  -- `setValue` and the signal, after the member was set.
  abbrev pub changed : String → s.Value → SettingsSignal → Settings q → World → World
  changed key v signal settings w = record {
    settings = settings;
    store = s.set_value key v w.store;
    emitted = signal ∷ w.emitted;
  }

  unfoldable pub set_wake_threshold : q.Double → World → World
  set_wake_threshold v w =
      if not (s.equal w.settings.wake_threshold v)
      then changed "wake/threshold" (s.of_double v) wake_threshold_changed
          (record w.settings { wake_threshold = v }) w
      else w

  unfoldable pub set_vad_silence_end_ms : ℤ → World → World
  set_vad_silence_end_ms v w =
      if not (int_eq w.settings.vad_silence_end_ms v)
      then changed "vad/silence_end_ms" (s.of_int v) vad_silence_end_ms_changed
          (record w.settings { vad_silence_end_ms = v }) w
      else w

  unfoldable pub set_vad_threshold : q.Double → World → World
  set_vad_threshold v w =
      if not (s.equal w.settings.vad_threshold v)
      then changed "vad/threshold" (s.of_double v) vad_threshold_changed
          (record w.settings { vad_threshold = v }) w
      else w

  unfoldable pub set_audio_input_device : String → World → World
  set_audio_input_device v w =
      if not (str_eq w.settings.audio_input_device v)
      then changed "audio/input_device" (s.of_string v) audio_input_device_changed
          (record w.settings { audio_input_device = v }) w
      else w

  unfoldable pub set_audio_sample_rate : ℤ → World → World
  set_audio_sample_rate v w =
      if not (int_eq w.settings.audio_sample_rate v)
      then changed "audio/sample_rate" (s.of_int v) audio_sample_rate_changed
          (record w.settings { audio_sample_rate = v }) w
      else w
