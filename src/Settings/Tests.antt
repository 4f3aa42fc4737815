-- ===== src/Settings/Tests.antt =====
-- The settings at concrete inputs.
use pairion_client.Base.{◌≡◌, refl, List, [], ◌∷◌}
use pairion_client.Qt.{pos}
use pairion_client.Qt.Toy.{toy}
use pairion_client.Store.Toy.{toy_settings, toy_store}
use pairion_client.Settings.{
  World, load, wake_threshold_changed, audio_input_device_changed, set_wake_threshold,
  set_audio_input_device,
}
use pairion_client.Settings.Persistence.{
  Setter, wake_threshold, audio_input_device, audio_sample_rate, calls, load-calls,
}
use native.Mathlib.Omega.{arith}

-- A new object over an empty store.
abbrev fresh : World toy_settings
unfolding load
fresh = record { settings = load toy_settings []; store = []; emitted = [] }

abbrev setters : List (Setter toy)
setters = wake_threshold 6 ∷ audio_input_device "USB" ∷ audio_input_device "USB" ∷ []

-- The second call with the same name emits nothing.
setters_emit :
    (calls toy_settings setters fresh).emitted
    ≡ audio_input_device_changed ∷ wake_threshold_changed ∷ []
unfolding set_wake_threshold set_audio_input_device load
setters_emit = refl

abbrev setters_in_range : List (Setter toy)
setters_in_range = audio_sample_rate (pos 48000) ∷ setters

load-calls_example :
    load toy_settings (calls toy_settings setters_in_range fresh).store
    ≡ (calls toy_settings setters_in_range fresh).settings
unfolding fresh load
load-calls_example =
    load-calls toy_settings toy_store setters_in_range fresh (omega arith, (tt, (tt, (tt, tt))))
      refl
