-- ===== src/Startup/Tests.antt =====
-- The start of the program at concrete inputs.
use pairion_client.Base.{
  ℕ, zero, suc, ◌≡◌, refl, Bool, true, false, none, some, [], ◌∷◌, map, replicate, length,
  if◌then◌else◌,
}
use pairion_client.Qt.{pos}
use pairion_client.Qt.Toy.{toy}
use pairion_client.ConnectionState
use pairion_client.Capture.{AudioDevice}
use pairion_client.Wake
use pairion_client.Wake.{Models}
use pairion_client.Wake.PreRoll.{feed}
use pairion_client.ModelDownloader
use pairion_client.ModelDownloader.{ModelEntry, Files, verify_file, sort_cached}
use pairion_client.Startup.{App, Machine, init_audio_pipeline}
use pairion_client.Startup.Shown.{health, verdict}
use pairion_client.Startup.Retries.{Loads, loads, retry_all, init_audio_pipeline_settles}
use pairion_client.Startup.Sessions.{open_sessions, heard, heard-open_sessions}

abbrev device : AudioDevice
device = record { description = "mic"; is_format_supported = λ rate. true; starts = λ rate. true }

abbrev mel : ModelEntry
mel = record { name = "mel.onnx"; url = "http://models/mel"; sha256 = 1 ∷ [] }

abbrev machine : Machine
machine = record {
  inputs = record { default_input = device; audio_inputs = [] };
  inference_starts = true;
  encoder_starts = true;
  sink_starts = true;
  sha256_hex = λ bytes. bytes;
  writable = λ name. true;
  cache_dir = "/models";
  manifest = mel ∷ [];
  decimal = λ n. "n";
}

abbrev cached : Files
cached name = some (1 ∷ [])

-- The microphone is permitted, and the models are in the cache.
abbrev permitted : App toy
permitted = record {
  conn_state = ConnectionState.new toy;
  settings = record {
    wake_threshold = 3;
    vad_silence_end_ms = pos 800;
    vad_threshold = 5;
    audio_input_device = "";
    audio_sample_rate = pos 16000;
  };
  capture = record {
    audio_source = false;
    io_device = false;
    accumulator = [];
    owns_source = true;
    running = false;
    configured_device_id = "";
    configured_sample_rate = 16000;
    emitted = [];
  };
  downloader = ModelDownloader.new cached;
  mic_permission_granted = true;
  models_ready = false;
  inference_running = false;
  encoder_running = false;
  retries = [];
  pipelines = [];
  health_monitors = 0;
}

-- The first two attempts fail.
abbrev third_time : Loads
third_time n = if◌then◌else◌ (is_late n) none (some "bad file")
  where
    is_late : ℕ → Bool
    is_late zero = true
    is_late (suc zero) = true
    is_late (suc (suc n)) = false

init_audio_pipeline_settles_example :
    let r =
      retry_all machine third_time 3 (init_audio_pipeline machine (third_time 3) 3 permitted) in
    (r.retries ≡ [])
    × (length r.pipelines ≡ (if loads third_time 3 then 1 else 0))
    × (health r ≡ (if loads third_time 3 then verdict machine permitted else "models_failed"))
init_audio_pipeline_settles_example = init_audio_pipeline_settles machine third_time permitted refl

abbrev any_models : Models toy
any_models = record {
  mel = λ input. [];
  embedding = λ input. [];
  classifier = λ input. [];
  of_sample = λ n. 0;
  divide = λ a b. a;
  add = λ a b. a;
  to_float = λ d. d;
}

-- A session whose load fails between two that work.
heard-open_sessions_example :
    let r = open_sessions machine (none ∷ some "bad file" ∷ none ∷ []) permitted in
    (length r.pipelines ≡ 2)
    × (heard machine any_models ((20, (1 ∷ 2 ∷ [])) ∷ []) r
        ≡ map (replicate 2) (feed any_models ((20, (1 ∷ 2 ∷ [])) ∷ []) (Wake.new 3)).1)
unfolding sort_cached verify_file
heard-open_sessions_example =
    heard-open_sessions machine (none ∷ some "bad file" ∷ none ∷ []) permitted any_models
      ((20, (1 ∷ 2 ∷ [])) ∷ []) refl refl refl
