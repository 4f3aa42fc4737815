-- ===== src/Startup.antt =====
-- src/main.cpp: what the start of the program connects. The pipelines are made when the models are
-- ready and the microphone is permitted; the objects of a pipeline are new ones each time. What
-- ONNX Runtime says to the model files, and whether a thread starts, are arguments. A frame
-- reaches the detectors at once; the warm-up that is queued for a detector is only noted.
pub mod Shown
pub mod Retries
pub mod Sessions
mod Tests
use pairion_client.Base.{
  ℕ, zero, suc, String, Bool, true, false, ◌&&◌, ◌||◌, Option, none, some, List, [], ◌∷◌, ◌++◌, map,
  str_eq, if◌then◌else◌,
}
use Prim.Native.String.{◌++◌ as append_text}
use pairion_client.Qt.{Qt, ℤ, pos, negsuc}
use pairion_client.ConnectionState.{ConnectionState, append_log, set_pipeline_health}
use pairion_client.Settings.{Settings}
use pairion_client.Capture
use pairion_client.Capture.{Capture, Inputs}
use pairion_client.Wake
use pairion_client.Wake.{Detector, Models, WakeWord}
use pairion_client.Playback
use pairion_client.Playback.{Playback}
use pairion_client.Vad
use pairion_client.Vad.{Vad}
use pairion_client.ModelDownloader.{
  ModelEntry, Downloader, DownloadSignal, download_progress, all_models_ready, download_error,
  Reply, check_and_download, on_download_finished,
}

-- The objects that `initAudioPipeline` makes: the detector and the VAD, which the capture feeds from
-- then on, the playback, and an orchestrator over them, which is only noted.
pub record Pipeline (q : Qt) : Type 0 where
  pub wake_detector : Detector q
  pub vad : Vad q
  pub playback : Playback
  -- `warmup` is queued, and `startListening` was called
  pub warmup_queued : Bool
  pub listening : Bool

pub record App (q : Qt) : Type 0 where
  pub conn_state : ConnectionState q
  pub settings : Settings q
  pub capture : Capture
  pub downloader : Downloader
  pub mic_permission_granted : Bool
  pub models_ready : Bool
  pub inference_running : Bool
  pub encoder_running : Bool
  -- the `retryCount` of the single shots that are due, oldest first
  pub retries : List ℕ
  pub pipelines : List (Pipeline q)
  pub health_monitors : ℕ

-- The machine: its audio inputs, whether the threads and the audio sink start, the files of the models, and how a
-- number is printed.
pub record Machine : Type 0 where
  pub inputs : Inputs
  pub inference_starts : Bool
  pub encoder_starts : Bool
  pub sink_starts : Bool
  pub sha256_hex : List ℕ → List ℕ
  pub writable : String → Bool
  pub cache_dir : String
  pub manifest : List ModelEntry
  pub decimal : ℕ → String

pub data PermissionStatus : Type 0 where
  undetermined granted denied : PermissionStatus

-- A rate or a silence that is not positive acts as 0 in the capture and in the VAD.
abbrev pub positive_part : ℤ → ℕ
positive_part (pos n) = n
positive_part (negsuc n) = 0

module _ {q : Qt} (machine : Machine) where
  abbrev pub log : String → App q → App q
  log entry a = record a { conn_state = append_log entry a.conn_state }

  abbrev pub show_health : String → App q → App q
  show_health health a = record a { conn_state = set_pipeline_health health a.conn_state }

  -- The `catch` block, with the retries that remain.
  pub load_failed : ℕ → String → App q → App q
  load_failed zero error a = show_health "models_failed" (
      log "[CRITICAL] ONNX model load failed after all retries. Delete the model cache and restart."
        (log (append_text "[ERROR] Failed to load ONNX models: " error) a))
  load_failed (suc n) error a =
      let a' =
        log
          (append_text "[INFO] Retrying ONNX model load in 1 second ("
            (append_text (machine.decimal (suc n)) " attempts left)..."))
          (log (append_text "[ERROR] Failed to load ONNX models: " error) a) in
      record a' { retries = a'.retries ++ (n ∷ []) }

  abbrev new_pipeline : Settings q → Pipeline q
  new_pipeline settings = record {
    wake_detector = Wake.new settings.wake_threshold;
    vad = Vad.new settings.vad_threshold (positive_part settings.vad_silence_end_ms);
    playback = Playback.new machine.sink_starts;
    warmup_queued = false;
    listening = false;
  }

  abbrev pub mark_last : List (Pipeline q) → List (Pipeline q)
  mark_last [] = []
  mark_last (p ∷ []) = record p { warmup_queued = true; listening = true } ∷ []
  mark_last (p ∷ (p' ∷ pipelines)) = p ∷ mark_last (p' ∷ pipelines)

  -- The threads run.
  pub begin_listening : App q → App q
  begin_listening a = show_health "ready" (record a {
    capture = Capture.start machine.inputs a.capture;
    pipelines = mark_last a.pipelines;
    health_monitors = suc a.health_monitors;
  })

  pub start_encoder : App q → App q
  unfolding begin_listening
  start_encoder a =
      let a' = record a { encoder_running = a.encoder_running || machine.encoder_starts } in
      if a'.encoder_running
      then begin_listening a'
      else show_health "pipeline_error" (
          log
            "[CRITICAL] Encoder thread failed to start — microphone pipeline offline. Restart the application."
            a')

  pub start_inference : App q → App q
  unfolding start_encoder
  start_inference a =
      let a' = record a { inference_running = a.inference_running || machine.inference_starts } in
      if a'.inference_running
      then start_encoder a'
      else show_health "pipeline_error" (
          log
            "[CRITICAL] Inference thread failed to start — microphone pipeline offline. Restart the application."
            a')

  -- With what the load of the models throws, if anything.
  unfoldable pub init_audio_pipeline : Option String → ℕ → App q → App q
  unfolding load_failed start_inference
  init_audio_pipeline (some error) retry_count a = load_failed retry_count error a
  init_audio_pipeline none retry_count a =
      start_inference (record a { pipelines = a.pipelines ++ (new_pipeline a.settings ∷ []) })

  fire : Option String → List ℕ → App q → App q
  unfolding init_audio_pipeline
  fire error [] a = a
  fire error (n ∷ retries) a = init_audio_pipeline error n (record a { retries = retries })

  -- The oldest single shot fires.
  unfoldable pub on_retry : Option String → App q → App q
  unfolding fire
  on_retry error a = fire error a.retries a

  unfoldable pub try_start_pipeline : Option String → App q → App q
  unfolding init_audio_pipeline
  try_start_pipeline error a =
      if a.mic_permission_granted && a.models_ready then init_audio_pipeline error 3 a else a

  unfoldable pub handle_permission : Option String → PermissionStatus → App q → App q
  unfolding try_start_pipeline
  handle_permission error granted a =
      try_start_pipeline error
        (record (log "[INFO] Microphone permission granted" a) { mic_permission_granted = true })
  handle_permission error status a = show_health "mic_offline" (
      log
        "[WARN] Microphone access denied. Grant access in System Settings > Privacy & Security > Microphone."
        a)

  -- The `switch` over the status at the start: an undetermined one is asked for.
  unfoldable pub check_permission : Option String → PermissionStatus → App q → App q
  unfolding handle_permission
  check_permission error undetermined a = a
  check_permission error granted a = handle_permission error granted a
  check_permission error denied a = handle_permission error denied a

  unfoldable pub on_all_models_ready : Option String → App q → App q
  unfolding try_start_pipeline
  on_all_models_ready error a =
      try_start_pipeline error (show_health "initializing" (record a { models_ready = true }))

  -- The slots on the downloader's signals, newest first.
  pub react : Option String → List DownloadSignal → App q → App q
  unfolding on_all_models_ready
  react error [] a = a
  react error (all_models_ready ∷ signals) a = on_all_models_ready error (react error signals a)
  react error (download_error msg ∷ signals) a =
      log (append_text "[ERROR] Model download: " msg) (react error signals a)
  react error (download_progress percent ∷ signals) a = react error signals a

  -- A call of the downloader, with the slots on what it emits; each call emits last what is acted on.
  abbrev pub with_downloader : Option String → (Downloader → Downloader) → App q → App q
  with_downloader error f a =
      let d = f (record a.downloader { emitted = [] }) in
      react error d.emitted (record a { downloader = d })

  -- The slot of main.cpp on sessionOpened.
  unfoldable pub on_session_opened : Option String → App q → App q
  unfolding react
  on_session_opened error a =
      with_downloader error
        (check_and_download machine.sha256_hex machine.writable machine.manifest)
        (show_health "models_loading" a)

  unfoldable pub on_reply : Option String → Reply → App q → App q
  unfolding react
  on_reply error reply a =
      with_downloader error
        (on_download_finished machine.sha256_hex machine.writable machine.cache_dir reply) a

  -- The slots on audioInputDeviceChanged and audioSampleRateChanged, and the call before.
  unfoldable pub configure_capture : App q → App q
  configure_capture a = record a {
    capture =
        Capture.configure machine.inputs a.settings.audio_input_device
          (positive_part a.settings.audio_sample_rate) a.capture;
  }

  -- A frame of the capture goes to the detector of every pipeline.
  unfoldable pub on_audio_frame : Models q → ℕ → List ℕ → App q → App q × List (Option (WakeWord q))
  on_audio_frame models now pcm a =
      let heard : Pipeline q → Detector q × Option (WakeWord q) =
        λ p. Wake.process_pcm_frame models now pcm p.wake_detector in
      let fed : List (Pipeline q) =
        map {A = Pipeline q} {B = Pipeline q} (λ p. record p { wake_detector = (heard p).0 })
          a.pipelines in
      (record a { pipelines = fed }, map {A = Pipeline q} (λ p. (heard p).1) a.pipelines)

  -- Each start of the pipeline that came to its end has connected its slots once more.
  abbrev log_times : ℕ → String → App q → App q
  log_times zero entry a = a
  log_times (suc n) entry a = log_times n entry (log entry a)

  unfoldable pub on_inference_finished : App q → App q
  on_inference_finished a =
      log_times a.health_monitors
        "[CRITICAL] Inference thread exited — microphone pipeline offline. Restart the application."
        (record a { inference_running = false })

  unfoldable pub on_encoder_finished : App q → App q
  on_encoder_finished a =
      log_times a.health_monitors
        "[CRITICAL] Encoder thread exited — microphone pipeline offline. Restart the application."
        (record a { encoder_running = false })

  -- The slots on pipelineError of one orchestrator, and on captureError of the capture.
  unfoldable pub on_pipeline_error : String → App q → App q
  on_pipeline_error reason a = log (append_text "[ERROR] Pipeline: " reason) a

  unfoldable pub on_capture_error : String → App q → App q
  on_capture_error reason a =
      log_times a.health_monitors (append_text "[ERROR] Microphone: " reason) a
