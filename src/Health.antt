-- ===== src/Health.antt =====
-- src/pipeline/pipeline_health_monitor.cpp: the periodic check of the pipeline's parts. Whether the
-- socket is connected, what a restart of a part achieves, and the clock are arguments.
pub mod Verdict
mod Tests
use pairion_client.Base.{
  ℕ, ◌-◌, String, Bool, true, false, ◌||◌, List, ◌∷◌, Option, none, some, str_eq, ltb,
  if◌then◌else◌,
}
use pairion_client.Qt.{Qt}
use pairion_client.ConnectionState.{ConnectionState, append_log, set_pipeline_health}

pub record Monitor (q : Qt) : Type 0 where
  pub conn_state : ConnectionState q
  -- `isRunning` of the capture and of the two threads
  pub capture_runs : Bool
  pub encoder_runs : Bool
  pub inference_runs : Bool
  -- when `m_lastFrameTimer` was last restarted, once it runs
  pub last_frame : Option ℕ
  -- the signals `healthChanged`, newest first
  pub emitted : List String

-- Whether each part runs after it was started again.
pub record Restarts : Type 0 where
  pub capture : Bool
  pub encoder : Bool
  pub inference : Bool

abbrev pub frame_timeout_ms : ℕ
frame_timeout_ms = 5000

abbrev pub is_silent : ℕ → Option ℕ → Bool
is_silent now none = false
is_silent now (some since) = ltb frame_timeout_ms (now - since)

abbrev pub is_fault : String → Bool
is_fault s =
    str_eq s "mic_offline"
    || str_eq s "wake_failed"
    || str_eq s "pipeline_error"
    || str_eq s "server_disconnected"

module _ {q : Qt} where
  abbrev pub health : Monitor q → String
  health h = h.conn_state.props.pipeline_health

  -- `setPipelineHealth(s); emit healthChanged(s);`
  pub show : String → Monitor q → Monitor q
  show s h = record h { conn_state = set_pipeline_health s h.conn_state; emitted = s ∷ h.emitted }

  pub log : String → Monitor q → Monitor q
  log entry h = record h { conn_state = append_log entry h.conn_state }

  unfoldable pub on_audio_frame : ℕ → Monitor q → Monitor q
  on_audio_frame now h = record h { last_frame = some now }

  pub check_socket : Bool → Monitor q → Monitor q
  unfolding show
  check_socket connected h =
      if connected then h else if str_eq (health h) "ready" then show "server_disconnected" h else h

  -- The checks of the parts return the local `healthy` with the state.
  pub check_capture : Bool → Monitor q → Bool × Monitor q
  unfolding show log
  check_capture restarts h =
      let h1 = log "[WARN] Health: microphone capture stopped — attempting restart" h in
      if h.capture_runs
      then (true, h)
      else if restarts
      then (
        true,
        log "[INFO] Health: microphone capture restarted" (record h1 { capture_runs = true }),
      )
      else (false, show "mic_offline" (log "[ERROR] Health: microphone capture restart failed" h1))

  pub check_encoder : Bool → Bool × Monitor q → Bool × Monitor q
  unfolding show log
  check_encoder restarts (healthy, h) =
      let h1 = log "[ERROR] Health: encoder thread stopped — attempting restart" h in
      if h.encoder_runs
      then (healthy, h)
      else if restarts
      then (false, record h1 { encoder_runs = true })
      else (false, show "pipeline_error" h1)

  pub check_inference : Bool → Bool × Monitor q → Bool × Monitor q
  unfolding show log
  check_inference restarts (healthy, h) =
      let h1 = log "[ERROR] Health: inference thread stopped — attempting restart" h in
      if h.inference_runs
      then (healthy, h)
      else if restarts
      then (false, record h1 { inference_runs = true })
      else (false, show "wake_failed" h1)

  pub check_frames : ℕ → Bool × Monitor q → Bool × Monitor q
  unfolding show log
  check_frames now (healthy, h) =
      if is_silent now h.last_frame
      then (
        false,
        show "mic_offline" (log "[WARN] Health: no audio frames — microphone may be offline" h),
      )
      else (healthy, h)

  pub recover : Bool × Monitor q → Monitor q
  unfolding show
  recover (healthy, h) = if healthy then (if is_fault (health h) then show "ready" h else h) else h

  unfoldable pub perform_health_check : Bool → Restarts → ℕ → Monitor q → Monitor q
  unfolding check_socket check_capture check_encoder check_inference check_frames recover
  perform_health_check connected restarts now h = recover (
      check_frames now (
        check_inference restarts.inference (
          check_encoder restarts.encoder
            (check_capture restarts.capture (check_socket connected h)))))
