-- ===== src/Health/Verdict.antt =====
-- The health that a check leaves shown.
use pairion_client.Base.{
  ℕ, ◌≡◌, refl, ◌∙◌, ap, String, Bool, true, false, not, ◌&&◌, ◌||◌, ◌∷◌, arith, str_eq,
  if◌then◌else◌, eq_iff, str_eq-cases, inl, inr,
}
use pairion_client.Qt.{Qt}
use pairion_client.ConnectionState.{append_log, set_pipeline_health}
use pairion_client.Health.{
  Monitor, Restarts, health, show, log, is_silent, is_fault, check_socket, check_capture,
  check_encoder, check_inference, check_frames, recover, perform_health_check,
}

-- What the recovery makes of a health `s`.
abbrev recovered : Bool → String → String
recovered healthy s = if healthy then (if is_fault s then "ready" else s) else s

-- The rest of a check from each part on.
abbrev from_frames : Bool → Bool → String → String
from_frames silent healthy s = if silent then "mic_offline" else recovered healthy s

abbrev from_thread : String → Bool → Bool → (Bool → String → String) → Bool → String → String
from_thread fault runs restarts rest healthy s =
    if runs then rest healthy s else if restarts then rest false s else rest false fault

abbrev from_capture : Bool → Bool → (Bool → String → String) → String → String
from_capture runs restarts rest s =
    if runs then rest true s else if restarts then rest true s else rest false "mic_offline"

abbrev after_socket : Bool → String → String
after_socket connected s =
    if connected then s else if str_eq s "ready" then "server_disconnected" else s

module _ {q : Qt} where
  health-show : (s : String) (h : Monitor q) → health (show s h) ≡ s
  unfolding show set_pipeline_health
  health-show s h = ground (arith, eq_iff (health h) s)

  health-log : (entry : String) (h : Monitor q) → health (log entry h) ≡ health h
  unfolding log append_log
  health-log entry h = refl

  health-recover :
      (healthy : Bool) (h : Monitor q)
      → health (recover (healthy, h)) ≡ recovered healthy (health h)
  unfolding recover
  health-recover false h = refl
  health-recover true h = by_fault (is_fault (health h))
    where
      by_fault :
          (b : Bool) → health (if b then show "ready" h else h) ≡ (if b then "ready" else health h)
      by_fault true = health-show "ready" h
      by_fault false = refl

  health-frames :
      (now : ℕ) (healthy : Bool) (h : Monitor q)
      → health (recover (check_frames now (healthy, h)))
        ≡ from_frames (is_silent now h.last_frame) healthy (health h)
  unfolding check_frames
  health-frames now healthy h = by_silence (is_silent now h.last_frame)
    where
      by_silence :
          (b : Bool)
          → health (
              recover (
                if b
                then (
                  false,
                  show "mic_offline"
                      (log "[WARN] Health: no audio frames — microphone may be offline" h),
                )
                else (healthy, h)))
            ≡ from_frames b healthy (health h)
      by_silence true =
          let h1 = log "[WARN] Health: no audio frames — microphone may be offline" h in
          health-recover false (show "mic_offline" h1) ∙ health-show "mic_offline" h1
      by_silence false = health-recover healthy h

  health-inference :
      (now : ℕ) (restarts healthy : Bool) (h : Monitor q)
      → health (recover (check_frames now (check_inference restarts (healthy, h))))
        ≡ from_thread "wake_failed" h.inference_runs restarts
            (from_frames (is_silent now h.last_frame))
            healthy
            (health h)
  unfolding check_inference append_log
  health-inference now restarts healthy h = by_parts h.inference_runs restarts
    where
      h1 : Monitor q
      h1 = log "[ERROR] Health: inference thread stopped — attempting restart" h

      by_parts :
          (runs r : Bool)
          → health (
              recover (
                check_frames now (
                  if runs
                  then (healthy, h)
                  else if r
                  then (false, record h1 { inference_runs = true })
                  else (false, show "wake_failed" h1))))
            ≡ from_thread "wake_failed" runs r
                (from_frames (is_silent now h.last_frame))
                healthy
                (health h)
      by_parts true r = health-frames now healthy h
      by_parts false true = health-frames now false (record h1 { inference_runs = true })
      by_parts false false =
          health-frames now false (show "wake_failed" h1)
          ∙ ap (from_frames (is_silent now h.last_frame) false) (health-show "wake_failed" h1)

  abbrev from_inference : Restarts → ℕ → Monitor q → Bool → String → String
  from_inference restarts now h =
      from_thread "wake_failed" h.inference_runs restarts.inference
        (from_frames (is_silent now h.last_frame))

  abbrev from_encoder : Restarts → ℕ → Monitor q → Bool → String → String
  from_encoder restarts now h =
      from_thread "pipeline_error" h.encoder_runs restarts.encoder (from_inference restarts now h)

  health-encoder :
      (restarts : Restarts) (now : ℕ) (healthy : Bool) (h : Monitor q)
      → health (
          recover (
            check_frames now
              (check_inference restarts.inference (check_encoder restarts.encoder (healthy, h)))))
        ≡ from_encoder restarts now h healthy (health h)
  unfolding check_encoder show log append_log
  health-encoder restarts now healthy h = by_parts h.encoder_runs restarts.encoder
    where
      h1 : Monitor q
      h1 = log "[ERROR] Health: encoder thread stopped — attempting restart" h

      rest : Bool × Monitor q → String
      rest p = health (recover (check_frames now (check_inference restarts.inference p)))

      by_parts :
          (runs r : Bool)
          → rest (
              if runs
              then (healthy, h)
              else if r
              then (false, record h1 { encoder_runs = true })
              else (false, show "pipeline_error" h1))
            ≡ from_thread "pipeline_error" runs r (from_inference restarts now h) healthy (health h)
      by_parts true r = health-inference now restarts.inference healthy h
      by_parts false true =
          health-inference now restarts.inference false (record h1 { encoder_runs = true })
      by_parts false false =
          health-inference now restarts.inference false (show "pipeline_error" h1)
          ∙ ap (from_inference restarts now h false) (health-show "pipeline_error" h1)

  health-capture :
      (restarts : Restarts) (now : ℕ) (h : Monitor q)
      → health (
          recover (
            check_frames now (
              check_inference restarts.inference
                (check_encoder restarts.encoder (check_capture restarts.capture h)))))
        ≡ from_capture h.capture_runs restarts.capture (from_encoder restarts now h) (health h)
  unfolding check_capture show log append_log
  health-capture restarts now h = by_parts h.capture_runs restarts.capture
    where
      h1 : Monitor q
      h1 = log "[WARN] Health: microphone capture stopped — attempting restart" h

      up : Monitor q
      up = log "[INFO] Health: microphone capture restarted" (record h1 { capture_runs = true })

      down : Monitor q
      down = log "[ERROR] Health: microphone capture restart failed" h1

      rest : Bool × Monitor q → String
      rest p = health (
          recover (
            check_frames now
              (check_inference restarts.inference (check_encoder restarts.encoder p))))

      by_parts :
          (runs r : Bool)
          → rest (
              if runs
              then (true, h)
              else if r
              then (true, up)
              else (false, show "mic_offline" down))
            ≡ from_capture runs r (from_encoder restarts now h) (health h)
      by_parts true r = health-encoder restarts now true h
      by_parts false true = health-encoder restarts now true up
      by_parts false false =
          health-encoder restarts now false (show "mic_offline" down)
          ∙ ap (from_encoder restarts now h false) (health-show "mic_offline" down)

  health-socket :
      (connected : Bool) (restarts : Restarts) (now : ℕ) (h : Monitor q)
      → health (perform_health_check connected restarts now h)
        ≡ from_capture h.capture_runs restarts.capture
            (from_encoder restarts now h)
            (after_socket connected (health h))
  unfolding perform_health_check check_socket show
  health-socket true restarts now h = health-capture restarts now h
  health-socket false restarts now h = by_health (str_eq (health h) "ready")
    where
      rest : Monitor q → String
      rest g = health (
          recover (
            check_frames now (
              check_inference restarts.inference
                (check_encoder restarts.encoder (check_capture restarts.capture g)))))

      by_health :
          (b : Bool)
          → rest (if b then show "server_disconnected" h else h)
            ≡ from_capture h.capture_runs restarts.capture
                (from_encoder restarts now h)
                (if b then "server_disconnected" else health h)
      by_health true =
          health-capture restarts now (show "server_disconnected" h)
          ∙ ap (from_capture h.capture_runs restarts.capture (from_encoder restarts now h))
              (health-show "server_disconnected" h)
      by_health false = health-capture restarts now h

-- What a check should leave: the gravest fault in the order of its checks from the last to the
-- first, and otherwise "ready" for each known health if both threads ran.
abbrev pub verdict : {q : Qt} → Bool → Restarts → ℕ → Monitor q → String
verdict connected restarts now h =
    if is_silent now h.last_frame
    then "mic_offline"
    else if not (h.inference_runs || restarts.inference)
    then "wake_failed"
    else if not (h.encoder_runs || restarts.encoder)
    then "pipeline_error"
    else if not (h.capture_runs || restarts.capture)
    then "mic_offline"
    else if h.encoder_runs && h.inference_runs
    then (if is_fault (health h) then "ready" else health h)
    else after_socket connected (health h)

recovers :
    (connected : Bool) (s : String)
    → (if is_fault (after_socket connected s) then "ready" else after_socket connected s)
      ≡ (if is_fault s then "ready" else s)
recovers true s = refl
recovers false s = elim (str_eq-cases s "ready") [
  | inl h ↦ rw (h) refl
  | inr h ↦ rw (h, if◌then◌else◌) refl
]

-- A check leaves "mic_offline" if no frame came for more than 5 seconds; otherwise "wake_failed" if
-- the inference thread is down and does not restart; otherwise "pipeline_error" if the encoder
-- thread is, and otherwise "mic_offline" if the capture is. With none of these faults, and both
-- threads up before the check, a known fault becomes "ready" and other healths stay; if a thread
-- had to be restarted the health stays, but "ready" becomes "server_disconnected" if the socket is
-- not connected.
pub health-eq-verdict :
    {q : Qt} (connected : Bool) (restarts : Restarts) (now : ℕ) (h : Monitor q)
    → health (perform_health_check connected restarts now h) ≡ verdict connected restarts now h
health-eq-verdict connected restarts now h =
    health-socket connected restarts now h
    ∙ ranked (is_silent now h.last_frame) h.inference_runs restarts.inference h.encoder_runs
        restarts.encoder h.capture_runs restarts.capture
  where
    s : String
    s = after_socket connected (health h)

    ranked :
        (silent inference ri encoder re capture rc : Bool)
        → from_capture capture rc
            (from_thread "pipeline_error" encoder re
              (from_thread "wake_failed" inference ri (from_frames silent)))
            s
          ≡ (if silent
              then "mic_offline"
              else if not (inference || ri)
              then "wake_failed"
              else if not (encoder || re)
              then "pipeline_error"
              else if not (capture || rc)
              then "mic_offline"
              else if encoder && inference
              then (if is_fault (health h) then "ready" else health h)
              else s)
    ranked silent inference ri encoder re capture rc = ground (arith, recovers connected (health h))

-- If the socket is not connected and every part is up and heard, a check that starts with "ready"
-- announces "server_disconnected" and then at once "ready" again, and leaves "ready" shown.
pub disconnected_shown_ready :
    {q : Qt} (restarts : Restarts) (now : ℕ) (h : Monitor q)
    → health h ≡ "ready"
    → h.capture_runs ≡ true
    → h.encoder_runs ≡ true
    → h.inference_runs ≡ true
    → is_silent now h.last_frame ≡ false
    → let checked = perform_health_check false restarts now h in
      (health checked ≡ "ready") × (checked.emitted ≡ "ready" ∷ "server_disconnected" ∷ h.emitted)
unfolding perform_health_check check_socket check_capture check_encoder check_inference check_frames
    recover show set_pipeline_health
disconnected_shown_ready restarts now h ready capture encoder inference heard =
    rw (ready, capture, encoder, inference, heard, if◌then◌else◌) (refl, refl)
