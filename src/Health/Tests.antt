-- ===== src/Health/Tests.antt =====
-- The health monitor at concrete inputs.
use pairion_client.Base.{◌≡◌, refl, true, false, [], ◌∷◌, some}
use pairion_client.Qt.Toy.{toy}
use pairion_client.ConnectionState
use pairion_client.ConnectionState.{set_pipeline_health}
use pairion_client.Health.{Monitor, Restarts, health, perform_health_check}
use pairion_client.Health.Verdict.{health-eq-verdict, disconnected_shown_ready}

abbrev monitor : Monitor toy
monitor = record {
  conn_state = set_pipeline_health "ready" (ConnectionState.new toy);
  capture_runs = true;
  encoder_runs = true;
  inference_runs = true;
  last_frame = some 1000;
  emitted = [];
}

abbrev encoder_fails : Restarts
encoder_fails = record { capture = true; encoder = false; inference = true }

health-eq-verdict_example :
    health (perform_health_check true encoder_fails 2000 (record monitor { encoder_runs = false }))
    ≡ "pipeline_error"
health-eq-verdict_example =
    health-eq-verdict true encoder_fails 2000 (record monitor { encoder_runs = false })

disconnected_shown_ready_example :
    let checked = perform_health_check false encoder_fails 2000 monitor in
    (health checked ≡ "ready") × (checked.emitted ≡ "ready" ∷ "server_disconnected" ∷ [])
unfolding set_pipeline_health
disconnected_shown_ready_example =
    disconnected_shown_ready encoder_fails 2000 monitor refl refl refl refl refl
