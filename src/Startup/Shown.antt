-- ===== src/Startup/Shown.antt =====
-- src/main.cpp: the pipeline health that the steps of the start show.
use pairion_client.Base.{
  ℕ, suc, ◌≡◌, refl, String, ◌||◌, none, inl, inr, List, [], ◌∷◌, ◌++◌, ap, ◌∙◌, map, arith,
  str_eq-cases, str_eq_self, if◌then◌else◌, Bool-cases, length, length-append,
}
use pairion_client.Qt.{Qt}
use pairion_client.ConnectionState.{ConnectionState, set_pipeline_health}
use pairion_client.Wake
use pairion_client.Wake.{Detector}
use pairion_client.Startup.{
  App, Machine, Pipeline, show_health, mark_last, begin_listening, start_encoder, start_inference,
  init_audio_pipeline,
}

module _ {q : Qt} where
  pub set_pipeline_health_lem :
      (health : String) (c : ConnectionState q)
      → (set_pipeline_health health c).props.pipeline_health ≡ health
  unfolding set_pipeline_health
  set_pipeline_health_lem health c = elim (str_eq-cases c.props.pipeline_health health) [
    | inl same ↦ rw (same, str_eq_self health, if◌then◌else◌) refl
    | inr other ↦ rw (other, if◌then◌else◌) refl
  ]

  abbrev pub detectors_of : List (Pipeline q) → List (Detector q)
  detectors_of pipelines = map {A = Pipeline q} {B = Detector q} (λ p. p.wake_detector) pipelines

  abbrev pub detectors : App q → List (Detector q)
  detectors a = detectors_of a.pipelines

  abbrev pub health : App q → String
  health a = a.conn_state.props.pipeline_health

module _ {q : Qt} (machine : Machine) where
  pub health-show_health : (text : String) (a : App q) → health (show_health machine text a) ≡ text
  health-show_health text a = set_pipeline_health_lem text a.conn_state

  length-mark_last :
      (pipelines : List (Pipeline q)) → length (mark_last machine pipelines) ≡ length pipelines
  length-mark_last [] = refl
  length-mark_last (p ∷ []) = refl
  length-mark_last (p ∷ (p' ∷ pipelines)) = ap suc (length-mark_last (p' ∷ pipelines))

  detectors-mark_last :
      (pipelines : List (Pipeline q))
      → detectors_of (mark_last machine pipelines) ≡ detectors_of pipelines
  detectors-mark_last [] = refl
  detectors-mark_last (p ∷ []) = refl
  detectors-mark_last (p ∷ (p' ∷ pipelines)) =
      ap (◌∷◌ p.wake_detector) (detectors-mark_last (p' ∷ pipelines))

  -- Loaded models make one detector more, a new one, and leave what a further session needs.
  pub detectors-init_audio_pipeline :
      (n : ℕ) (a : App q)
      → let r = init_audio_pipeline machine none n a in
        (detectors r ≡ detectors a ++ (Wake.new a.settings.wake_threshold ∷ []))
        × (r.settings ≡ a.settings)
        × (r.mic_permission_granted ≡ a.mic_permission_granted)
        × (r.downloader ≡ a.downloader)
  unfolding init_audio_pipeline start_inference start_encoder begin_listening
  detectors-init_audio_pipeline n a =
      elim (Bool-cases (a.inference_running || machine.inference_starts)) [
        | inl i ↦ elim (Bool-cases (a.encoder_running || machine.encoder_starts)) [
          | inl e ↦
              rw (i, e, if◌then◌else◌)
                (
                  detectors-mark_last (a.pipelines ++ (_ ∷ [])) ∙ one_more a.pipelines _,
                  refl,
                  refl,
                  refl,
                )
          | inr e ↦ rw (i, e, if◌then◌else◌) (one_more a.pipelines _, refl, refl, refl)
        ]
        | inr i ↦ rw (i, if◌then◌else◌) (one_more a.pipelines _, refl, refl, refl)
      ]
    where
      one_more :
          (l : List (Pipeline q)) (p : Pipeline q)
          → detectors_of (l ++ (p ∷ [])) ≡ detectors_of l ++ (p.wake_detector ∷ [])
      one_more [] p = refl
      one_more (x ∷ l) p = ap (◌∷◌ x.wake_detector) (one_more l p)

  -- What the health says once the models are loaded.
  abbrev pub verdict : App q → String
  verdict a =
      if a.inference_running || machine.inference_starts
      then if a.encoder_running || machine.encoder_starts then "ready" else "pipeline_error"
      else "pipeline_error"

  -- Loaded models make one pipeline more, leave the retries, and show the verdict on the threads.
  pub loaded_lem :
      (n : ℕ) (a : App q)
      → let r = init_audio_pipeline machine none n a in
        (r.retries ≡ a.retries)
        × (length r.pipelines ≡ suc (length a.pipelines))
        × (health r ≡ verdict a)
        × (r.mic_permission_granted ≡ a.mic_permission_granted)
        × (r.downloader ≡ a.downloader)
  unfolding init_audio_pipeline start_inference start_encoder begin_listening
  loaded_lem n a = elim (Bool-cases (a.inference_running || machine.inference_starts)) [
    | inl i ↦ elim (Bool-cases (a.encoder_running || machine.encoder_starts)) [
      | inl e ↦
          rw (i, e, if◌then◌else◌)
            (
              refl,
              length-mark_last (a.pipelines ++ (_ ∷ [])) ∙ one_more a.pipelines _,
              set_pipeline_health_lem "ready" _,
              refl,
              refl,
            )
      | inr e ↦
          rw (i, e, if◌then◌else◌)
            (refl, one_more a.pipelines _, set_pipeline_health_lem "pipeline_error" _, refl, refl)
    ]
    | inr i ↦
        rw (i, if◌then◌else◌)
          (refl, one_more a.pipelines _, set_pipeline_health_lem "pipeline_error" _, refl, refl)
  ]
    where
      one_more : (l : List (Pipeline q)) (p : Pipeline q) → length (l ++ (p ∷ [])) ≡ suc (length l)
      one_more l p = omega (arith, length-append l (p ∷ []))
