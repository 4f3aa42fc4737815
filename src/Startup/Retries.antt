-- ===== src/Startup/Retries.antt =====
-- src/main.cpp: the retries of the load of the models.
use pairion_client.Base.{
  ℕ, zero, suc, ◌≡◌, refl, sym, ◌∙◌, ap, subst, String, Bool, true, false, ◌||◌, Option, none, some,
  [], ◌∷◌, ◌++◌, if◌then◌else◌, length,
}
use pairion_client.Qt.{Qt}
use pairion_client.Startup.{App, Machine, load_failed, init_audio_pipeline, fire, on_retry}
use pairion_client.Startup.Shown.{health, set_pipeline_health_lem, verdict, loaded_lem}

-- What each attempt throws, if anything, by the retries that remain at it.
abbrev pub Loads : Type 0
Loads = ℕ → Option String

abbrev is_loaded : Option String → Bool
is_loaded none = true
is_loaded (some error) = false

-- One of the attempts, down to the last one, loads the models.
abbrev pub loads : Loads → ℕ → Bool
loads errors zero = is_loaded (errors zero)
loads errors (suc n) = is_loaded (errors (suc n)) || loads errors n

module _ {q : Qt} (machine : Machine) where
  -- The single shots fire one after the other, as often as there are retries.
  abbrev pub retry_all : Loads → ℕ → App q → App q
  retry_all errors zero a = a
  retry_all errors (suc n) a = retry_all errors n (on_retry machine (errors n) a)

  -- Without a single shot that is due nothing fires.
  on_retry_idle :
      (error : Option String) (a : App q) → a.retries ≡ [] → on_retry machine error a ≡ a
  unfolding on_retry fire
  on_retry_idle error a e = rw e refl

  on_retry_due :
      (error : Option String) (n : ℕ) (a : App q)
      → a.retries ≡ n ∷ []
      → init_audio_pipeline machine error n (record a { retries = [] }) ≡ on_retry machine error a
  unfolding on_retry fire
  on_retry_due error n a e = rw e refl

  retry_all_idle : (errors : Loads) (n : ℕ) (a : App q) → a.retries ≡ [] → retry_all errors n a ≡ a
  retry_all_idle errors zero a e = refl
  retry_all_idle errors (suc n) a e =
      ap (retry_all errors n) (on_retry_idle (errors n) a e) ∙ retry_all_idle errors n a e

  health-load_failed :
      (error : String) (a : App q) → health (load_failed machine zero error a) ≡ "models_failed"
  unfolding load_failed
  health-load_failed error a = set_pipeline_health_lem "models_failed" _

  -- The outcome of an attempt and its retries, against the state before.
  abbrev Settled : Bool → App q → App q → Type 0
  Settled loaded a r =
      (r.retries ≡ [])
      × (length r.pipelines ≡ (if loaded then suc (length a.pipelines) else length a.pipelines))
      × (health r ≡ (if loaded then verdict machine a else "models_failed"))

  settle :
      (errors : Loads) (n : ℕ) (a : App q)
      → a.retries ≡ []
      → Settled (loads errors n) a (retry_all errors n (init_audio_pipeline machine (errors n) n a))
  unfolding init_audio_pipeline load_failed on_retry fire
  settle errors zero a none_due = by_load (errors zero)
    where
      by_load : (o : Option String) → Settled (is_loaded o) a (init_audio_pipeline machine o 0 a)
      by_load none =
          let (retries, more, shown, mic, same) = loaded_lem machine 0 a in
          (retries ∙ none_due, more, shown)
      by_load (some error) = (none_due, refl, health-load_failed error a)
  settle errors (suc n) a none_due = by_load (errors (suc n)) (settle errors n)
    where
      by_load :
          (o : Option String)
          → ((a' : App q)
              → a'.retries ≡ []
              → Settled
                  (loads errors n)
                  a'
                  (retry_all errors n (init_audio_pipeline machine (errors n) n a')))
          → Settled
              (is_loaded o || loads errors n)
              a
              (retry_all errors (suc n) (init_audio_pipeline machine o (suc n) a))
      by_load none next =
          let (retries, more, shown, mic, same) = loaded_lem machine (suc n) a in
          subst (Settled true a)
            (sym (
              retry_all_idle errors (suc n) (init_audio_pipeline machine none (suc n) a)
                (retries ∙ none_due)))
            (retries ∙ none_due, more, shown)
      by_load (some error) next =
          let due = ap (λ l. l ++ (n ∷ [])) none_due in
          let b = init_audio_pipeline machine (some error) (suc n) a in
          subst (λ r. Settled (loads errors n) a (retry_all errors n r))
            (on_retry_due (errors n) n b due) (next (record b { retries = [] }) refl)

  -- From a state in which no retry is due: after the first attempt and one firing for each of its
  -- three retries no retry is due any more. If one of the four attempts loads the models, one
  -- pipeline was made and the health is "ready" if both threads run and "pipeline_error" if not; if
  -- none does, no pipeline was made and the health is "models_failed".
  pub init_audio_pipeline_settles :
      (errors : Loads) (a : App q)
      → a.retries ≡ []
      → let r = retry_all errors 3 (init_audio_pipeline machine (errors 3) 3 a) in
        (r.retries ≡ [])
        × (length r.pipelines
            ≡ (if loads errors 3 then suc (length a.pipelines) else length a.pipelines))
        × (health r ≡ (if loads errors 3 then verdict machine a else "models_failed"))
  init_audio_pipeline_settles errors a none_due = settle errors 3 a none_due
