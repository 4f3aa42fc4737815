-- ===== src/Startup/Sessions.antt =====
-- src/main.cpp: the sessions that are opened, each of which checks the models.
use pairion_client.Base.{
  length-map, length-replicate, replicate, map, ℕ, zero, suc, ◌+◌, ◌≡◌, refl, sym, ◌∙◌, ap, subst,
  String, Bool, true, false, ◌&&◌, Option, none, some, List, [], ◌∷◌, ◌++◌, arith, if◌then◌else◌,
  length,
}
use pairion_client.Qt.{Qt}
use pairion_client.ModelDownloader.{
  DownloadSignal, all_models_ready, Downloader, sort_cached, check_and_download,
}
use pairion_client.Wake
use pairion_client.Wake.{Detector, Models, WakeWord}
use pairion_client.Wake.PreRoll.{feed}
use pairion_client.Startup.{
  App, Machine, Pipeline, on_session_opened, react, on_all_models_ready, try_start_pipeline,
  init_audio_pipeline, load_failed, on_audio_frame, show_health,
}
use pairion_client.Startup.Shown.{detectors, detectors_of, detectors-init_audio_pipeline}

check_and_download_cached :
    (machine : Machine) (d : Downloader)
    → (sort_cached machine.sha256_hex machine.writable d.files machine.manifest).1 ≡ []
    → let r =
        check_and_download machine.sha256_hex machine.writable machine.manifest
          (record d { emitted = [] }) in
      (r.emitted ≡ all_models_ready ∷ []) × (r.files ≡ d.files)
unfolding check_and_download
check_and_download_cached machine d cached = rw (cached, if◌then◌else◌) (refl, refl)

-- The sessions in which the models loaded.
abbrev pub loaded : List (Option String) → ℕ
loaded [] = 0
loaded (none ∷ errors) = suc (loaded errors)
loaded (some error ∷ errors) = loaded errors

module _ {A : Type 0} where
  replicate-append_one : (n : ℕ) (x : A) → replicate n x ++ (x ∷ []) ≡ replicate (suc n) x
  replicate-append_one zero x = refl
  replicate-append_one (suc n) x = ap (◌∷◌ x) (replicate-append_one n x)

  map-replicate :
      {B : Type 0} (f : A → B) (n : ℕ) (x : A) → map f (replicate n x) ≡ replicate n (f x)
  map-replicate f zero x = refl
  map-replicate f (suc n) x = ap (◌∷◌ (f x)) (map-replicate f n x)

module _ {q : Qt} (machine : Machine) where
  -- Every model of the manifest is in the cache and verified.
  abbrev pub IsCached : App q → Type 0
  IsCached a =
      (sort_cached machine.sha256_hex machine.writable a.downloader.files machine.manifest).1 ≡ []

  -- A load that works makes one new detector more, and nothing that a further session needs has
  -- changed.
  abbrev grown : Option String → App q → List (Detector q)
  grown none a = detectors a ++ (Wake.new a.settings.wake_threshold ∷ [])
  grown (some error) a = detectors a

  abbrev IsFollowedBy : Option String → App q → App q → Type 0
  IsFollowedBy error a r =
      (detectors r ≡ grown error a)
      × (r.settings ≡ a.settings)
      × (r.mic_permission_granted ≡ true)
      × (r.downloader.files ≡ a.downloader.files)

  load-IsFollowedBy :
      (error : Option String) (a : App q)
      → a.mic_permission_granted ≡ true
      → IsFollowedBy error a (init_audio_pipeline machine error 3 a)
  unfolding init_audio_pipeline load_failed
  load-IsFollowedBy none a granted =
      let (more, settings, mic, same) = detectors-init_audio_pipeline machine 3 a in
      (more, settings, mic ∙ granted, ap (λ d. d.files) same)
  load-IsFollowedBy (some error) a granted = (refl, refl, granted, refl)

  ready-IsFollowedBy :
      (error : Option String) (a : App q)
      → a.mic_permission_granted ≡ true
      → IsFollowedBy error a (on_all_models_ready machine error a)
  unfolding on_all_models_ready try_start_pipeline
  ready-IsFollowedBy error a granted =
      let a' : App q = show_health machine "initializing" (record a { models_ready = true }) in
      started a' (a'.mic_permission_granted && true) (ap (λ g. g && true) granted)
        (moved error (init_audio_pipeline machine error 3 a') (load-IsFollowedBy error a' granted))
    where
      moved :
          (error : Option String) (r : App q)
          → IsFollowedBy error
              (show_health machine "initializing" (record a { models_ready = true }))
              r
          → IsFollowedBy error a r
      moved none r h = h
      moved (some e) r h = h

      started :
          (a' : App q) (b : Bool)
          → b ≡ true
          → IsFollowedBy error a (init_audio_pipeline machine error 3 a')
          → IsFollowedBy error a (if b then init_audio_pipeline machine error 3 a' else a')
      started a' true e h = h
      started a' false e h = absurd (ground (arith, e))

  react_ready :
      (error : Option String) (signals : List DownloadSignal) (a : App q)
      → signals ≡ all_models_ready ∷ []
      → react machine error signals a ≡ on_all_models_ready machine error a
  unfolding react
  react_ready error signals a e = ap (λ l. react machine error l a) e

  session-IsFollowedBy :
      (error : Option String) (a : App q)
      → IsCached a
      → a.mic_permission_granted ≡ true
      → IsFollowedBy error a (on_session_opened machine error a)
  unfolding on_session_opened
  session-IsFollowedBy error a cached granted =
      let d =
        check_and_download machine.sha256_hex machine.writable machine.manifest
          (record a.downloader { emitted = [] }) in
      let b : App q = record (show_health machine "models_loading" a) { downloader = d } in
      let (told, kept) = check_and_download_cached machine a.downloader cached in
      let r = on_all_models_ready machine error b in
      let (more, settings, mic, same) = ready-IsFollowedBy error b granted in
      subst (IsFollowedBy error a) (sym (react_ready error d.emitted b told))
        (more ∙ moved error, settings, mic, same ∙ kept)
    where
      moved :
          (error : Option String)
          → grown error (record (show_health machine "models_loading" a) {
            downloader =
                check_and_download machine.sha256_hex machine.writable machine.manifest
                  (record a.downloader { emitted = [] });
          })
            ≡ grown error a
      moved none = refl
      moved (some e) = refl

  -- Sessions are opened one after the other, each with what its load of the models throws, if
  -- anything; the retries of a load that failed have not fired.
  abbrev pub open_sessions : List (Option String) → App q → App q
  open_sessions [] a = a
  open_sessions (error ∷ errors) a = open_sessions errors (on_session_opened machine error a)

  -- What the detectors say to each of the frames.
  abbrev pub heard : Models q → List (ℕ × List ℕ) → App q → List (List (Option (WakeWord q)))
  heard models [] a = []
  heard models ((now, pcm) ∷ frames) a =
      let (a', words) = on_audio_frame machine models now pcm a in words ∷ heard models frames a'

  -- Equal detectors all say the same, and stay equal.
  frame_lem :
      (models : Models q) (now : ℕ) (pcm : List ℕ) (n : ℕ) (d : Detector q)
      (pipelines : List (Pipeline q))
      → detectors_of pipelines ≡ replicate n d
      → let r = Wake.process_pcm_frame models now pcm d in
        (map {A = Pipeline q}
            (λ p. (Wake.process_pcm_frame models now pcm p.wake_detector).1)
            pipelines
          ≡ replicate n r.1)
        × (detectors_of (
              map {A = Pipeline q} {B = Pipeline q}
                (λ p. record p {
                  wake_detector = (Wake.process_pcm_frame models now pcm p.wake_detector).0;
                })
                pipelines)
            ≡ replicate n r.0)
  frame_lem models now pcm n d pipelines e =
      let said = λ (x : Detector q). (Wake.process_pcm_frame models now pcm x).1 in
      let kept = λ (x : Detector q). (Wake.process_pcm_frame models now pcm x).0 in
      (
        words pipelines ∙ ap (map said) e ∙ map-replicate said n d,
        after pipelines ∙ ap (map kept) e ∙ map-replicate kept n d,
      )
    where
      words :
          (l : List (Pipeline q))
          → map {A = Pipeline q} (λ p. (Wake.process_pcm_frame models now pcm p.wake_detector).1) l
            ≡ map {A = Detector q}
                (λ x. (Wake.process_pcm_frame models now pcm x).1)
                (detectors_of l)
      words [] = refl
      words (p ∷ l) =
          ap (λ rest. (Wake.process_pcm_frame models now pcm p.wake_detector).1 ∷ rest) (words l)

      after :
          (l : List (Pipeline q))
          → detectors_of (
              map {A = Pipeline q} {B = Pipeline q}
                (λ p. record p {
                  wake_detector = (Wake.process_pcm_frame models now pcm p.wake_detector).0;
                })
                l)
            ≡ map {A = Detector q} {B = Detector q}
                (λ x. (Wake.process_pcm_frame models now pcm x).0)
                (detectors_of l)
      after [] = refl
      after (p ∷ l) =
          ap (λ rest. (Wake.process_pcm_frame models now pcm p.wake_detector).0 ∷ rest) (after l)

  heard-feed :
      (models : Models q) (frames : List (ℕ × List ℕ)) (n : ℕ) (d : Detector q) (a : App q)
      → detectors a ≡ replicate n d
      → heard models frames a ≡ map (replicate n) (feed models frames d).1
  unfolding on_audio_frame
  heard-feed models [] n d a e = refl
  heard-feed models ((now, pcm) ∷ frames) n d a e =
      let (words, same) = frame_lem models now pcm n d a.pipelines e in
      ap (λ w. w ∷ heard models frames (on_audio_frame machine models now pcm a).0) words
      ∙ ap (λ rest. replicate n (Wake.process_pcm_frame models now pcm d).1 ∷ rest)
          (heard-feed models frames n (Wake.process_pcm_frame models now pcm d).0
            (on_audio_frame machine models now pcm a).0 same)

  detectors-open_sessions :
      (errors : List (Option String)) (k : ℕ) (threshold : q.Double) (a : App q)
      → a.settings.wake_threshold ≡ threshold
      → detectors a ≡ replicate k (Wake.new threshold)
      → IsCached a
      → a.mic_permission_granted ≡ true
      → detectors (open_sessions errors a) ≡ replicate (loaded errors + k) (Wake.new threshold)
  detectors-open_sessions [] k threshold a t e cached granted =
      let none_more : k ≡ 0 + k = omega arith in
      e ∙ ap (λ n. replicate n (Wake.new threshold)) none_more
  detectors-open_sessions (error ∷ errors) k threshold a t e cached granted =
      let (more, settings, mic, same) = session-IsFollowedBy error a cached granted in
      let still =
        ap (λ f. (sort_cached machine.sha256_hex machine.writable f machine.manifest).1) same
        ∙ cached in
      by_error error more (λ j h.
        detectors-open_sessions errors j threshold (on_session_opened machine error a)
          (ap (λ s. s.wake_threshold) settings ∙ t) h still mic)
    where
      sum : (n : ℕ) → n + suc k ≡ suc n + k
      sum n = omega arith

      by_error :
          (o : Option String) {r l : List (Detector q)}
          → r ≡ grown o a
          → ((j : ℕ)
              → r ≡ replicate j (Wake.new threshold)
              → l ≡ replicate (loaded errors + j) (Wake.new threshold))
          → l ≡ replicate (loaded (o ∷ errors) + k) (Wake.new threshold)
      by_error (some error) more rest = rest k (more ∙ e)
      by_error none more rest =
          rest (suc k) (
            more
            ∙ ap (λ x. detectors a ++ (Wake.new x ∷ [])) t
            ∙ ap (λ l. l ++ (Wake.new threshold ∷ [])) e
            ∙ replicate-append_one k (Wake.new threshold))
          ∙ ap (λ n. replicate n (Wake.new threshold)) (sum (loaded errors))

  -- If the microphone is permitted, all models are cached and there is no pipeline yet: after any
  -- sessions, opened one after the other as the client reconnects, there is a pipeline for each
  -- session in which the models loaded, and over any frames of the microphone the detectors of all
  -- of them say just what one new detector would say: each detection comes once from every one of
  -- them. The retries of failed loads have not fired, and the warm-up is left out.
  pub heard-open_sessions :
      (errors : List (Option String)) (a : App q) (models : Models q) (frames : List (ℕ × List ℕ))
      → a.pipelines ≡ []
      → IsCached a
      → a.mic_permission_granted ≡ true
      → let r = open_sessions errors a in
        (length r.pipelines ≡ loaded errors)
        × (heard models frames r
            ≡ map
                (replicate (loaded errors))
                (feed models frames (Wake.new a.settings.wake_threshold)).1)
  heard-open_sessions errors a models frames none_yet cached granted =
      let r = open_sessions errors a in
      let threshold = a.settings.wake_threshold in
      let same =
        detectors-open_sessions errors 0 threshold a refl (ap detectors_of none_yet) cached granted
        ∙ ap (λ n. replicate n (Wake.new threshold)) (zero_more (loaded errors)) in
      (
        sym (length-map (λ p. p.wake_detector) r.pipelines)
            ∙ ap length same
            ∙ length-replicate (loaded errors) (Wake.new threshold),
        heard-feed models frames (loaded errors) (Wake.new threshold) r same,
      )
    where
      zero_more : (n : ℕ) → n + 0 ≡ n
      zero_more n = omega arith
