-- ===== src/Wake/Suppression.antt =====
-- src/wake/open_wakeword_detector.cpp: the suppression window over many frames.
use pairion_client.Base.{ℕ, ◌≡◌, ◌∙◌, refl, subst, true, Bool, Option, none, some, List, [], ◌∷◌}
use pairion_client.Qt.{Qt}
use pairion_client.Wake.{Detector, WakeWord, Models, push_pcm, process_pcm_frame}
use pairion_client.Wake.Outcome.{IsFree, Outcome, frame-Outcome}
use pairion_client.Wake.PreRoll.{feed}

-- The times of the frames that led to a detection.
abbrev pub detection_times : {q : Qt} → List (ℕ × List ℕ) → List (Option (WakeWord q)) → List ℕ
detection_times [] words = []
detection_times (frame ∷ frames) [] = []
detection_times ((now, pcm) ∷ frames) (none ∷ words) = detection_times frames words
detection_times ((now, pcm) ∷ frames) (some word ∷ words) = now ∷ detection_times frames words

-- Each time is at least 500 ms after the one before, the first one after `since` if the window is
-- active.
abbrev pub IsSpaced : Bool → ℕ → List ℕ → Type 0
IsSpaced active since [] = Unit {0}
IsSpaced active since (time ∷ times) = IsFree active since time × IsSpaced true time times

module _ {q : Qt} (models : Models q) where
  pushed_window :
      (pcm : List ℕ) (d : Detector q)
      → ((push_pcm models pcm d).suppression_active ≡ d.suppression_active)
        × ((push_pcm models pcm d).suppression_since ≡ d.suppression_since)
  unfolding push_pcm
  pushed_window pcm d = (refl, refl)

  -- Over any frames at any times, whatever the models answer, two detections in a row are at
  -- least 500 ms apart, and so is the first one from the start of a window that is active.
  pub feed-IsSpaced :
      (frames : List (ℕ × List ℕ)) (d : Detector q)
      → IsSpaced d.suppression_active d.suppression_since
          (detection_times frames (feed models frames d).1)
  unfolding push_pcm
  feed-IsSpaced [] d = tt
  feed-IsSpaced ((now, pcm) ∷ frames) d =
      by_word (process_pcm_frame models now pcm d) (frame-Outcome models now pcm d)
        (feed-IsSpaced frames)
    where
      by_word :
          (r : Detector q × Option (WakeWord q))
          → Outcome now (push_pcm models pcm d) r
          → ((d' : Detector q)
              → IsSpaced d'.suppression_active d'.suppression_since
                  (detection_times frames (feed models frames d').1))
          → IsSpaced d.suppression_active d.suppression_since
              (detection_times ((now, pcm) ∷ frames) (r.1 ∷ (feed models frames r.0).1))
      by_word (d', none) (a, s, p) next =
          subst
            (λ since.
              IsSpaced d.suppression_active since
                (detection_times frames (feed models frames d').1))
            (s ∙ (pushed_window pcm d).1)
            (subst
              (λ active.
                IsSpaced active d'.suppression_since
                  (detection_times frames (feed models frames d').1))
              (a ∙ (pushed_window pcm d).0) (next d'))
      by_word (d', some word) (free, a, s, p, w) next = (
        free,
        subst (λ since. IsSpaced true since (detection_times frames (feed models frames d').1)) s
            (subst
              (λ active.
                IsSpaced active d'.suppression_since
                  (detection_times frames (feed models frames d').1))
              a (next d')),
      )
