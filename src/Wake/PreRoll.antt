-- ===== src/Wake/PreRoll.antt =====
-- src/wake/open_wakeword_detector.cpp: the audio that goes out with a detection.
use pairion_client.Base.{
  ℕ, ◌≡◌, refl, sym, ◌∙◌, ap, inl, inr, Option, none, some, List, [], ◌∷◌, ◌++◌, ltb, if◌then◌else◌,
  Bool-cases, length, right, right_whole, right-append_right,
}
use pairion_client.Qt.{Qt}
use pairion_client.Wake.{Detector, WakeWord, Models, pre_roll_bytes, push_pcm, process_pcm_frame}
use pairion_client.Wake.Outcome.{Outcome, frame-Outcome}

module _ {q : Qt} where
  -- Frames with the times at which they are given, and what each of them leads to.
  abbrev pub feed :
      Models q → List (ℕ × List ℕ) → Detector q → Detector q × List (Option (WakeWord q))
  feed models [] d = (d, [])
  feed models ((now, pcm) ∷ frames) d =
      let (d', word) = process_pcm_frame models now pcm d in
      let (d'', words) = feed models frames d' in (d'', word ∷ words)

  -- One result for each frame, and each detection carries the last 6400 bytes of `bytes` and all
  -- that was given up to its frame.
  abbrev pub CarriesLast : List ℕ → List (ℕ × List ℕ) → List (Option (WakeWord q)) → Type 0
  CarriesLast bytes [] [] = Unit {0}
  CarriesLast bytes [] (word ∷ words) = ⊥
  CarriesLast bytes (frame ∷ frames) [] = ⊥
  CarriesLast bytes ((now, pcm) ∷ frames) (none ∷ words) = CarriesLast (bytes ++ pcm) frames words
  CarriesLast bytes ((now, pcm) ∷ frames) (some word ∷ words) =
      (word.pre_roll_buffer ≡ right pre_roll_bytes (bytes ++ pcm))
      × CarriesLast (bytes ++ pcm) frames words

module _ {q : Qt} (models : Models q) where
  pushed_pre_roll :
      (pcm : List ℕ) (d : Detector q)
      → (push_pcm models pcm d).pre_roll_buffer ≡ right pre_roll_bytes (d.pre_roll_buffer ++ pcm)
  unfolding push_pcm
  pushed_pre_roll pcm d =
      elim (Bool-cases (ltb pre_roll_bytes (length (d.pre_roll_buffer ++ pcm)))) [
        | inl long ↦ rw (long, if◌then◌else◌) refl
        | inr fits ↦
            rw (fits, if◌then◌else◌)
              (sym (right_whole pre_roll_bytes (d.pre_roll_buffer ++ pcm) fits))
      ]

  push_pcm-right :
      (bytes pcm : List ℕ) (d : Detector q)
      → d.pre_roll_buffer ≡ right pre_roll_bytes bytes
      → (push_pcm models pcm d).pre_roll_buffer ≡ right pre_roll_bytes (bytes ++ pcm)
  push_pcm-right bytes pcm d e =
      pushed_pre_roll pcm d
      ∙ ap (λ l. right pre_roll_bytes (l ++ pcm)) e
      ∙ right-append_right pre_roll_bytes bytes pcm

  -- If the pre-roll is the last 6400 bytes of what was given before, then over any frames every
  -- detection carries the last 6400 bytes of all that was given up to and with its frame.
  pub feed-CarriesLast :
      (bytes : List ℕ) (frames : List (ℕ × List ℕ)) (d : Detector q)
      → d.pre_roll_buffer ≡ right pre_roll_bytes bytes
      → CarriesLast bytes frames (feed models frames d).1
  feed-CarriesLast bytes [] d e = tt
  feed-CarriesLast bytes ((now, pcm) ∷ frames) d e =
      by_word (process_pcm_frame models now pcm d) (frame-Outcome models now pcm d)
        (feed-CarriesLast (bytes ++ pcm) frames)
    where
      kept : (push_pcm models pcm d).pre_roll_buffer ≡ right pre_roll_bytes (bytes ++ pcm)
      kept = push_pcm-right bytes pcm d e

      by_word :
          (r : Detector q × Option (WakeWord q))
          → Outcome now (push_pcm models pcm d) r
          → ((d' : Detector q)
              → d'.pre_roll_buffer ≡ right pre_roll_bytes (bytes ++ pcm)
              → CarriesLast (bytes ++ pcm) frames (feed models frames d').1)
          → CarriesLast bytes ((now, pcm) ∷ frames) (r.1 ∷ (feed models frames r.0).1)
      by_word (d', none) (a, s, p) next = next d' (p ∙ kept)
      by_word (d', some word) (free, a, s, p, w) next = (w ∙ kept, next d' (p ∙ kept))
