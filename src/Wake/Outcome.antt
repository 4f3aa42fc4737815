-- ===== src/Wake/Outcome.antt =====
-- What processing a chunk or a frame may do to the pre-roll and to the suppression window.
use pairion_client.Base.{
  ℕ, ◌+◌, ◌-◌, ◌≤◌, ◌≡◌, refl, ◌∙◌, ◌⊎◌, inl, inr, Bool, true, false, ◌&&◌, Option, none, some,
  List, ◌∷◌, arith, ltb, leb, if◌then◌else◌, Bool-cases, length,
}
use pairion_client.Qt.{Qt}
use pairion_client.Wake.{
  emb_features_needed, mel_frames_needed, window_size, first_output, cls_input, emb_input,
  mel_input, Detector, WakeWord, Models, suppression_ms, mel_chunk_samples, max_raw_buffer_samples,
  decide, after_classifier, run_classifier, classify, after_embedding, embed, after_mel,
  process_accumulated_audio, push_pcm, trim_raw, process_chunk, process_pcm_frame, append_mel,
  append_feature,
}

-- A detection at `now` is outside the suppression window.
abbrev pub IsFree : Bool → ℕ → ℕ → Type 0
IsFree active since now = (active ≡ false) ⊎ (since + suppression_ms ≤ now)

-- Without a detection nothing of the suppression changes; a detection is outside the window, opens
-- a new one, and carries the pre-roll.
abbrev pub Outcome : {q : Qt} → ℕ → Detector q → Detector q × Option (WakeWord q) → Type 0
Outcome now d (d', none) =
    (d'.suppression_active ≡ d.suppression_active)
    × (d'.suppression_since ≡ d.suppression_since)
    × (d'.pre_roll_buffer ≡ d.pre_roll_buffer)
Outcome now d (d', some word) =
    IsFree d.suppression_active d.suppression_since now
    × (d'.suppression_active ≡ true)
    × (d'.suppression_since ≡ now)
    × (d'.pre_roll_buffer ≡ d.pre_roll_buffer)
    × (word.pre_roll_buffer ≡ d.pre_roll_buffer)

elapsed-IsFree :
    (active : Bool) (since now : ℕ)
    → (active && ltb (now - since) suppression_ms) ≡ false
    → IsFree active since now
elapsed-IsFree false since now e = inl refl
elapsed-IsFree true since now e = inr (ground (arith, e))

module _ {q : Qt} (models : Models q) (now : ℕ) where
  decide-Outcome : (score : q.Double) (d : Detector q) → Outcome now d (decide models now score d)
  unfolding decide
  decide-Outcome score d = elim (Bool-cases (q.less score (models.to_float d.threshold))) [
    | inl low ↦ rw (low, if◌then◌else◌) (refl, refl, refl)
    | inr high ↦
        elim (Bool-cases (d.suppression_active && ltb (now - d.suppression_since) suppression_ms)) [
          | inl late ↦ rw (high, late, if◌then◌else◌) (refl, refl, refl)
          | inr open_again ↦
              rw (high, open_again, if◌then◌else◌)
                (
                  elapsed-IsFree d.suppression_active d.suppression_since now open_again,
                  refl,
                  refl,
                  refl,
                  refl,
                )
        ]
  ]

  after_classifier-Outcome :
      (o : Option (q.Double × List q.Double)) (d : Detector q)
      → Outcome now d (after_classifier models now o d)
  unfolding after_classifier
  after_classifier-Outcome none d = (refl, refl, refl)
  after_classifier-Outcome (some (score, more)) d = decide-Outcome score d

  -- A stage that is entered only with enough data.
  guard-Outcome :
      (short : Bool) (d : Detector q) (r : Detector q × Option (WakeWord q))
      → Outcome now d r
      → Outcome now d (if short then (d, none) else r)
  guard-Outcome true d r h = (refl, refl, refl)
  guard-Outcome false d r h = h

  classify-Outcome : (d : Detector q) → Outcome now d (classify models now d)
  unfolding classify run_classifier
  classify-Outcome d =
      let o = first_output (models.classifier (cls_input models d)) in
      guard-Outcome (ltb (length d.emb_features) emb_features_needed) d
        (after_classifier models now o d) (after_classifier-Outcome o d)

  after_embedding-Outcome :
      (o : Option (q.Double × List q.Double)) (d : Detector q)
      → Outcome now d (after_embedding models now o d)
  unfolding after_embedding append_feature
  after_embedding-Outcome none d = (refl, refl, refl)
  after_embedding-Outcome (some (x, xs)) d = classify-Outcome (append_feature models (x ∷ xs) d)

  embed-Outcome : (d : Detector q) → Outcome now d (embed models now d)
  unfolding embed
  embed-Outcome d =
      let o = first_output (models.embedding (emb_input models d)) in
      guard-Outcome (ltb (length d.mel_buffer) mel_frames_needed) d (after_embedding models now o d)
        (after_embedding-Outcome o d)

  after_mel-Outcome :
      (o : Option (q.Double × List q.Double)) (d : Detector q)
      → Outcome now d (after_mel models now o d)
  unfolding after_mel append_mel
  after_mel-Outcome none d = (refl, refl, refl)
  after_mel-Outcome (some (x, xs)) d = embed-Outcome (append_mel models (x ∷ xs) d)

  pub audio-Outcome : (d : Detector q) → Outcome now d (process_accumulated_audio models now d)
  unfolding process_accumulated_audio
  audio-Outcome d =
      let o = first_output (models.mel (mel_input models d)) in
      guard-Outcome (ltb (length d.raw_audio_buffer) window_size) d (after_mel models now o d)
        (after_mel-Outcome o d)

  chunk-Outcome : (d : Detector q) → Outcome now d (process_chunk models now d)
  unfolding process_chunk
  chunk-Outcome d = elim (Bool-cases (leb mel_chunk_samples d.accumulated_samples)) [
    | inl full ↦ rw (full, if◌then◌else◌) (audio-Outcome d)
    | inr short ↦ rw (short, if◌then◌else◌) (refl, refl, refl)
  ]

  trim_raw_keeps :
      (d : Detector q)
      → ((trim_raw models d).suppression_active ≡ d.suppression_active)
        × ((trim_raw models d).suppression_since ≡ d.suppression_since)
        × ((trim_raw models d).pre_roll_buffer ≡ d.pre_roll_buffer)
  unfolding trim_raw
  trim_raw_keeps d = elim (Bool-cases (ltb max_raw_buffer_samples (length d.raw_audio_buffer))) [
    | inl long ↦ rw (long, if◌then◌else◌) (refl, refl, refl)
    | inr fits ↦ rw (fits, if◌then◌else◌) (refl, refl, refl)
  ]

  trim_raw-Outcome :
      (d : Detector q) (r : Detector q × Option (WakeWord q))
      → Outcome now d r
      → Outcome now d (trim_raw models r.0, r.1)
  trim_raw-Outcome d (d', none) (active, since, pre_roll) =
      let (a, s, p) = trim_raw_keeps d' in (a ∙ active, s ∙ since, p ∙ pre_roll)
  trim_raw-Outcome d (d', some word) (free, active, since, pre_roll, carried) =
      let (a, s, p) = trim_raw_keeps d' in (free, a ∙ active, s ∙ since, p ∙ pre_roll, carried)

  pub frame-Outcome :
      (pcm : List ℕ) (d : Detector q)
      → Outcome now (push_pcm models pcm d) (process_pcm_frame models now pcm d)
  unfolding process_pcm_frame
  frame-Outcome pcm d =
      trim_raw-Outcome (push_pcm models pcm d) _ (chunk-Outcome (push_pcm models pcm d))
