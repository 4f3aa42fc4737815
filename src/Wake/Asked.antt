-- ===== src/Wake/Asked.antt =====
-- src/wake/open_wakeword_detector.cpp: the sizes of what the sessions are asked. A session of ONNX
-- Runtime throws at a tensor whose data does not fill its shape.
use pairion_client.Base.{
  ℕ, ◌*◌, ◌≡◌, refl, ◌∙◌, ap, inl, inr, Bool, true, false, Option, none, some, List, [], ◌∷◌, arith,
  ltb, leb, ◌==◌, if◌then◌else◌, Bool-cases, length, length-right,
}
use Prim.Native.Nat.{min}
use pairion_client.Qt.{Qt}
use pairion_client.Wake.{
  Detector, WakeWord, Models, mel_frame_width, mel_frames_needed, emb_features_needed,
  emb_feature_size, window_size, mel_chunk_samples, append_mel, append_feature, first_output,
  mel_input, emb_input, cls_input, classify, run_classifier, after_classifier, after_embedding,
  embed, after_mel, process_accumulated_audio, push_pcm, process_chunk, process_pcm_frame, trim_raw,
  restart_count,
}
use pairion_client.Wake.Rows.{AreRows, append_mel-AreRows, length-emb_input, length-cls_input}

-- A session that answers only if its input has the given size.
abbrev pub only : {A : Type 0} → ℕ → (List A → List (List A)) → List A → List (List A)
only size run input = if length input == size then run input else []

only-eq :
    {A : Type 0} (size : ℕ) (run : List A → List (List A)) (input : List A)
    → length input ≡ size
    → only size run input ≡ run input
only-eq size run input e =
    let same : (length input == size) ≡ true = ground (arith, e) in rw (same, if◌then◌else◌) refl

full : (n w m l : ℕ) → ltb l n ≡ false → m ≡ min n l * w → m ≡ n * w
full n w m l h e = let all : min n l ≡ n = ground (arith, h) in e ∙ ap (λ k. k * w) all

whole : (n m l : ℕ) → ltb l n ≡ false → m ≡ min n l → m ≡ n
whole n m l h e = ground (arith, h, e)

module _ {q : Qt} (models : Models q) where
  -- The sessions that refuse what has not the size of their tensor: 1760 samples, 76 rows of 32
  -- floats, 16 features of 96.
  abbrev pub strict : Models q
  strict = record models {
    mel = only window_size models.mel;
    embedding = only (mel_frames_needed * mel_frame_width) models.embedding;
    classifier = only (emb_features_needed * emb_feature_size) models.classifier;
  }

  classify-strict : (now : ℕ) (d : Detector q) → classify strict now d ≡ classify models now d
  unfolding classify run_classifier after_classifier
  classify-strict now d = elim (Bool-cases (ltb (length d.emb_features) emb_features_needed)) [
    | inl few ↦ rw (few, if◌then◌else◌) refl
    | inr enough ↦
        rw (enough, if◌then◌else◌)
          (ap (λ out. after_classifier models now (first_output out) d)
            (only-eq (emb_features_needed * emb_feature_size) models.classifier (cls_input models d)
              (full emb_features_needed emb_feature_size _ _ enough (length-cls_input models d))))
  ]

  after_embedding-strict :
      (now : ℕ) (o : Option (q.Double × List q.Double)) (d : Detector q)
      → after_embedding strict now o d ≡ after_embedding models now o d
  unfolding after_embedding append_feature
  after_embedding-strict now none d = refl
  after_embedding-strict now (some (x, xs)) d =
      classify-strict now (append_feature models (x ∷ xs) d)

  embed-strict :
      (now : ℕ) (d : Detector q) → AreRows d.mel_buffer → embed strict now d ≡ embed models now d
  unfolding embed
  embed-strict now d rows = elim (Bool-cases (ltb (length d.mel_buffer) mel_frames_needed)) [
    | inl few ↦ rw (few, if◌then◌else◌) refl
    | inr enough ↦
        rw (enough, if◌then◌else◌)
          (ap (λ out. after_embedding strict now (first_output out) d)
              (only-eq (mel_frames_needed * mel_frame_width) models.embedding (emb_input models d) (
                full mel_frames_needed mel_frame_width _ _ enough (length-emb_input models d rows)))
            ∙ after_embedding-strict now (first_output (models.embedding (emb_input models d))) d)
  ]

  after_mel-strict :
      (now : ℕ) (o : Option (q.Double × List q.Double)) (d : Detector q)
      → AreRows d.mel_buffer
      → after_mel strict now o d ≡ after_mel models now o d
  unfolding after_mel append_mel
  after_mel-strict now none d rows = refl
  after_mel-strict now (some (x, xs)) d rows =
      embed-strict now (append_mel models (x ∷ xs) d) (append_mel-AreRows models (x ∷ xs) d rows)

  audio-strict :
      (now : ℕ) (d : Detector q)
      → AreRows d.mel_buffer
      → process_accumulated_audio strict now d ≡ process_accumulated_audio models now d
  unfolding process_accumulated_audio
  audio-strict now d rows = elim (Bool-cases (ltb (length d.raw_audio_buffer) window_size)) [
    | inl few ↦ rw (few, if◌then◌else◌) refl
    | inr enough ↦
        rw (enough, if◌then◌else◌)
          (ap (λ out. after_mel strict now (first_output out) d)
              (only-eq window_size models.mel (mel_input models d)
                (whole window_size _ _ enough (length-right window_size d.raw_audio_buffer)))
            ∙ after_mel-strict now (first_output (models.mel (mel_input models d))) d rows)
  ]

  -- A frame makes every session get an input of its tensor's size only.
  pub process_pcm_frame-strict :
      (now : ℕ) (pcm : List ℕ) (d : Detector q)
      → AreRows d.mel_buffer
      → process_pcm_frame strict now pcm d ≡ process_pcm_frame models now pcm d
  unfolding process_pcm_frame process_chunk push_pcm trim_raw
  process_pcm_frame-strict now pcm d rows =
      let d' = push_pcm models pcm d in
      ap {A = Detector q × Option (WakeWord q)} (λ r. (trim_raw models r.0, r.1))
        (chunk (leb mel_chunk_samples d'.accumulated_samples) d' (audio-strict now d' rows))
    where
      chunk :
          (b : Bool) (d' : Detector q)
          → process_accumulated_audio strict now d' ≡ process_accumulated_audio models now d'
          → (if b
              then restart_count strict (process_accumulated_audio strict now d')
              else (d', none))
            ≡ (if b
                then restart_count models (process_accumulated_audio models now d')
                else (d', none))
      chunk true d' e = ap (restart_count models) e
      chunk false d' e = refl
