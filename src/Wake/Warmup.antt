-- ===== src/Wake/Warmup.antt =====
-- src/wake/open_wakeword_detector.cpp: the warm-up before the first frame.
use pairion_client.Base.{
  ℕ, zero, suc, ◌+◌, ◌-◌, ◌*◌, ◌/◌, ◌≤◌, ◌≡◌, refl, sym, ◌∙◌, ap, subst, inl, inr, true, false,
  some, List, ◌∷◌, arith, ltb, if◌then◌else◌, Bool-cases, length, replicate, length-append,
  length-replicate, length-right,
}
use Prim.Native.Nat.{min}
use pairion_client.Qt.{Qt}
use pairion_client.Wake.{
  Detector, Models, mel_chunk_samples, mel_context_samples, mel_frame_width, mel_rows_per_chunk,
  mel_frames_needed, mel_buffer_max_len, emb_features_needed, feature_buffer_max_len, window_size,
  append_mel, append_feature, first_output, mel_input, emb_input, classify, after_embedding, embed,
  after_mel, process_accumulated_audio, silent_chunk, warmup_loop, warmup_chunks, warmup, new,
}
use pairion_client.Wake.Sizes.{
  length-append_mel, length-append_feature, Buffers, buffers, run_classifier_keeps,
}
use pairion_client.Wake.Rows.{AreRows, append_mel-AreRows, length-emb_input}

module _ {q : Qt} (models : Models q) where
  -- Given a window of 1760 samples the mel session gives at least eight rows, and given 76 rows the
  -- embedding session gives a feature.
  pub record Answers : Type 0 where
    pub mel_first : List q.Double → q.Double
    pub mel_more : List q.Double → List q.Double
    pub gives_rows :
        (input : List q.Double)
        → length input ≡ window_size
        → (first_output (models.mel input) ≡ some (mel_first input, mel_more input))
          × (mel_rows_per_chunk * mel_frame_width ≤ suc (length (mel_more input)))
    pub feature_first : List q.Double → q.Double
    pub feature_more : List q.Double → List q.Double
    pub gives_feature :
        (input : List q.Double)
        → length input ≡ mel_frames_needed * mel_frame_width
        → first_output (models.embedding input) ≡ some (feature_first input, feature_more input)

  -- After `k` chunks.
  abbrev HasGot : ℕ → Buffers models → Type 0
  HasGot k (raw, mel, features) =
      (mel_context_samples ≤ length raw)
      × AreRows mel
      × (min mel_buffer_max_len (8 * k) ≤ length mel)
      × (min feature_buffer_max_len (k - 9) ≤ length features)

  classify-buffers :
      (now : ℕ) (d : Detector q) → buffers models (classify models now d).0 ≡ buffers models d
  unfolding classify
  classify-buffers now d = elim (Bool-cases (ltb (length d.emb_features) emb_features_needed)) [
    | inl few ↦ rw (few, if◌then◌else◌) refl
    | inr enough ↦ rw (enough, if◌then◌else◌) (run_classifier_keeps models now d)
  ]

  -- The new rows are there; a feature comes as soon as there are 76 rows.
  module _ (answers : Answers) (now : ℕ) (k : ℕ) where
    open answers use {mel_first, mel_more, gives_rows, feature_first, feature_more, gives_feature}

    embed-HasGot :
        (d : Detector q)
        → mel_context_samples ≤ length d.raw_audio_buffer
        → AreRows d.mel_buffer
        → min mel_buffer_max_len (8 * suc k) ≤ length d.mel_buffer
        → min feature_buffer_max_len (k - 9) ≤ length d.emb_features
        → HasGot (suc k) (buffers models (embed models now d).0)
    unfolding embed after_embedding append_feature
    embed-HasGot d raw full mel features =
        elim (Bool-cases (ltb (length d.mel_buffer) mel_frames_needed)) [
          | inl few ↦ rw (few, if◌then◌else◌) (raw, full, mel, no_feature _ _ few mel)
          | inr enough ↦
              let input = emb_input models d in
              let answer = gives_feature input (length-emb_input models d full ∙ asked _ enough) in
              rw (enough, if◌then◌else◌, answer)
                (subst (HasGot (suc k))
                  (sym (
                    classify-buffers now
                      (append_feature models (feature_first input ∷ feature_more input) d)))
                  (
                    raw,
                    full,
                    mel,
                    one_more _ _ features
                        (length-append_feature models (feature_first input ∷ feature_more input) d),
                  ))
        ]
      where
        no_feature :
            (m f : ℕ)
            → ltb m mel_frames_needed ≡ true
            → min mel_buffer_max_len (8 * suc k) ≤ m
            → min feature_buffer_max_len (suc k - 9) ≤ f
        no_feature m f h e = ground (arith, h, e)

        asked :
            (m : ℕ)
            → ltb m mel_frames_needed ≡ false
            → min mel_frames_needed m * mel_frame_width ≡ mel_frames_needed * mel_frame_width
        asked m h = ground (arith, h)

        one_more :
            (f f' : ℕ)
            → min feature_buffer_max_len (k - 9) ≤ f
            → f' ≡ min feature_buffer_max_len (f + 1)
            → min feature_buffer_max_len (suc k - 9) ≤ f'
        one_more f f' h e = omega arith

    chunk-HasGot :
        (d : Detector q)
        → HasGot k (buffers models d)
        → HasGot
            (suc k)
            (buffers models (process_accumulated_audio models now (silent_chunk models d)).0)
    unfolding process_accumulated_audio after_mel
    chunk-HasGot d (raw, full, mel, features) =
        let d1 = silent_chunk models d in
        let input = mel_input models d1 in
        let size =
          length-append d.raw_audio_buffer (replicate mel_chunk_samples (q.literal "0.0")) in
        let long = window_there _ raw (
          size
          ∙ ap (◌+◌ (length d.raw_audio_buffer))
              (length-replicate mel_chunk_samples (q.literal "0.0"))) in
        let (answer, many) =
          gives_rows input (length-right window_size d1.raw_audio_buffer ∙ long.1) in
        rw (long.0, if◌then◌else◌, answer)
          (embed-HasGot (append_mel models (mel_first input ∷ mel_more input) d1) (kept long.1)
            (append_mel-AreRows models (mel_first input ∷ mel_more input) d1 full)
            (more _ _ _ mel many (length-append_mel models (mel_first input ∷ mel_more input) d1))
            features)
      where
        window_there :
            (r : ℕ)
            → mel_context_samples ≤ length d.raw_audio_buffer
            → r ≡ length d.raw_audio_buffer + mel_chunk_samples
            → (ltb r window_size ≡ false) × (min window_size r ≡ window_size)
        window_there r h e = (ground (arith, h, e), ground (arith, h, e))

        kept : {r : ℕ} → min window_size r ≡ window_size → mel_context_samples ≤ r
        kept e = omega arith

        more :
            (m l m' : ℕ)
            → min mel_buffer_max_len (8 * k) ≤ m
            → mel_rows_per_chunk * mel_frame_width ≤ suc l
            → m' ≡ min mel_buffer_max_len (m + min (suc l / mel_frame_width) mel_rows_per_chunk)
            → min mel_buffer_max_len (8 * suc k) ≤ m'
        more m l m' h g e = omega arith

  loop-HasGot :
      (answers : Answers) (n now k j : ℕ) (d : Detector q)
      → j ≡ n + k
      → HasGot k (buffers models d)
      → HasGot j (buffers models (warmup_loop models n now d).0)
  unfolding warmup_loop
  loop-HasGot answers zero now k j d e h =
      let same : k ≡ j = omega arith in subst (λ i. HasGot i (buffers models d)) same h
  loop-HasGot answers (suc n) now k j d e h =
      loop-HasGot answers n now (suc k) j _ (omega arith) (chunk-HasGot answers now k d h)

  -- If the mel session gives at least eight rows for each window and the embedding session a
  -- feature, then after the warm-up of a new detector the rows suffice for an embedding and the
  -- features for the classifier.
  pub warmup-new-ready :
      Answers
      → (threshold : q.Double) (now : ℕ)
      → (mel_frames_needed ≤ length (warmup models now (new threshold)).0.mel_buffer)
        × (emb_features_needed ≤ length (warmup models now (new threshold)).0.emb_features)
  unfolding warmup
  warmup-new-ready answers threshold now =
      let (raw, full, mel, features) =
        loop-HasGot answers warmup_chunks now 0 warmup_chunks (new threshold) refl (
          omega (arith, length-replicate mel_context_samples (q.literal "0.0")),
          tt,
          omega arith,
          omega arith,
        ) in
      (omega arith, omega arith)
