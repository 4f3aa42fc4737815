-- ===== src/Wake/Sizes.antt =====
-- src/wake/open_wakeword_detector.cpp: the lengths of the buffers after each stage.
use pairion_client.Base.{
  length-map, ℕ, zero, suc, ◌+◌, ◌/◌, ◌≡◌, refl, ◌∙◌, ap, inl, inr, true, false, Option, none, some,
  List, [], ◌∷◌, ◌++◌, map, arith, ltb, if◌then◌else◌, Bool-cases, length, drop, length-append,
}
use Prim.Native.Nat.{min}
use pairion_client.Qt.{Qt}
use pairion_client.Wake.{
  Detector, Models, mel_frame_width, mel_rows_per_chunk, mel_buffer_max_len, feature_buffer_max_len,
  trim, rows, new_rows, mel_transform, append_mel, append_feature, decide, after_classifier,
  run_classifier, first_output, cls_input,
}

shorter_trim : (n l : ℕ) → ltb n (suc l) ≡ true → min n l ≡ min n (suc l)
shorter_trim n l h = ground (arith, h)

module _ {A : Type 0} where
  pub length-trim : (n : ℕ) (xs : List A) → length (trim n xs) ≡ min n (length xs)
  length-trim n [] = omega arith
  length-trim n (x ∷ xs) = elim (Bool-cases (ltb n (suc (length xs)))) [
    | inl long ↦ rw (long, if◌then◌else◌) (length-trim n xs ∙ shorter_trim n (length xs) long)
    | inr fits ↦ rw (fits, if◌then◌else◌) (whole n (suc (length xs)) fits)
  ]
    where
      whole : (n l : ℕ) → ltb n l ≡ false → l ≡ min n l
      whole n l h = ground (arith, h)

  pub length-rows : (n : ℕ) (floats : List A) → length (rows n floats) ≡ n
  length-rows zero floats = refl
  length-rows (suc n) floats = ap suc (length-rows n (drop mel_frame_width floats))

module _ {q : Qt} (models : Models q) where
  pub length-append_mel :
      (mel_data : List q.Double) (d : Detector q)
      → length (append_mel models mel_data d).mel_buffer
        ≡ min mel_buffer_max_len
            (length d.mel_buffer + min (length mel_data / mel_frame_width) mel_rows_per_chunk)
  unfolding append_mel
  length-append_mel mel_data d =
      let added = map (map (mel_transform models)) (new_rows mel_data) in
      length-trim mel_buffer_max_len (d.mel_buffer ++ added)
      ∙ ap (min mel_buffer_max_len) (
          length-append d.mel_buffer added
          ∙ ap (◌+◌ (length d.mel_buffer))
              (length-map (map (mel_transform models)) (new_rows mel_data) ∙ length-rows _ _))

  pub length-append_feature :
      (feature : List q.Double) (d : Detector q)
      → length (append_feature models feature d).emb_features
        ≡ min feature_buffer_max_len (length d.emb_features + 1)
  unfolding append_feature
  length-append_feature feature d =
      length-trim feature_buffer_max_len (d.emb_features ++ (feature ∷ []))
      ∙ ap (min feature_buffer_max_len) (length-append d.emb_features (feature ∷ []))

  -- The three buffers of audio and features.
  abbrev pub Buffers : Type 0
  Buffers = List q.Double × List (List q.Double) × List (List q.Double)

  abbrev pub buffers : Detector q → Buffers
  buffers d = (d.raw_audio_buffer, d.mel_buffer, d.emb_features)

  decide_keeps :
      (now : ℕ) (score : q.Double) (d : Detector q)
      → buffers (decide models now score d).0 ≡ buffers d
  unfolding decide
  decide_keeps now score d = ground arith

  -- The classifier changes none of them.
  pub run_classifier_keeps :
      (now : ℕ) (d : Detector q) → buffers (run_classifier models now d).0 ≡ buffers d
  unfolding run_classifier
  run_classifier_keeps now d = by_output (first_output (models.classifier (cls_input models d)))
    where
      by_output :
          (o : Option (q.Double × List q.Double))
          → buffers (after_classifier models now o d).0 ≡ buffers d
      by_output none = refl
      by_output (some (score, more)) = decide_keeps now score d
