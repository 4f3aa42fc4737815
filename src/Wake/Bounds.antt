-- ===== src/Wake/Bounds.antt =====
-- src/wake/open_wakeword_detector.cpp: the sizes of the buffers.
use pairion_client.Base.{
  ℕ, ◌-◌, ◌≤◌, ◌≡◌, sym, subst, inl, inr, Bool, true, false, Option, none, some, List, ◌∷◌, arith,
  ltb, leb, if◌then◌else◌, Bool-cases, length, length-drop,
}
use Prim.Native.Nat.{min}
use pairion_client.Qt.{Qt}
use pairion_client.Wake.{
  Detector, WakeWord, Models, mel_frames_needed, mel_buffer_max_len, emb_features_needed,
  feature_buffer_max_len, max_raw_buffer_samples, window_size, mel_chunk_samples, append_mel,
  append_feature, first_output, mel_input, emb_input, classify, after_embedding, embed, after_mel,
  process_accumulated_audio, push_pcm, trim_raw, process_chunk, process_pcm_frame, run_classifier,
}
use pairion_client.Wake.Sizes.{
  length-append_mel, length-append_feature, Buffers, buffers, run_classifier_keeps,
}
use pairion_client.Wake.Rows.{AreRows, append_mel-AreRows}
use pairion_client.Wake.Asked.{strict, process_pcm_frame-strict}

at_most : (n m l : ℕ) → l ≡ min n m → l ≤ n
at_most n m l e = omega arith

module _ {q : Qt} (models : Models q) where
  -- What holds of the buffers and is kept by new rows and features is kept by a chunk.
  module _ (P : Buffers models → Type 0)
      (new_mel : (mel_data : List q.Double) (d : Detector q)
        → P (buffers models d)
        → P (buffers models (append_mel models mel_data d)))
      (new_feature : (feature : List q.Double) (d : Detector q)
        → P (buffers models d)
        → P (buffers models (append_feature models feature d)))
      (now : ℕ) where
    guard_keeps :
        (short : Bool) (d : Detector q) (r : Detector q × Option (WakeWord q))
        → P (buffers models d)
        → P (buffers models r.0)
        → P (buffers models (if short then (d, none) else r).0)
    guard_keeps true d r h k = h
    guard_keeps false d r h k = k

    classify_keeps :
        (d : Detector q) → P (buffers models d) → P (buffers models (classify models now d).0)
    unfolding classify
    classify_keeps d h =
        guard_keeps (ltb (length d.emb_features) emb_features_needed) d
          (run_classifier models now d) h (subst P (sym (run_classifier_keeps models now d)) h)

    after_embedding_keeps :
        (o : Option (q.Double × List q.Double)) (d : Detector q)
        → P (buffers models d)
        → P (buffers models (after_embedding models now o d).0)
    unfolding after_embedding
    after_embedding_keeps none d h = h
    after_embedding_keeps (some (x, xs)) d h = classify_keeps _ (new_feature (x ∷ xs) d h)

    embed_keeps :
        (d : Detector q) → P (buffers models d) → P (buffers models (embed models now d).0)
    unfolding embed
    embed_keeps d h =
        let o = first_output (models.embedding (emb_input models d)) in
        guard_keeps (ltb (length d.mel_buffer) mel_frames_needed) d (after_embedding models now o d)
          h (after_embedding_keeps o d h)

    after_mel_keeps :
        (o : Option (q.Double × List q.Double)) (d : Detector q)
        → P (buffers models d)
        → P (buffers models (after_mel models now o d).0)
    unfolding after_mel
    after_mel_keeps none d h = h
    after_mel_keeps (some (x, xs)) d h = embed_keeps _ (new_mel (x ∷ xs) d h)

    pub audio_keeps :
        (d : Detector q)
        → P (buffers models d)
        → P (buffers models (process_accumulated_audio models now d).0)
    unfolding process_accumulated_audio
    audio_keeps d h =
        let o = first_output (models.mel (mel_input models d)) in
        guard_keeps (ltb (length d.raw_audio_buffer) window_size) d (after_mel models now o d) h
          (after_mel_keeps o d h)

  -- Full rows and at most 200 of them, and at most 120 features.
  abbrev pub IsBounded : Buffers models → Type 0
  IsBounded (raw, mel, features) =
      AreRows mel × (length mel ≤ mel_buffer_max_len) × (length features ≤ feature_buffer_max_len)

  append_mel-IsBounded :
      (mel_data : List q.Double) (d : Detector q)
      → IsBounded (buffers models d)
      → IsBounded (buffers models (append_mel models mel_data d))
  unfolding append_mel
  append_mel-IsBounded mel_data d (full, few, features) = (
    append_mel-AreRows models mel_data d full,
    at_most mel_buffer_max_len _ _ (length-append_mel models mel_data d),
    features,
  )

  append_feature-IsBounded :
      (feature : List q.Double) (d : Detector q)
      → IsBounded (buffers models d)
      → IsBounded (buffers models (append_feature models feature d))
  unfolding append_feature
  append_feature-IsBounded feature d (full, few, features) =
      (full, few, at_most feature_buffer_max_len _ _ (length-append_feature models feature d))

  restart_count-IsBounded :
      (now : ℕ) (d : Detector q)
      → IsBounded (buffers models d)
      → IsBounded (buffers models (process_chunk models now d).0)
  unfolding process_chunk
  restart_count-IsBounded now d h =
      elim (Bool-cases (leb mel_chunk_samples d.accumulated_samples)) [
        | inl full ↦
            rw (full, if◌then◌else◌)
              (audio_keeps IsBounded append_mel-IsBounded append_feature-IsBounded now d h)
        | inr short ↦ rw (short, if◌then◌else◌) h
      ]

  trim_raw-IsBounded :
      (d : Detector q)
      → IsBounded (buffers models d)
      → (length (trim_raw models d).raw_audio_buffer ≤ max_raw_buffer_samples)
        × IsBounded (buffers models (trim_raw models d))
  unfolding trim_raw
  trim_raw-IsBounded d h =
      elim (Bool-cases (ltb max_raw_buffer_samples (length d.raw_audio_buffer))) [
        | inl long ↦
            rw (long, if◌then◌else◌)
              (
                cut _ _ (
                    length-drop (length d.raw_audio_buffer - max_raw_buffer_samples)
                      d.raw_audio_buffer),
                h,
              )
        | inr fits ↦ rw (fits, if◌then◌else◌) (whole (length d.raw_audio_buffer) fits, h)
      ]
    where
      cut : (l k : ℕ) → k ≡ l - (l - max_raw_buffer_samples) → k ≤ max_raw_buffer_samples
      cut l k e = omega arith

      whole : (l : ℕ) → ltb max_raw_buffer_samples l ≡ false → l ≤ max_raw_buffer_samples
      whole l h = ground (arith, h)

  -- A frame leaves at most 32000 samples, 200 mel rows, each of 32 floats, and 120 features, if the
  -- rows and features were so before it; and each session that it runs is given just the size of
  -- its tensor, 1760, 76 * 32 or 16 * 96 floats: with sessions that give no output for any other
  -- size, the detector after the frame and the detection are the same.
  pub process_pcm_frame-IsBounded :
      (now : ℕ) (pcm : List ℕ) (d : Detector q)
      → IsBounded (buffers models d)
      → IsBounded (buffers models (process_pcm_frame models now pcm d).0)
        × (length (process_pcm_frame models now pcm d).0.raw_audio_buffer ≤ max_raw_buffer_samples)
        × (process_pcm_frame (strict models) now pcm d ≡ process_pcm_frame models now pcm d)
  unfolding process_pcm_frame push_pcm
  process_pcm_frame-IsBounded now pcm d h =
      let d1 = (process_chunk models now (push_pcm models pcm d)).0 in
      let (short, bounded) =
        trim_raw-IsBounded d1 (restart_count-IsBounded now (push_pcm models pcm d) h) in
      (bounded, short, process_pcm_frame-strict models now pcm d h.0)
