-- ===== src/Wake/Rows.antt =====
-- src/wake/open_wakeword_detector.cpp: the mel rows, and the size of what the models are asked.
use pairion_client.Base.{
  length-map, ℕ, zero, suc, ◌+◌, ◌-◌, ◌*◌, ◌/◌, ◌≤◌, ◌≡◌, sym, ◌∙◌, ap, subst, inl, inr, List, [],
  ◌∷◌, ◌++◌, map, arith, ltb, if◌then◌else◌, Bool-cases, length, take, drop, right, concat,
  length-append, length-take, length-drop, length-right, length-replicate,
}
use Prim.Native.Nat.{min}
use pairion_client.Qt.{Qt}
use pairion_client.Wake.{
  Detector, Models, mel_frame_width, mel_rows_per_chunk, mel_frames_needed, mel_buffer_max_len,
  emb_features_needed, emb_feature_size, trim, rows, new_rows, mel_transform, append_mel, emb_input,
  cls_input, feature_slot,
}

rows_left :
    (l k : ℕ)
    → k ≡ l - (l / mel_frame_width - min (l / mel_frame_width) mel_rows_per_chunk) * mel_frame_width
    → min (l / mel_frame_width) mel_rows_per_chunk * mel_frame_width ≤ k
rows_left l k e = omega arith

module _ {A : Type 0} where
  -- Every row has 32 floats.
  abbrev pub AreRows : List (List A) → Type 0
  AreRows [] = Unit {0}
  AreRows (row ∷ more) = (length row ≡ mel_frame_width) × AreRows more

  drop-AreRows : (n : ℕ) (xs : List (List A)) → AreRows xs → AreRows (drop n xs)
  drop-AreRows zero xs h = h
  drop-AreRows (suc n) [] h = h
  drop-AreRows (suc n) (x ∷ xs) (e, h) = drop-AreRows n xs h

  append-AreRows : (xs ys : List (List A)) → AreRows xs → AreRows ys → AreRows (xs ++ ys)
  append-AreRows [] ys h k = k
  append-AreRows (x ∷ xs) ys (e, h) k = (e, append-AreRows xs ys h k)

  map-AreRows : (f : A → A) (xs : List (List A)) → AreRows xs → AreRows (map (map f) xs)
  map-AreRows f [] h = h
  map-AreRows f (x ∷ xs) (e, h) = (length-map f x ∙ e, map-AreRows f xs h)

  trim-AreRows : (n : ℕ) (xs : List (List A)) → AreRows xs → AreRows (trim n xs)
  trim-AreRows n [] h = h
  trim-AreRows n (x ∷ xs) (e, h) = elim (Bool-cases (ltb n (suc (length xs)))) [
    | inl long ↦ rw (long, if◌then◌else◌) (trim-AreRows n xs h)
    | inr fits ↦ rw (fits, if◌then◌else◌) (e, h)
  ]

  rows-AreRows :
      (n : ℕ) (floats : List A) → n * mel_frame_width ≤ length floats → AreRows (rows n floats)
  rows-AreRows zero floats h = tt
  rows-AreRows (suc n) floats h = (
    length-take mel_frame_width floats ∙ omega arith,
    rows-AreRows n (drop mel_frame_width floats) (
        subst (λ l. n * mel_frame_width ≤ l) (sym (length-drop mel_frame_width floats))
          (omega arith)),
  )

  new_rows-AreRows : (mel_data : List A) → AreRows (new_rows mel_data)
  new_rows-AreRows mel_data =
      let total = length mel_data / mel_frame_width in
      let count = min total mel_rows_per_chunk in
      let floats = drop ((total - count) * mel_frame_width) mel_data in
      rows-AreRows count floats (
        rows_left (length mel_data) (length floats)
          (length-drop ((total - count) * mel_frame_width) mel_data))

  length-concat_rows :
      (xs : List (List A)) → AreRows xs → length (concat xs) ≡ length xs * mel_frame_width
  length-concat_rows [] h = omega arith
  length-concat_rows (x ∷ xs) (e, h) =
      omega (arith, length-append x (concat xs), length-concat_rows xs h, e)

module _ {q : Qt} (models : Models q) where
  pub append_mel-AreRows :
      (mel_data : List q.Double) (d : Detector q)
      → AreRows d.mel_buffer
      → AreRows (append_mel models mel_data d).mel_buffer
  unfolding append_mel
  append_mel-AreRows mel_data d h =
      trim-AreRows mel_buffer_max_len
        (d.mel_buffer ++ map (map (mel_transform models)) (new_rows mel_data))
        (append-AreRows d.mel_buffer (map (map (mel_transform models)) (new_rows mel_data)) h
          (map-AreRows (mel_transform models) (new_rows mel_data) (new_rows-AreRows mel_data)))

  length-feature_slot :
      (feature : List q.Double) → length (feature_slot models feature) ≡ emb_feature_size
  length-feature_slot feature =
      let copied = min (length feature) emb_feature_size in
      length-append (take copied feature) _
      ∙ sum (length feature) _ _ (length-take copied feature)
          (length-replicate (emb_feature_size - copied) (q.literal "0.0"))
    where
      sum :
          (l a b : ℕ)
          → a ≡ min (min l emb_feature_size) l
          → b ≡ emb_feature_size - min l emb_feature_size
          → a + b ≡ emb_feature_size
      sum l a b e f = omega arith

  length-slots :
      (features : List (List q.Double))
      → length (concat (map (feature_slot models) features)) ≡ length features * emb_feature_size
  length-slots [] = omega arith
  length-slots (f ∷ fs) = omega (
    arith,
    length-append (feature_slot models f) (concat (map (feature_slot models) fs)),
    length-feature_slot f,
    length-slots fs,
  )

  pub length-emb_input :
      (d : Detector q)
      → AreRows d.mel_buffer
      → length (emb_input models d) ≡ min mel_frames_needed (length d.mel_buffer) * mel_frame_width
  length-emb_input d h =
      length-concat_rows (right mel_frames_needed d.mel_buffer)
        (drop-AreRows (length d.mel_buffer - mel_frames_needed) d.mel_buffer h)
      ∙ ap (λ n. n * mel_frame_width) (length-right mel_frames_needed d.mel_buffer)

  pub length-cls_input :
      (d : Detector q)
      → length (cls_input models d)
        ≡ min emb_features_needed (length d.emb_features) * emb_feature_size
  length-cls_input d =
      length-slots (right emb_features_needed d.emb_features)
      ∙ ap (λ n. n * emb_feature_size) (length-right emb_features_needed d.emb_features)
