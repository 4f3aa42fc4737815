-- ===== src/Wake/Tests.antt =====
-- The wake word detector at concrete inputs.
use pairion_client.Base.{
  ℕ, zero, suc, ◌≤◌, ◌≡◌, refl, false, List, [], ◌∷◌, none, some, length, replicate, arith,
  length-replicate,
}
use pairion_client.Qt.Toy.{toy}
use pairion_client.Wake.{
  Detector, Models, max_raw_buffer_samples, mel_frames_needed, emb_features_needed,
  process_pcm_frame, warmup, new, decide,
}
use pairion_client.Wake.Sizes.{buffers}
use pairion_client.Wake.PreRoll.{feed, CarriesLast, feed-CarriesLast}
use pairion_client.Wake.Suppression.{detection_times, IsSpaced, feed-IsSpaced}
use pairion_client.Wake.Rows.{AreRows}
use pairion_client.Wake.Asked.{strict}
use pairion_client.Wake.Bounds.{IsBounded, process_pcm_frame-IsBounded}
use pairion_client.Wake.Warmup.{Answers, warmup-new-ready}

-- Sessions that answer the same to everything, and always hear the wake word.
abbrev eager : Models toy
eager = record {
  mel = λ input. (9 ∷ replicate 255 9) ∷ [];
  embedding = λ input. (7 ∷ []) ∷ [];
  classifier = λ input. (8 ∷ []) ∷ [];
  of_sample = λ n. 0;
  divide = λ a b. a;
  add = λ a b. a;
  to_float = λ d. d;
}

eager_answers : Answers eager
eager_answers = record {
  mel_first = λ input. 9;
  mel_more = λ input. replicate 255 9;
  gives_rows = λ input e. (refl, omega (arith, length-replicate {A = ℕ} 255 9));
  feature_first = λ input. 7;
  feature_more = λ input. [];
  gives_feature = λ input e. refl;
}

-- A detector that needs one more chunk.
abbrev primed : Detector toy
primed = record {
  threshold = 5;
  raw_audio_buffer = replicate 1760 0;
  accumulated_samples = 1279;
  mel_buffer = replicate 76 (replicate 32 0);
  emb_features = replicate 16 (7 ∷ []);
  pre_roll_buffer = [];
  suppression_since = 0;
  suppression_active = false;
}

abbrev frames : List (ℕ × List ℕ)
frames = (20, (1 ∷ 2 ∷ [])) ∷ (40, (3 ∷ 4 ∷ [])) ∷ []

detected : (decide eager 100 8 primed).1 ≡ some (record { score = 8; pre_roll_buffer = [] })
unfolding decide
detected = refl

suppressed : (decide eager 599 8 (decide eager 100 8 primed).0).1 ≡ none
unfolding decide
suppressed = refl

rows_of : (n : ℕ) → AreRows {A = ℕ} (replicate n (replicate 32 0))
rows_of zero = tt
rows_of (suc n) = (refl, rows_of n)

feed-CarriesLast_example : CarriesLast [] frames (feed eager frames primed).1
feed-CarriesLast_example = feed-CarriesLast eager [] frames primed refl

feed-IsSpaced_example : IsSpaced false 0 (detection_times frames (feed eager frames primed).1)
feed-IsSpaced_example = feed-IsSpaced eager frames primed

-- All three sessions run.
process_pcm_frame-IsBounded_example :
    let r = process_pcm_frame eager 20 (1 ∷ 2 ∷ []) primed in
    IsBounded eager (buffers eager r.0)
    × (length r.0.raw_audio_buffer ≤ max_raw_buffer_samples)
    × (process_pcm_frame (strict eager) 20 (1 ∷ 2 ∷ []) primed ≡ r)
process_pcm_frame-IsBounded_example =
    process_pcm_frame-IsBounded eager 20 (1 ∷ 2 ∷ []) primed (rows_of 76, omega arith, omega arith)

warmup-new-ready_example :
    (mel_frames_needed ≤ length (warmup eager 0 (new 5)).0.mel_buffer)
    × (emb_features_needed ≤ length (warmup eager 0 (new 5)).0.emb_features)
warmup-new-ready_example = warmup-new-ready eager eager_answers 5 0
