-- ===== src/Wake.antt =====
-- src/wake/open_wakeword_detector.cpp: the wake word detector. The three ONNX sessions and the
-- arithmetic of floats are parameters; a float is taken as the double that it stands for. The
-- clock is read once for a frame.
pub mod Outcome
pub mod PreRoll
pub mod Suppression
pub mod Sizes
pub mod Rows
pub mod Warmup
pub mod Asked
pub mod Bounds
mod Tests
use pairion_client.Base.{
  ℕ, zero, suc, ◌+◌, ◌-◌, ◌*◌, ◌/◌, Bool, true, false, ◌&&◌, Option, none, some, List, [], ◌∷◌,
  ◌++◌, map, ltb, leb, if◌then◌else◌, length, take, drop, right, concat, replicate,
}
use Prim.Native.Nat.{min}
use pairion_client.Qt.{Qt, ℤ, pos, negsuc}

-- The signal wakeWordDetected.
pub record WakeWord (q : Qt) : Type 0 where
  pub score : q.Double
  pub pre_roll_buffer : List ℕ

pub record Detector (q : Qt) : Type 0 where
  pub threshold : q.Double
  pub raw_audio_buffer : List q.Double
  pub accumulated_samples : ℕ
  pub mel_buffer : List (List q.Double)
  pub emb_features : List (List q.Double)
  pub pre_roll_buffer : List ℕ
  -- when the suppression timer was last started
  pub suppression_since : ℕ
  pub suppression_active : Bool

-- `OnnxInferenceSession::run` of each session on the data of its one input tensor: the data of
-- every output; and what the code computes with floats.
pub record Models (q : Qt) : Type 0 where
  pub mel : List q.Double → List (List q.Double)
  pub embedding : List q.Double → List (List q.Double)
  pub classifier : List q.Double → List (List q.Double)
  pub of_sample : ℤ → q.Double
  pub divide : q.Double → q.Double → q.Double
  pub add : q.Double → q.Double → q.Double
  -- `static_cast<float>` of a double
  pub to_float : q.Double → q.Double

abbrev pub mel_chunk_samples : ℕ
mel_chunk_samples = 1280

abbrev pub mel_context_samples : ℕ
mel_context_samples = 480

abbrev pub mel_rows_per_chunk : ℕ
mel_rows_per_chunk = 8

abbrev pub mel_frame_width : ℕ
mel_frame_width = 32

abbrev pub mel_frames_needed : ℕ
mel_frames_needed = 76

abbrev pub mel_buffer_max_len : ℕ
mel_buffer_max_len = 200

abbrev pub emb_features_needed : ℕ
emb_features_needed = 16

abbrev pub emb_feature_size : ℕ
emb_feature_size = 96

abbrev pub feature_buffer_max_len : ℕ
feature_buffer_max_len = 120

abbrev pub max_raw_buffer_samples : ℕ
max_raw_buffer_samples = 32000

abbrev pub pre_roll_bytes : ℕ
pre_roll_bytes = 6400

abbrev pub suppression_ms : ℕ
suppression_ms = 500

abbrev pub window_size : ℕ
window_size = mel_chunk_samples + mel_context_samples

abbrev pub warmup_chunks : ℕ
warmup_chunks = mel_frames_needed / mel_rows_per_chunk + emb_features_needed + 2

-- A little-endian int16_t.
abbrev pub int16 : ℕ → ℕ → ℤ
int16 lo hi = let n = lo + 256 * hi in if ltb n 32768 then pos n else negsuc (65535 - n)

abbrev pub pcm_data : List ℕ → List ℤ
pcm_data [] = []
pcm_data (lo ∷ []) = []
pcm_data (lo ∷ (hi ∷ bytes)) = int16 lo hi ∷ pcm_data bytes

-- `while (size() > n) pop_front()`
abbrev pub trim : {A : Type 0} → ℕ → List A → List A
trim n [] = []
trim n (x ∷ xs) = let rest = trim n xs in if ltb n (length (x ∷ xs)) then rest else x ∷ xs

-- Rows of 32 floats from the front of the data.
abbrev pub rows : {A : Type 0} → ℕ → List A → List (List A)
rows zero floats = []
rows (suc n) floats = take mel_frame_width floats ∷ rows n (drop mel_frame_width floats)

-- The last rows of the output, at most eight.
abbrev pub new_rows : {A : Type 0} → List A → List (List A)
new_rows mel_data =
    let total = length mel_data / mel_frame_width in
    let count = min total mel_rows_per_chunk in
    rows count (drop ((total - count) * mel_frame_width) mel_data)

-- `outputs[0].data` unless it is missing or empty: its first float, and the others.
abbrev pub first_output : {A : Type 0} → List (List A) → Option (A × List A)
first_output [] = none
first_output ([] ∷ outputs) = none
first_output ((x ∷ xs) ∷ outputs) = some (x, xs)

module _ {q : Qt} (models : Models q) where
  -- `v / 10.0f + 2.0f`
  abbrev pub mel_transform : q.Double → q.Double
  mel_transform v = models.add (models.divide v (q.literal "10.0")) (q.literal "2.0")

  abbrev pub mel_input : Detector q → List q.Double
  mel_input d = right window_size d.raw_audio_buffer

  unfoldable pub append_mel : List q.Double → Detector q → Detector q
  append_mel mel_data d = record d {
    mel_buffer =
        trim mel_buffer_max_len (d.mel_buffer ++ map (map mel_transform) (new_rows mel_data));
  }

  -- The last 76 rows in one vector; each row has 32 floats.
  abbrev pub emb_input : Detector q → List q.Double
  emb_input d = concat (right mel_frames_needed d.mel_buffer)

  unfoldable pub append_feature : List q.Double → Detector q → Detector q
  append_feature feature d = record d {
    emb_features = trim feature_buffer_max_len (d.emb_features ++ (feature ∷ []));
  }

  -- The 96 floats of the classifier's input for one feature, zero where the feature is shorter.
  abbrev pub feature_slot : List q.Double → List q.Double
  feature_slot feature =
      let copy_size = min (length feature) emb_feature_size in
      take copy_size feature ++ replicate (emb_feature_size - copy_size) (q.literal "0.0")

  abbrev pub cls_input : Detector q → List q.Double
  cls_input d = concat (map feature_slot (right emb_features_needed d.emb_features))

  -- The rest of `runClassifier`, from the score on.
  unfoldable pub decide : ℕ → q.Double → Detector q → Detector q × Option (WakeWord q)
  decide now score d =
      if q.less score (models.to_float d.threshold)
      then (d, none)
      else if d.suppression_active && ltb (now - d.suppression_since) suppression_ms
      then (d, none)
      else (
        record d { suppression_active = true; suppression_since = now },
        some (record { score = score; pre_roll_buffer = d.pre_roll_buffer }),
      )

  after_classifier :
      ℕ → Option (q.Double × List q.Double) → Detector q → Detector q × Option (WakeWord q)
  unfolding decide
  after_classifier now none d = (d, none)
  after_classifier now (some (score, more)) d = decide now score d

  unfoldable pub run_classifier : ℕ → Detector q → Detector q × Option (WakeWord q)
  unfolding after_classifier
  run_classifier now d = after_classifier now (first_output (models.classifier (cls_input d))) d

  -- Stage 3
  classify : ℕ → Detector q → Detector q × Option (WakeWord q)
  unfolding run_classifier
  classify now d =
      if ltb (length d.emb_features) emb_features_needed then (d, none) else run_classifier now d

  after_embedding :
      ℕ → Option (q.Double × List q.Double) → Detector q → Detector q × Option (WakeWord q)
  unfolding append_feature classify
  after_embedding now none d = (d, none)
  after_embedding now (some (x, xs)) d = classify now (append_feature (x ∷ xs) d)

  -- Stage 2
  embed : ℕ → Detector q → Detector q × Option (WakeWord q)
  unfolding after_embedding
  embed now d =
      if ltb (length d.mel_buffer) mel_frames_needed
      then (d, none)
      else after_embedding now (first_output (models.embedding (emb_input d))) d

  after_mel : ℕ → Option (q.Double × List q.Double) → Detector q → Detector q × Option (WakeWord q)
  unfolding append_mel embed
  after_mel now none d = (d, none)
  after_mel now (some (x, xs)) d = embed now (append_mel (x ∷ xs) d)

  unfoldable pub process_accumulated_audio : ℕ → Detector q → Detector q × Option (WakeWord q)
  unfolding after_mel
  process_accumulated_audio now d =
      if ltb (length d.raw_audio_buffer) window_size
      then (d, none)
      else after_mel now (first_output (models.mel (mel_input d))) d

  -- The pre-roll, the raw buffer and the count of samples, before anything is computed.
  unfoldable pub push_pcm : List ℕ → Detector q → Detector q
  push_pcm pcm20ms d =
      let pre_roll = d.pre_roll_buffer ++ pcm20ms in
      record d {
        pre_roll_buffer =
            if ltb pre_roll_bytes (length pre_roll)
            then right pre_roll_bytes pre_roll
            else pre_roll;
        raw_audio_buffer = d.raw_audio_buffer ++ map models.of_sample (pcm_data pcm20ms);
        accumulated_samples = d.accumulated_samples + length pcm20ms / 2;
      }

  unfoldable pub trim_raw : Detector q → Detector q
  trim_raw d =
      if ltb max_raw_buffer_samples (length d.raw_audio_buffer)
      then record d {
        raw_audio_buffer =
            drop (length d.raw_audio_buffer - max_raw_buffer_samples) d.raw_audio_buffer;
      }
      else d

  abbrev restart_count : Detector q × Option (WakeWord q) → Detector q × Option (WakeWord q)
  restart_count (d, word) = (record d { accumulated_samples = 0 }, word)

  unfoldable pub process_chunk : ℕ → Detector q → Detector q × Option (WakeWord q)
  unfolding process_accumulated_audio
  process_chunk now d =
      if leb mel_chunk_samples d.accumulated_samples
      then restart_count (process_accumulated_audio now d)
      else (d, none)

  unfoldable pub process_pcm_frame : ℕ → List ℕ → Detector q → Detector q × Option (WakeWord q)
  unfolding push_pcm process_chunk trim_raw
  process_pcm_frame now pcm20ms d =
      let (d', word) = process_chunk now (push_pcm pcm20ms d) in (trim_raw d', word)

  abbrev pub silent_chunk : Detector q → Detector q
  silent_chunk d = record d {
    raw_audio_buffer = d.raw_audio_buffer ++ replicate mel_chunk_samples (q.literal "0.0");
    accumulated_samples = mel_chunk_samples;
  }

  -- The loop of `warmup`, with the detections it emits.
  pub warmup_loop : ℕ → ℕ → Detector q → Detector q × List (Option (WakeWord q))
  unfolding process_accumulated_audio
  warmup_loop zero now d = (d, [])
  warmup_loop (suc n) now d =
      let (d', word) = restart_count (process_accumulated_audio now (silent_chunk d)) in
      let (d'', words) = warmup_loop n now d' in (d'', word ∷ words)

  unfoldable pub warmup : ℕ → Detector q → Detector q × List (Option (WakeWord q))
  unfolding warmup_loop
  warmup now d = warmup_loop warmup_chunks now d

-- The constructor.
abbrev pub new : {q : Qt} → q.Double → Detector q
new {q} threshold = record {
  threshold = threshold;
  raw_audio_buffer = replicate mel_context_samples (q.literal "0.0");
  accumulated_samples = 0;
  mel_buffer = [];
  emb_features = [];
  pre_roll_buffer = [];
  suppression_since = 0;
  suppression_active = false;
}
