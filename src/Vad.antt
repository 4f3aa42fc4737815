-- ===== src/Vad.antt =====
-- src/vad/silero_vad.cpp: voice activity detection. The ONNX session is a parameter; a float is
-- taken as the double that it stands for, and the elapsed timer as a clock in milliseconds.
pub mod Chunks
pub mod Speech
mod Tests
use pairion_client.Base.{
  ℕ, zero, suc, ◌-◌, List, [], ◌∷◌, ◌++◌, ltb, leb, if◌then◌else◌, length, take, drop, replicate,
}
use pairion_client.Qt.{Qt}

pub data VadState : Type 0 where
  idle speaking trailing : VadState

pub data VadSignal : Type 0 where
  speech_started speech_ended : VadSignal

pub record Vad (q : Qt) : Type 0 where
  pub threshold : q.Double
  pub silence_end_ms : ℕ
  pub state : VadState
  -- when the silence timer was last started
  pub silence_since : ℕ
  pub recurrent_state : List q.Double
  pub accumulator : List ℕ
  -- newest first
  pub emitted : List VadSignal

-- `OnnxInferenceSession::run` for the two outputs asked for: the data of the first, and of those
-- after it; and the sample of two bytes, scaled to [-1, 1).
pub record Session (q : Qt) : Type 0 where
  pub run : List q.Double → List q.Double → List q.Double × List (List q.Double)
  pub sample : ℕ → ℕ → q.Double

abbrev pub inference_bytes : ℕ
inference_bytes = 1024

abbrev pub state_size : ℕ
state_size = 256

abbrev first_or {ℓ} : {A : Type ℓ} → A → List A → A
first_or a [] = a
first_or a (x ∷ xs) = x

abbrev pub zeros : (q : Qt) → List q.Double
zeros q = replicate state_size (q.literal "0.0")

module _ {q : Qt} where
  unfoldable pub reset : Vad q → Vad q
  reset v = record v { state = idle; accumulator = []; recurrent_state = zeros q }

  unfoldable pub set_threshold : q.Double → Vad q → Vad q
  set_threshold threshold v = record v { threshold = threshold }

  abbrev signal : VadSignal → Vad q → Vad q
  signal s v = record v { emitted = s ∷ v.emitted }

  -- The `switch` of `runInference`.
  pub advance : VadState → q.Double → ℕ → Vad q → Vad q
  advance idle prob now v =
      if q.at_least prob v.threshold
      then signal speech_started (record v { state = speaking })
      else v
  advance speaking prob now v =
      if q.less prob v.threshold then record v { state = trailing; silence_since = now } else v
  advance trailing prob now v =
      if q.at_least prob v.threshold
      then record v { state = speaking }
      else if leb v.silence_end_ms (now - v.silence_since)
      then signal speech_ended (record v { state = idle })
      else v

  -- `outputs[1]` replaces the recurrent state if it is there.
  pub run_inference : Session q → ℕ → List q.Double → Vad q → Vad q
  unfolding advance
  run_inference session now samples v =
      let (output, more) = session.run samples v.recurrent_state in
      advance v.state (first_or (q.literal "0.0") output) now
        (record v { recurrent_state = first_or v.recurrent_state more })

  abbrev pub samples_of : Session q → List ℕ → List q.Double
  samples_of session [] = []
  samples_of session (lo ∷ []) = []
  samples_of session (lo ∷ (hi ∷ bytes)) = session.sample lo hi ∷ samples_of session bytes

  -- `while (m_accumulator.size() >= kInferenceBytes)`, on fuel; `clock` is the time at each round.
  pub infer_all : Session q → (ℕ → ℕ) → ℕ → Vad q → Vad q
  infer_all session clock zero v = v
  infer_all session clock (suc fuel) v =
      let chunk = take inference_bytes v.accumulator in
      let v' = record v { accumulator = drop inference_bytes v.accumulator } in
      let rest =
        infer_all session clock fuel
          (run_inference session (clock fuel) (samples_of session chunk) v') in
      if ltb (length v.accumulator) inference_bytes then v else rest

  unfoldable pub process_pcm_frame : Session q → (ℕ → ℕ) → List ℕ → Vad q → Vad q
  unfolding infer_all run_inference
  process_pcm_frame session clock pcm20ms v =
      let bytes = v.accumulator ++ pcm20ms in
      infer_all session clock (length bytes) (record v { accumulator = bytes })

-- The constructor.
abbrev pub new : {q : Qt} → q.Double → ℕ → Vad q
new {q} threshold silence_end_ms = record {
  threshold = threshold;
  silence_end_ms = silence_end_ms;
  state = idle;
  silence_since = 0;
  recurrent_state = zeros q;
  accumulator = [];
  emitted = [];
}
