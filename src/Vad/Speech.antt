-- ===== src/Vad/Speech.antt =====
-- The signals of the VAD over the frames that it is given.
use pairion_client.Base.{
  ℕ, zero, suc, ◌-◌, ◌≡◌, refl, ◌∙◌, ap, inl, inr, Bool, true, false, List, [], ◌∷◌, ◌++◌, ltb, leb,
  if◌then◌else◌, Bool-cases, length,
}
use pairion_client.Qt.{Qt}
use pairion_client.Vad.{
  Vad, VadState, idle, speaking, trailing, VadSignal, speech_started, speech_ended, Session,
  inference_bytes, advance, run_inference, infer_all, process_pcm_frame, new,
}

-- Whether the newest signal left speech going on.
abbrev pub in_speech : List VadSignal → Bool
in_speech [] = false
in_speech (speech_started ∷ signals) = true
in_speech (speech_ended ∷ signals) = false

-- Each start comes outside speech, each end inside.
abbrev pub Alternates : List VadSignal → Type 0
Alternates [] = Unit {0}
Alternates (speech_started ∷ signals) = (in_speech signals ≡ false) × Alternates signals
Alternates (speech_ended ∷ signals) = (in_speech signals ≡ true) × Alternates signals

abbrev pub is_active : VadState → Bool
is_active idle = false
is_active speaking = true
is_active trailing = true

abbrev pub IsTold : {q : Qt} → Vad q → Type 0
IsTold v = Alternates v.emitted × (in_speech v.emitted ≡ is_active v.state)

module _ {q : Qt} where
  advance-IsTold :
      (s : VadState) (prob : q.Double) (now : ℕ) (v : Vad q)
      → v.state ≡ s
      → IsTold v
      → IsTold (advance s prob now v)
  unfolding advance
  advance-IsTold idle prob now v e (alternate, told) =
      elim (Bool-cases (q.at_least prob v.threshold)) [
        | inl h ↦ rw (h, if◌then◌else◌) ((told ∙ ap is_active e, alternate), refl)
        | inr h ↦ rw (h, if◌then◌else◌) (alternate, told)
      ]
  advance-IsTold speaking prob now v e (alternate, told) =
      elim (Bool-cases (q.less prob v.threshold)) [
        | inl h ↦ rw (h, if◌then◌else◌) (alternate, told ∙ ap is_active e)
        | inr h ↦ rw (h, if◌then◌else◌) (alternate, told)
      ]
  advance-IsTold trailing prob now v e (alternate, told) =
      elim (Bool-cases (q.at_least prob v.threshold)) [
        | inl h ↦ rw (h, if◌then◌else◌) (alternate, told ∙ ap is_active e)
        | inr h ↦ elim (Bool-cases (leb v.silence_end_ms (now - v.silence_since))) [
          | inl k ↦ rw (h, k, if◌then◌else◌) ((told ∙ ap is_active e, alternate), refl)
          | inr k ↦ rw (h, k, if◌then◌else◌) (alternate, told)
        ]
      ]

  run_inference-IsTold :
      (session : Session q) (now : ℕ) (samples : List q.Double) (v : Vad q)
      → IsTold v
      → IsTold (run_inference session now samples v)
  unfolding run_inference
  run_inference-IsTold session now samples v told = advance-IsTold v.state _ now _ refl told

  infer_all-IsTold :
      (session : Session q) (clock : ℕ → ℕ) (fuel : ℕ) (v : Vad q)
      → IsTold v
      → IsTold (infer_all session clock fuel v)
  unfolding infer_all
  infer_all-IsTold session clock zero v told = told
  infer_all-IsTold session clock (suc fuel) v told =
      elim (Bool-cases (ltb (length v.accumulator) inference_bytes)) [
        | inl e ↦ rw (e, if◌then◌else◌) told
        | inr e ↦
            rw (e, if◌then◌else◌)
              (infer_all-IsTold session clock fuel _
                (run_inference-IsTold session (clock fuel) _ _ told))
      ]

  -- Frames in order, each with the clock during its inferences.
  abbrev pub feed : Session q → List ((ℕ → ℕ) × List ℕ) → Vad q → Vad q
  feed session [] v = v
  feed session (frame ∷ frames) v =
      feed session frames (process_pcm_frame session frame.0 frame.1 v)

  feed-IsTold :
      (session : Session q) (frames : List ((ℕ → ℕ) × List ℕ)) (v : Vad q)
      → IsTold v
      → IsTold (feed session frames v)
  unfolding process_pcm_frame
  feed-IsTold session [] v told = told
  feed-IsTold session (frame ∷ frames) v told =
      feed-IsTold session frames (process_pcm_frame session frame.0 frame.1 v) (
        infer_all-IsTold session frame.0 (length (v.accumulator ++ frame.1))
          (record v { accumulator = v.accumulator ++ frame.1 }) told)

-- Whatever the model answers and the clock says: over any frames given to a new detector, starts and
-- ends of speech are signalled in turn, beginning with a start, and speech is going on by the
-- signals exactly while the detector is speaking or trailing.
pub feed-new-IsTold :
    {q : Qt} (session : Session q) (threshold : q.Double) (silence_end_ms : ℕ)
    (frames : List ((ℕ → ℕ) × List ℕ))
    → IsTold (feed session frames (new threshold silence_end_ms))
feed-new-IsTold session threshold silence_end_ms frames =
    feed-IsTold session frames (new threshold silence_end_ms) (tt, refl)
