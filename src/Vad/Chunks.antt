-- ===== src/Vad/Chunks.antt =====
-- The accumulator of the VAD and the loop over its chunks.
pub mod Cuts
use pairion_client.Base.{
  ℕ, zero, suc, ◌+◌, ◌-◌, ◌≡◌, refl, sym, ◌∙◌, ap, subst, inl, inr, true, false, List, [], ◌∷◌,
  ◌++◌, arith, leb, ltb, if◌then◌else◌, Bool-cases, length, take, drop, length-append, length-drop,
  append_assoc, drop-append,
}
use pairion_client.Qt.{Qt}
use pairion_client.Vad.{
  Vad, Session, VadState, idle, speaking, trailing, inference_bytes, run_inference, samples_of,
  infer_all, process_pcm_frame, advance,
}

pub less_fuel :
    (f l : ℕ)
    → ltb (suc f) l ≡ false
    → ltb l inference_bytes ≡ false
    → ltb f (l - inference_bytes) ≡ false
less_fuel f l h k = ground arith

-- A round leaves the fuel enough.
pub shorter :
    (f : ℕ) (bytes : List ℕ)
    → ltb (suc f) (length bytes) ≡ false
    → ltb (length bytes) inference_bytes ≡ false
    → ltb f (length (drop inference_bytes bytes)) ≡ false
shorter f bytes h k =
    ap (ltb f) (length-drop inference_bytes bytes) ∙ less_fuel f (length bytes) h k

abbrev pub with_bytes : {q : Qt} → List ℕ → Vad q → Vad q
with_bytes bytes v = record v { accumulator = bytes }

module _ {q : Qt} (session : Session q) where
  pub advance-with_bytes :
      (s : VadState) (prob : q.Double) (now : ℕ) (bytes : List ℕ) (v : Vad q)
      → advance s prob now (with_bytes bytes v) ≡ with_bytes bytes (advance s prob now v)
  unfolding advance
  advance-with_bytes idle prob now bytes v = elim (Bool-cases (q.at_least prob v.threshold)) [
    | inl e ↦ rw (e, if◌then◌else◌)
    | inr e ↦ rw (e, if◌then◌else◌)
  ]
  advance-with_bytes speaking prob now bytes v = elim (Bool-cases (q.less prob v.threshold)) [
    | inl e ↦ rw (e, if◌then◌else◌)
    | inr e ↦ rw (e, if◌then◌else◌)
  ]
  advance-with_bytes trailing prob now bytes v = elim (Bool-cases (q.at_least prob v.threshold)) [
    | inl e ↦ rw (e, if◌then◌else◌)
    | inr e ↦ elim (Bool-cases (leb v.silence_end_ms (now - v.silence_since))) [
      | inl f ↦ rw (e, f, if◌then◌else◌)
      | inr f ↦ rw (e, f, if◌then◌else◌)
    ]
  ]

  -- An inference neither reads nor changes the bytes that wait.
  pub run_inference-with_bytes :
      (now : ℕ) (samples : List q.Double) (bytes : List ℕ) (v : Vad q)
      → run_inference session now samples (with_bytes bytes v)
        ≡ with_bytes bytes (run_inference session now samples v)
  unfolding run_inference
  run_inference-with_bytes now samples bytes v = advance-with_bytes v.state _ now bytes _

  pub bytes-run_inference :
      (now : ℕ) (samples : List q.Double) (v : Vad q)
      → (run_inference session now samples v).accumulator ≡ v.accumulator
  bytes-run_inference now samples v =
      ap (λ w. w.accumulator) (run_inference-with_bytes now samples v.accumulator v)

  -- The loop ends with less than a chunk left, if it has fuel for the bytes that wait.
  pub bytes-infer_all :
      (clock : ℕ → ℕ) (fuel : ℕ) (v : Vad q)
      → ltb fuel (length v.accumulator) ≡ false
      → ltb (length (infer_all session clock fuel v).accumulator) inference_bytes ≡ true
  unfolding infer_all
  bytes-infer_all clock zero v h = ground (arith, h)
  bytes-infer_all clock (suc fuel) v h =
      let next =
        run_inference session (clock fuel) (samples_of session (take inference_bytes v.accumulator))
          (with_bytes (drop inference_bytes v.accumulator) v) in
      elim (Bool-cases (ltb (length v.accumulator) inference_bytes)) [
        | inl e ↦ rw (e, if◌then◌else◌) e
        | inr e ↦
            rw (e, if◌then◌else◌)
              (bytes-infer_all clock fuel next (
                ap (λ l. ltb fuel (length l)) (bytes-run_inference (clock fuel) _ _)
                ∙ shorter fuel v.accumulator h e))
      ]

  -- After every frame, of any size, less than a chunk of 1024 bytes waits in the accumulator,
  -- whatever the clock says during the inferences.
  pub length-process_pcm_frame :
      (clock : ℕ → ℕ) (pcm : List ℕ) (v : Vad q)
      → ltb (length (process_pcm_frame session clock pcm v).accumulator) inference_bytes ≡ true
  unfolding process_pcm_frame
  length-process_pcm_frame clock pcm v =
      let bytes = v.accumulator ++ pcm in
      bytes-infer_all clock (length bytes) (with_bytes bytes v) (ground arith)
