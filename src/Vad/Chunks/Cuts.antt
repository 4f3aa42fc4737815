-- ===== src/Vad/Chunks/Cuts.antt =====
-- The samples of the VAD, cut into frames in different ways.
use pairion_client.Base.{
  ℕ, zero, suc, ◌+◌, ◌≡◌, refl, sym, ◌∙◌, ap, subst, inl, inr, true, false, List, [], ◌∷◌, ◌++◌,
  arith, ltb, if◌then◌else◌, Bool-cases, length, take, drop, length-append, append_assoc,
  drop-append, take-append,
}
use pairion_client.Qt.{Qt}
use pairion_client.Vad.{
  Vad, Session, inference_bytes, run_inference, samples_of, infer_all, process_pcm_frame,
}
use pairion_client.Vad.Chunks.{shorter, with_bytes, run_inference-with_bytes}

module _ {q : Qt} (session : Session q) (now : ℕ) where
  abbrev loop : ℕ → List ℕ → Vad q → Vad q
  loop fuel bytes v = infer_all session (λ k. now) fuel (with_bytes bytes v)

  abbrev infer : List ℕ → Vad q → Vad q
  infer bytes v = run_inference session now (samples_of session (take inference_bytes bytes)) v

  loop_round :
      (f : ℕ) (bytes : List ℕ) (v : Vad q)
      → ltb (length bytes) inference_bytes ≡ false
      → loop (suc f) bytes v ≡ loop f (drop inference_bytes bytes) (infer bytes v)
  unfolding infer_all
  loop_round f bytes v h =
      rw (h, if◌then◌else◌)
        (ap (infer_all session (λ k. now) f) (
          run_inference-with_bytes session now (samples_of session (take inference_bytes bytes))
            (drop inference_bytes bytes) v))

  loop_rest :
      (f : ℕ) (bytes : List ℕ) (v : Vad q)
      → ltb (length bytes) inference_bytes ≡ true
      → loop f bytes v ≡ with_bytes bytes v
  unfolding infer_all
  loop_rest zero bytes v h = refl
  loop_rest (suc f) bytes v h = rw (h, if◌then◌else◌)

  few : (l : ℕ) → ltb 0 l ≡ false → ltb l inference_bytes ≡ true
  few l h = ground arith

  -- Enough fuel is as good as any.
  loop-fuel :
      (f g : ℕ) (bytes : List ℕ) (v : Vad q)
      → ltb f (length bytes) ≡ false
      → ltb g (length bytes) ≡ false
      → loop f bytes v ≡ loop g bytes v
  loop-fuel zero g bytes v h k =
      let short = few (length bytes) h in
      loop_rest zero bytes v short ∙ sym (loop_rest g bytes v short)
  loop-fuel (suc f) zero bytes v h k =
      let short = few (length bytes) k in
      loop_rest (suc f) bytes v short ∙ sym (loop_rest zero bytes v short)
  loop-fuel (suc f) (suc g) bytes v h k = elim (Bool-cases (ltb (length bytes) inference_bytes)) [
    | inl short ↦ loop_rest (suc f) bytes v short ∙ sym (loop_rest (suc g) bytes v short)
    | inr long ↦
        loop_round f bytes v long
        ∙ loop-fuel f g (drop inference_bytes bytes) (infer bytes v) (shorter f bytes h long)
            (shorter g bytes k long)
        ∙ sym (loop_round g bytes v long)
  ]

  -- What the loop makes of `w` and more bytes is `target`.
  abbrev Resumes : List ℕ → Vad q → Vad q → Type 0
  Resumes more target w =
      (g : ℕ)
      → ltb g (length (w.accumulator ++ more)) ≡ false
      → loop g (w.accumulator ++ more) w ≡ target

  still_long :
      (bytes more : List ℕ)
      → ltb (length bytes) inference_bytes ≡ false
      → ltb (length (bytes ++ more)) inference_bytes ≡ false
  still_long bytes more h =
      ap (λ l. ltb l inference_bytes) (length-append bytes more)
      ∙ longer (length bytes) (length more) h
    where
      longer : (l k : ℕ) → ltb l inference_bytes ≡ false → ltb (l + k) inference_bytes ≡ false
      longer l k h = ground arith

  few_of_more :
      (bytes more : List ℕ)
      → ltb 0 (length (bytes ++ more)) ≡ false
      → ltb (length bytes) inference_bytes ≡ true
  few_of_more [] more h = refl
  few_of_more (x ∷ bytes) more h = absurd (ground (arith, h))

  loop_round-append :
      (f : ℕ) (bytes more : List ℕ) (v : Vad q)
      → ltb (length bytes) inference_bytes ≡ false
      → loop (suc f) (bytes ++ more) v ≡ loop f (drop inference_bytes bytes ++ more) (infer bytes v)
  loop_round-append f bytes more v h =
      loop_round f (bytes ++ more) v (still_long bytes more h)
      ∙ ap (λ l. loop f l (infer (bytes ++ more) v)) (drop-append inference_bytes bytes more h)
      ∙ ap
          (λ l.
            loop f (drop inference_bytes bytes ++ more)
              (run_inference session now (samples_of session l) v))
          (take-append inference_bytes bytes more h)

  loop-Resumes :
      (f g : ℕ) (bytes more : List ℕ) (v : Vad q)
      → ltb f (length bytes) ≡ false
      → ltb g (length (bytes ++ more)) ≡ false
      → Resumes more (loop g (bytes ++ more) v) (loop f bytes v)
  loop-Resumes zero g bytes more v h k =
      subst (Resumes more (loop g (bytes ++ more) v))
        (sym (loop_rest zero bytes v (few (length bytes) h)))
        (λ n e. loop-fuel n g (bytes ++ more) v e k)
  loop-Resumes (suc f) zero bytes more v h k =
      let short = few_of_more bytes more k in
      subst (Resumes more (loop zero (bytes ++ more) v)) (sym (loop_rest (suc f) bytes v short))
        (λ n e. loop-fuel n zero (bytes ++ more) v e k)
  loop-Resumes (suc f) (suc g) bytes more v h k =
      elim (Bool-cases (ltb (length bytes) inference_bytes)) [
        | inl short ↦
            subst (Resumes more (loop (suc g) (bytes ++ more) v))
              (sym (loop_rest (suc f) bytes v short))
              (λ n e. loop-fuel n (suc g) (bytes ++ more) v e k)
        | inr long ↦
            let rest = drop inference_bytes bytes in
            let enough =
              ap (λ l. ltb g (length l)) (sym (drop-append inference_bytes bytes more long))
              ∙ shorter g (bytes ++ more) k (still_long bytes more long) in
            subst (λ t. Resumes more t (loop (suc f) bytes v))
              (sym (loop_round-append g bytes more v long))
              (subst (Resumes more (loop g (rest ++ more) (infer bytes v)))
                (sym (loop_round f bytes v long))
                (loop-Resumes f g rest more (infer bytes v) (shorter f bytes h long) enough))
      ]

  -- If the clock stands still, two frames in a row have the same effect as one frame with the bytes
  -- of both: the states of the model, the signals and the bytes left do not depend on how the
  -- samples are cut into frames.
  pub process_pcm_frame-append :
      (a b : List ℕ) (v : Vad q)
      → process_pcm_frame session (λ k. now) b (process_pcm_frame session (λ k. now) a v)
        ≡ process_pcm_frame session (λ k. now) (a ++ b) v
  unfolding process_pcm_frame
  process_pcm_frame-append a b v =
      let bytes = v.accumulator ++ a in
      let w = loop (length bytes) bytes v in
      loop-Resumes (length bytes) (length (bytes ++ b)) bytes b v (same (length bytes))
        (same (length (bytes ++ b))) (length (w.accumulator ++ b))
        (same (length (w.accumulator ++ b)))
      ∙ ap (λ l. loop (length l) l v) (append_assoc v.accumulator a b)
    where
      same : (l : ℕ) → ltb l l ≡ false
      same l = ground arith
