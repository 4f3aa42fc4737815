-- ===== src/RingBuffer/Fifo.antt =====
-- src/audio/ring_buffer.h: all interleavings of the producer and the consumer, against a queue.
use pairion_client.Base.{
  ℕ, zero, suc, ◌+◌, ◌-◌, ◌%◌, ◌^◌, ◌≤◌, ◌<◌, ◌≡◌, refl, sym, ◌∙◌, ap, some, List, [], ◌∷◌, ◌++◌,
  arith, length, drop, take-append-drop,
}
use mathlib.Core.Option.{some-injective}
use pairion_client.RingBuffer.{
  RingBuffer, System, capacity, mask, push, push_step, pop_step, size, new,
}
use pairion_client.RingBuffer.Indices.{mask-next, masked_difference}
use pairion_client.RingBuffer.Queue.{get_elem?, IsQueue, new-IsQueue, push-IsQueue}
use pairion_client.RingBuffer.Steps.{push_step-IsQueue, pop_step-IsQueue}

module _ {A : Type 0} where
  drop_next :
      (xs : List A) (i : ℕ) (v : A) → some v ≡ get_elem? xs i → drop i xs ≡ v ∷ drop (suc i) xs
  drop_next [] i v e = absurd (ground (arith, e))
  drop_next (x ∷ xs) zero v e = ap (λ y. y ∷ xs) (sym (some-injective v x e))
  drop_next (x ∷ xs) (suc i) v e = drop_next xs i v e

  drop_all : (xs : List A) (i : ℕ) → i ≡ length xs → drop i xs ≡ []
  drop_all [] zero e = refl
  drop_all [] (suc i) e = refl
  drop_all (x ∷ xs) zero e = absurd (omega arith)
  drop_all (x ∷ xs) (suc i) e = drop_all xs i (omega arith)

module _ {A : Type 0} (k : ℕ) where
  -- The states that the two threads reach, by their steps in any order.
  pub data Reach (default : A) : System A → Type 0 where
    begun : Reach default (new default)
    pushing : {s : System A} (item : A) → Reach default s → Reach default (push k item s.producer s)
    push_steps : {s : System A} → Reach default s → Reach default (push_step k s.producer s)
    pop_steps : {s : System A} → Reach default s → Reach default (pop_step k s.consumer s)

  Reach-IsQueue : (default : A) (s : System A) → Reach default s → IsQueue k s
  Reach-IsQueue default _ begun = new-IsQueue k default
  Reach-IsQueue default _ (pushing {s} item r) =
      push-IsQueue k item s.producer s (Reach-IsQueue default s r)
  Reach-IsQueue default _ (push_steps {s} r) =
      let h = Reach-IsQueue default s r in push_step-IsQueue k s.producer s h.producer_ok h
  Reach-IsQueue default _ (pop_steps {s} r) =
      let h = Reach-IsQueue default s r in pop_step-IsQueue k s.consumer s h.consumer_ok h

  -- The elements of n slots from the index r on.
  abbrev pub slots : (ℕ → A) → ℕ → ℕ → List A
  slots values r zero = []
  slots values r (suc n) = values r ∷ slots values (mask k (r + 1)) n

  -- What the buffer holds, by its memory alone.
  abbrev pub contents : RingBuffer A → List A
  contents ring = slots ring.values ring.read_idx (size k ring)

  slots-drop :
      (values : ℕ → A) (xs : List A) (n i r : ℕ)
      → r ≡ i % capacity k
      → i + n ≡ length xs
      → ((j : ℕ) → i ≤ j → j < length xs → some (values (j % capacity k)) ≡ get_elem? xs j)
      → slots values r n ≡ drop i xs
  slots-drop values xs zero i r at e kept = sym (drop_all xs i (omega arith))
  slots-drop values xs (suc n) i r at e kept =
      ap (λ l. values r ∷ l)
        (slots-drop values xs n (suc i) (mask k (r + 1))
          (ap (λ x. mask k (x + 1)) at ∙ mask-next k i ∙ ap (λ x. x % capacity k) one_more)
          (omega arith) (λ j le lt. kept j (omega arith) lt))
      ∙ sym (
          drop_next xs i (values r)
            (ap (λ x. some (values x)) at ∙ kept i (omega arith) (omega arith)))
    where
      one_more : i + 1 ≡ suc i
      one_more = omega arith

  -- If the capacity is at most 2 ^ 64: in every state that the two threads reach, by any order of
  -- their steps, what was popped followed by what the buffer holds, as its memory says, is what was
  -- pushed; and it holds less than its capacity.
  pub Reach-contents :
      (default : A) (s : System A)
      → k ≤ 64
      → Reach default s
      → (s.popped ++ contents s.ring ≡ s.pushed) × (size k s.ring < capacity k)
  unfolding size
  Reach-contents default s small reached =
      let h = Reach-IsQueue default s reached in
      let held =
        ap (λ w. mask k ((2 ^ 64 + w - s.ring.read_idx) % 2 ^ 64)) h.write_at
        ∙ ap (λ r. mask k ((2 ^ 64 + length s.pushed % capacity k - r) % 2 ^ 64)) h.read_at
        ∙ masked_difference k (length s.pushed) (length s.popped) small h.behind h.room in
      (
        ap (λ n. s.popped ++ slots s.ring.values s.ring.read_idx n) held
            ∙ ap (λ l. s.popped ++ l)
                (slots-drop s.ring.values s.pushed (length s.pushed - length s.popped)
                  (length s.popped) s.ring.read_idx h.read_at (omega (arith, h.behind)) h.kept)
            ∙ ap (λ l. l ++ drop (length s.popped) s.pushed) h.order
            ∙ take-append-drop (length s.popped) s.pushed,
        few _ _ _ _ held h.room h.behind,
      )
    where
      few : (n a b c : ℕ) → n ≡ a - b → a < b + c → b ≤ a → n < c
      few n a b c e h g = omega arith
