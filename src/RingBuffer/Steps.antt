-- ===== src/RingBuffer/Steps.antt =====
-- src/audio/ring_buffer.h: each atomic step of a push or a pop.
use pairion_client.Base.{
  ℕ, suc, ◌+◌, ◌%◌, ◌≤◌, ◌<◌, ◌≡◌, refl, sym, ◌∙◌, ap, ◌≢◌, ◌⊎◌, inl, inr, false, some, [], ◌∷◌,
  ◌++◌, arith, ◌==◌, ltb, if◌then◌else◌, Bool-cases, length, take, take-append,
}
use native.Mathlib.Nat.{eq-or-lt_of_le}
use pairion_client.RingBuffer.{
  Producer, Consumer, System, capacity, mask, write, push_step, pop_step,
}
use pairion_client.RingBuffer.Indices.{mask-next, same_slot, room_left, something_left}
use pairion_client.RingBuffer.Queue.{
  get_elem?, get_elem?-append, get_elem?-append_last, take_next, differ, same_test, differ_test,
  length-snoc, ProducerOk, ConsumerOk, IsQueue, set_producer-IsQueue, set_consumer-IsQueue,
  consumer_more, producer_more,
}

module _ {A : Type 0} (k : ℕ) where
  -- The slot that is written is none of those that wait.
  write_elsewhere :
      (item : A) (w : ℕ) (s : System A) (i : ℕ)
      → IsQueue k s
      → w ≡ s.ring.write_idx
      → length s.popped ≤ i
      → i < length s.pushed
      → write k w item s.ring.values (i % capacity k) ≡ s.ring.values (i % capacity k)
  write_elsewhere item w s i h at le lt =
      rw (differ_test (i % capacity k) w clash, if◌then◌else◌) refl
    where
      near : (n p c : ℕ) → n < p + c → p ≤ i → n < i + c
      near n p c h le = omega arith

      clash : i % capacity k ≢ w
      clash e =
          let same =
            same_slot k i (length s.pushed) (omega arith)
              (near (length s.pushed) (length s.popped) (capacity k) h.room le)
              (e ∙ at ∙ h.write_at) in
          omega arith

  pub push_step-IsQueue :
      (p : Producer A) (s : System A) → ProducerOk k s p → IsQueue k s → IsQueue k (push_step k p s)
  unfolding push_step
  push_step-IsQueue Producer.outside s ok h = h
  push_step-IsQueue (Producer.loaded item w) s ok h =
      elim (Bool-cases (mask k (w + 1) == s.ring.read_idx)) [
        | inl full ↦
            rw (full, if◌then◌else◌) (set_producer-IsQueue k Producer.outside (some false) s tt h)
        | inr free_slot ↦
            rw (free_slot, if◌then◌else◌)
              (set_producer-IsQueue k (Producer.free item w) s.push_result s
                (
                  ok,
                  room_left k (length s.pushed) (length s.popped) h.behind h.room (λ e.
                      differ (mask k (w + 1)) s.ring.read_idx free_slot (
                        ap (λ x. mask k (x + 1)) (ok ∙ h.write_at)
                        ∙ mask-next k (length s.pushed)
                        ∙ e
                        ∙ sym h.read_at)),
                )
                h)
      ]
  push_step-IsQueue (Producer.free item w) s (at, free_slot) h = record {
    write_at = h.write_at;
    read_at = h.read_at;
    behind = h.behind;
    room = h.room;
    kept = λ i le lt. ap some (write_elsewhere item w s i h at le lt) ∙ h.kept i le lt;
    order = h.order;
    producer_ok = (at, free_slot, rw (same_test w, if◌then◌else◌) refl);
    consumer_ok = h.consumer_ok;
  }
  push_step-IsQueue (Producer.stored item w) s (at, free_slot, there) h = record {
    write_at =
        ap (λ x. mask k (x + 1)) (at ∙ h.write_at)
        ∙ mask-next k (length s.pushed)
        ∙ ap (λ n. n % capacity k) (sym (length-snoc s.pushed item));
    read_at = h.read_at;
    behind = omega (arith, h.behind, length-snoc s.pushed item);
    room = longer _ _ _ _ free_slot (length-snoc s.pushed item);
    kept = λ i le lt. slot i le (eq-or-lt_of_le (last_or_before i lt));
    order =
        h.order
        ∙ sym (take-append (length s.popped) s.pushed (item ∷ []) (not_longer _ _ h.behind));
    producer_ok = tt;
    consumer_ok = consumer_more k item (mask k (w + 1)) s s.consumer h.consumer_ok;
  }
    where
      longer : (a b c l : ℕ) → a + 1 < b + c → l ≡ a + 1 → l < b + c
      longer a b c l h e = omega arith

      not_longer : (a b : ℕ) → a ≤ b → ltb b a ≡ false
      not_longer a b h = ground (arith, h)

      last_or_before : (i : ℕ) → i < length (s.pushed ++ (item ∷ [])) → i ≤ length s.pushed
      last_or_before i lt = omega (arith, length-snoc s.pushed item)

      slot :
          (i : ℕ)
          → length s.popped ≤ i
          → (i ≡ length s.pushed) ⊎ (i < length s.pushed)
          → some (s.ring.values (i % capacity k)) ≡ get_elem? (s.pushed ++ (item ∷ [])) i
      slot i le (inl e) =
          ap (λ x. some (s.ring.values (x % capacity k))) e
          ∙ ap (λ x. some (s.ring.values x)) (sym (at ∙ h.write_at))
          ∙ ap some there
          ∙ sym (get_elem?-append_last s.pushed item i e)
      slot i le (inr lt) = h.kept i le lt ∙ sym (get_elem?-append s.pushed (item ∷ []) i lt)

  pub pop_step-IsQueue :
      (c : Consumer A) (s : System A) → ConsumerOk k s c → IsQueue k s → IsQueue k (pop_step k c s)
  unfolding pop_step
  pop_step-IsQueue Consumer.outside s ok h =
      set_consumer-IsQueue k (Consumer.loaded s.ring.read_idx) s.pop_result s refl h
  pop_step-IsQueue (Consumer.loaded r) s ok h = elim (Bool-cases (r == s.ring.write_idx)) [
    | inl empty ↦
        rw (empty, if◌then◌else◌) (set_consumer-IsQueue k Consumer.outside (some false) s tt h)
    | inr some_wait ↦
        rw (some_wait, if◌then◌else◌)
          (set_consumer-IsQueue k (Consumer.filled r) s.pop_result s
            (
              ok,
              something_left k (length s.pushed) (length s.popped) h.behind
                  (λ e. differ r s.ring.write_idx some_wait (ok ∙ h.read_at ∙ e ∙ sym h.write_at)),
            )
            h)
  ]
  pop_step-IsQueue (Consumer.filled r) s (at, lt) h =
      set_consumer-IsQueue k (Consumer.moved r (s.ring.values r)) s.pop_result s
        (
          at,
          lt,
          ap (λ x. some (s.ring.values x)) (at ∙ h.read_at)
              ∙ h.kept (length s.popped) (omega arith) lt,
        )
        h
  pop_step-IsQueue (Consumer.moved r item) s (at, lt, e) h = record {
    write_at = h.write_at;
    read_at =
        ap (λ x. mask k (x + 1)) (at ∙ h.read_at)
        ∙ mask-next k (length s.popped)
        ∙ ap (λ n. n % capacity k) (sym (length-snoc s.popped item));
    behind = omega (arith, lt, length-snoc s.popped item);
    room = more_room _ _ _ _ h.room (length-snoc s.popped item);
    kept = λ i le less. h.kept i (omega (arith, le, length-snoc s.popped item)) less;
    order =
        ap (λ l. l ++ (item ∷ [])) h.order
        ∙ sym (take_next s.pushed (length s.popped) item e)
        ∙ ap (λ n. take n s.pushed) (next_count _ _ (length-snoc s.popped item));
    producer_ok = producer_more k item (mask k (r + 1)) s s.producer h.producer_ok;
    consumer_ok = tt;
  }
    where
      more_room : (a b c l : ℕ) → a < b + c → l ≡ b + 1 → a < l + c
      more_room a b c l h e = omega arith

      next_count : (n l : ℕ) → l ≡ n + 1 → suc n ≡ l
      next_count n l e = omega arith
