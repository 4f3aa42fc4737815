-- ===== src/RingBuffer/Queue.antt =====
-- src/audio/ring_buffer.h: the indices, the slots and the local variables against what was pushed and popped.
use pairion_client.Base.{
  ℕ, zero, suc, ◌+◌, ◌%◌, ◌≤◌, ◌<◌, ◌≡◌, refl, sym, ◌∙◌, ap, ◌≢◌, Bool, true, false, Option, none,
  some, List, [], ◌∷◌, ◌++◌, arith, ◌==◌, length, take, length-append,
}
use mathlib.Core.Option.{some-injective}
use native.Mathlib.Nat.{zero-mod}
use pairion_client.RingBuffer.{Producer, Consumer, System, capacity, push, new}
use pairion_client.RingBuffer.Indices.{capacity_pos}

module _ {A : Type 0} where
  abbrev pub get_elem? : List A → ℕ → Option A
  get_elem? [] i = none
  get_elem? (x ∷ xs) zero = some x
  get_elem? (x ∷ xs) (suc i) = get_elem? xs i

  pub get_elem?-append :
      (xs ys : List A) (i : ℕ) → i < length xs → get_elem? (xs ++ ys) i ≡ get_elem? xs i
  get_elem?-append [] ys i h = absurd (omega arith)
  get_elem?-append (x ∷ xs) ys zero h = refl
  get_elem?-append (x ∷ xs) ys (suc i) h = get_elem?-append xs ys i (omega arith)

  pub get_elem?-append_last :
      (xs : List A) (y : A) (i : ℕ) → i ≡ length xs → get_elem? (xs ++ (y ∷ [])) i ≡ some y
  get_elem?-append_last [] y zero h = refl
  get_elem?-append_last [] y (suc i) h = absurd (omega arith)
  get_elem?-append_last (x ∷ xs) y zero h = absurd (omega arith)
  get_elem?-append_last (x ∷ xs) y (suc i) h = get_elem?-append_last xs y i (omega arith)

  pub take_next :
      (xs : List A) (n : ℕ) (v : A)
      → some v ≡ get_elem? xs n
      → take (suc n) xs ≡ take n xs ++ (v ∷ [])
  take_next [] n v e = absurd (ground (arith, e))
  take_next (x ∷ xs) zero v e = ap (λ y. y ∷ []) (sym (some-injective v x e))
  take_next (x ∷ xs) (suc n) v e = ap (◌∷◌ x) (take_next xs n v e)

pub same_test : (a : ℕ) → (a == a) ≡ true
same_test a = ground arith

pub differ_test : (a b : ℕ) → a ≢ b → (a == b) ≡ false
differ_test a b ne = ground (arith, ne)

pub length-snoc : {A : Type 0} (xs : List A) (x : A) → length (xs ++ (x ∷ [])) ≡ length xs + 1
length-snoc xs x = length-append xs (x ∷ [])

pub differ : (a b : ℕ) → (a == b) ≡ false → a ≢ b
differ a b e same = ground (arith, e, same)

module _ {A : Type 0} (k : ℕ) where
  -- What the local variables of a push say.
  abbrev pub ProducerOk : System A → Producer A → Type 0
  ProducerOk s Producer.outside = Unit {0}
  ProducerOk s (Producer.loaded item w) = w ≡ s.ring.write_idx
  ProducerOk s (Producer.free item w) =
      (w ≡ s.ring.write_idx) × (length s.pushed + 1 < length s.popped + capacity k)
  ProducerOk s (Producer.stored item w) =
      (w ≡ s.ring.write_idx)
      × (length s.pushed + 1 < length s.popped + capacity k)
      × (s.ring.values w ≡ item)

  -- What the local variables of a pop say.
  abbrev pub ConsumerOk : System A → Consumer A → Type 0
  ConsumerOk s Consumer.outside = Unit {0}
  ConsumerOk s (Consumer.loaded r) = r ≡ s.ring.read_idx
  ConsumerOk s (Consumer.filled r) = (r ≡ s.ring.read_idx) × (length s.popped < length s.pushed)
  ConsumerOk s (Consumer.moved r item) =
      (r ≡ s.ring.read_idx)
      × (length s.popped < length s.pushed)
      × (some item ≡ get_elem? s.pushed (length s.popped))

  -- The indices count the pushes and pops around the buffer, fewer elements than the capacity wait,
  -- each in its slot, and what was popped is the beginning of what was pushed.
  pub record IsQueue (s : System A) : Type 0 where
    pub write_at : s.ring.write_idx ≡ length s.pushed % capacity k
    pub read_at : s.ring.read_idx ≡ length s.popped % capacity k
    pub behind : length s.popped ≤ length s.pushed
    pub room : length s.pushed < length s.popped + capacity k
    pub kept :
        (i : ℕ)
        → length s.popped ≤ i
        → i < length s.pushed
        → some (s.ring.values (i % capacity k)) ≡ get_elem? s.pushed i
    pub order : s.popped ≡ take (length s.popped) s.pushed
    pub producer_ok : ProducerOk s s.producer
    pub consumer_ok : ConsumerOk s s.consumer

  pub new-IsQueue : (default : A) → IsQueue (new default)
  new-IsQueue default = record {
    write_at = sym (zero-mod (capacity k));
    read_at = sym (zero-mod (capacity k));
    behind = omega arith;
    room = ap_pos (capacity k) (capacity_pos k);
    kept = λ i le lt. absurd (omega arith);
    order = refl;
    producer_ok = tt;
    consumer_ok = tt;
  }
    where
      ap_pos : (c : ℕ) → 0 < c → 0 < 0 + c
      ap_pos c h = omega arith

  pub push-IsQueue :
      (item : A) (p : Producer A) (s : System A) → IsQueue s → IsQueue (push k item p s)
  push-IsQueue item Producer.outside s h = record {
    write_at = h.write_at;
    read_at = h.read_at;
    behind = h.behind;
    room = h.room;
    kept = h.kept;
    order = h.order;
    producer_ok = refl;
    consumer_ok = h.consumer_ok;
  }
  push-IsQueue item (Producer.loaded x w) s h = h
  push-IsQueue item (Producer.free x w) s h = h
  push-IsQueue item (Producer.stored x w) s h = h

  -- A push that only goes on in its thread.
  pub set_producer-IsQueue :
      (p : Producer A) (result : Option Bool) (s : System A)
      → ProducerOk s p
      → IsQueue s
      → IsQueue (record s { producer = p; push_result = result })
  set_producer-IsQueue p result s ok h = record {
    write_at = h.write_at;
    read_at = h.read_at;
    behind = h.behind;
    room = h.room;
    kept = h.kept;
    order = h.order;
    producer_ok = ok;
    consumer_ok = h.consumer_ok;
  }

  pub set_consumer-IsQueue :
      (c : Consumer A) (result : Option Bool) (s : System A)
      → ConsumerOk s c
      → IsQueue s
      → IsQueue (record s { consumer = c; pop_result = result })
  set_consumer-IsQueue c result s ok h = record {
    write_at = h.write_at;
    read_at = h.read_at;
    behind = h.behind;
    room = h.room;
    kept = h.kept;
    order = h.order;
    producer_ok = h.producer_ok;
    consumer_ok = ok;
  }

  -- What a pop knows stays true when something is pushed.
  pub consumer_more :
      (item : A) (w : ℕ) (s : System A) (c : Consumer A)
      → ConsumerOk s c
      → ConsumerOk
          (record s {
            ring = record s.ring { write_idx = w };
            producer = Producer.outside;
            pushed = s.pushed ++ (item ∷ []);
            push_result = some true;
          })
          c
  consumer_more item w s Consumer.outside ok = tt
  consumer_more item w s (Consumer.loaded r) ok = ok
  consumer_more item w s (Consumer.filled r) (at, lt) =
      (at, omega (arith, length-snoc s.pushed item))
  consumer_more item w s (Consumer.moved r x) (at, lt, e) = (
    at,
    omega (arith, length-snoc s.pushed item),
    e ∙ sym (get_elem?-append s.pushed (item ∷ []) (length s.popped) lt),
  )

  -- What a push knows stays true when something is popped.
  pub producer_more :
      (item : A) (r : ℕ) (s : System A) (p : Producer A)
      → ProducerOk s p
      → ProducerOk
          (record s {
            ring = record s.ring { read_idx = r };
            consumer = Consumer.outside;
            popped = s.popped ++ (item ∷ []);
            pop_result = some true;
          })
          p
  producer_more item r s Producer.outside ok = tt
  producer_more item r s (Producer.loaded x w) ok = ok
  producer_more item r s (Producer.free x w) (at, free_slot) =
      (at, more_room _ _ _ _ free_slot (length-snoc s.popped item))
    where
      more_room : (a b c l : ℕ) → a < b + c → l ≡ b + 1 → a < l + c
      more_room a b c l h e = omega arith
  producer_more item r s (Producer.stored x w) (at, free_slot, e) =
      (at, more_room _ _ _ _ free_slot (length-snoc s.popped item), e)
    where
      more_room : (a b c l : ℕ) → a < b + c → l ≡ b + 1 → a < l + c
      more_room a b c l h e = omega arith
