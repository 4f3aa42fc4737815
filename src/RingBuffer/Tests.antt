-- ===== src/RingBuffer/Tests.antt =====
-- The ring buffer at concrete inputs, with a capacity of two.
use pairion_client.Base.{ℕ, ◌<◌, ◌≡◌, refl, true, false, some, [], ◌∷◌, ◌++◌, arith}
use pairion_client.RingBuffer.{
  System, capacity, mask, push, push_step, pop_step, size, is_full, is_empty, new,
}
use pairion_client.RingBuffer.Fifo.{
  Reach, begun, pushing, push_steps, pop_steps, contents, Reach-contents,
}

-- A push of one value up to its last step; the consumer begins a pop in between.
abbrev s0 : System ℕ
s0 = new 0

abbrev s1 : System ℕ
s1 = push 1 7 s0.producer s0

abbrev s2 : System ℕ
s2 = push_step 1 s1.producer s1

abbrev s3 : System ℕ
s3 = pop_step 1 s2.consumer s2

abbrev s4 : System ℕ
s4 = push_step 1 s3.producer s3

abbrev s5 : System ℕ
s5 = push_step 1 s4.producer s4

-- The next push finds the buffer full.
abbrev s6 : System ℕ
s6 = push 1 8 s5.producer s5

abbrev s7 : System ℕ
s7 = push_step 1 s6.producer s6

pushed_once :
    (s5.pushed ≡ 7 ∷ [])
    × (size 1 s5.ring ≡ 1)
    × (is_full 1 s5.ring ≡ true)
    × (is_empty 1 s5.ring ≡ false)
unfolding push_step pop_step mask size is_full is_empty
pushed_once = (refl, refl, refl, refl)

refused : (s7.push_result ≡ some false) × (s7.pushed ≡ 7 ∷ [])
unfolding push_step pop_step mask
refused = (refl, refl)

reach : Reach 1 0 s7
reach = push_steps (pushing 8 (push_steps (push_steps (pop_steps (push_steps (pushing 7 begun))))))

Reach-contents_example :
    (s7.popped ++ contents 1 s7.ring ≡ s7.pushed) × (size 1 s7.ring < capacity 1)
Reach-contents_example = Reach-contents 1 0 s7 (omega arith) reach
