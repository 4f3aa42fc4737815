-- ===== src/RingBuffer/Indices.antt =====
-- src/audio/ring_buffer.h: the mask of an index, and indices that have run around.
use Prim.Native.Nat.{bit_and-bitwise, digits, min}
use Prim.Native.Nat.{◌∣◌}
use native.Mathlib.Nat.{
  dvd_refl, dvd-mul_right_of_dvd, add-mod-mod, mod-eq-zero_of_dvd, mod-mod, mod-mod_of_dvd,
  pow-le-pow_right, eq-or-lt_of_le, mod-add-mod, add-mod_right, div-add-mod, mod-lt,
  add-mul-mod_self_left, mod-eq_of_lt, pow-suc, pow-succ', zero-mod,
}
use pairion_client.Base.{
  ℕ, zero, suc, ◌+◌, ◌-◌, ◌*◌, ◌/◌, ◌%◌, ◌^◌, ◌≤◌, ◌<◌, ◌≡◌, refl, sym, ◌∙◌, ap, subst, ◌≢◌, inl,
  inr, true, false, arith, ltb, Bool-cases,
}
use pairion_client.RingBuffer.{capacity, mask}

twice_pos : (m p : ℕ) → p ≡ m * 2 → 0 < m → 0 < p
twice_pos m p e h = omega arith

pub capacity_pos : (k : ℕ) → 0 < capacity k
capacity_pos zero = omega arith
capacity_pos (suc k) = twice_pos (2 ^ k) (2 ^ suc k) (pow-suc 2 k) (capacity_pos k)

recombine : (x m h q r : ℕ) → x ≡ 2 * h + x % 2 → m * q + r ≡ h → x ≡ (r * 2 + x % 2) + (2 * m) * q
recombine x m h q r e f = omega arith

-- The remainder by twice a number, from the last binary digit and the others.
mod-double : (x m : ℕ) → 0 < m → x % (2 * m) ≡ (x / 2 % m) * 2 + x % 2
mod-double x m pos =
    let rest = (x / 2 % m) * 2 + x % 2 in
    ap (λ y. y % (2 * m))
      (recombine x m (x / 2) (x / 2 / m) (x / 2 % m) (omega arith) (div-add-mod (x / 2) m))
    ∙ add-mul-mod_self_left rest (2 * m) (x / 2 / m)
    ∙ mod-eq_of_lt (below (x / 2 % m) (x % 2) (mod-lt (x / 2) pos) (omega arith))
  where
    below : (r b : ℕ) → r < m → b < 2 → r * 2 + b < 2 * m
    below r b h g = omega arith

half_mask : (m p : ℕ) → p ≡ m * 2 → 0 < m → ((p - 1) / 2 ≡ m - 1) × ((p - 1) % 2 ≡ 1)
half_mask m p e h = (omega arith, omega arith)

low_digits : (n k a : ℕ) → a ≤ n → digits (λ b. 0) min n a (2 ^ k - 1) ≡ a % 2 ^ k
low_digits zero k a h = let none_left : a ≡ 0 = omega arith in rw none_left (sym (zero-mod (2 ^ k)))
low_digits (suc n) k zero h = sym (zero-mod (2 ^ k))
low_digits (suc n) zero (suc a) h =
    let smaller : suc a / 2 ≤ n = omega arith in
    omega (arith, low_digits n zero (suc a / 2) smaller)
low_digits (suc n) (suc k) (suc a) h =
    let smaller : suc a / 2 ≤ n = omega arith in
    let (half, odd) = half_mask (2 ^ k) (2 ^ suc k) (pow-suc 2 k) (capacity_pos k) in
    rw (half, odd, low_digits n k (suc a / 2) smaller)
      (last_digit (suc a / 2 % 2 ^ k) (suc a)
        ∙ sym (mod-double (suc a) (2 ^ k) (capacity_pos k))
        ∙ ap (λ p. suc a % p) (sym (pow-succ' 2 k)))
  where
    last_digit : (r x : ℕ) → r * 2 + min (x % 2) 1 ≡ r * 2 + x % 2
    last_digit r x = omega arith

-- The mask is the remainder by the capacity.
pub mask-mod : (k x : ℕ) → mask k x ≡ x % capacity k
unfolding mask
mask-mod k x = bit_and-bitwise x (capacity k - 1) ∙ low_digits x k x (omega arith)

-- The next index of a count that has run around.
pub mask-next : (k n : ℕ) → mask k (n % capacity k + 1) ≡ (n + 1) % capacity k
mask-next k n = mask-mod k (n % capacity k + 1) ∙ mod-add-mod n (capacity k) 1

same_count : (c q p r a b : ℕ) → c * q + r ≡ a → c * p + r ≡ b → a ≤ b → b < a + c → a ≡ b
same_count c zero zero r a b e f le lt = omega arith
same_count c zero (suc p) r a b e f le lt = absurd (omega arith)
same_count c (suc q) zero r a b e f le lt = absurd (omega arith)
same_count c (suc q) (suc p) r a b e f le lt =
    let same = same_count c q p r (c * q + r) (c * p + r) refl refl (omega arith) (omega arith) in
    omega arith

-- Two counts in one slot, less than a capacity apart, are the same.
pub same_slot : (k a b : ℕ) → a ≤ b → b < a + capacity k → a % capacity k ≡ b % capacity k → a ≡ b
same_slot k a b le lt e =
    same_count (capacity k) (a / capacity k) (b / capacity k) (a % capacity k) a b
      (div-add-mod a (capacity k))
      (ap (λ r. capacity k * (b / capacity k) + r) e ∙ div-add-mod b (capacity k)) le lt

-- A test that fails: the next slot of `w` counts is not the slot of `r` counts, so there is room.
pub room_left :
    (k w r : ℕ)
    → r ≤ w
    → w < r + capacity k
    → ((w + 1) % capacity k ≢ r % capacity k)
    → w + 1 < r + capacity k
room_left k w r le lt ne = elim (eq-or-lt_of_le (next_le w (r + capacity k) lt)) [
  | inl e ↦ absurd (ne (ap (λ x. x % capacity k) e ∙ add-mod_right r (capacity k)))
  | inr l ↦ l
]
  where
    next_le : (a b : ℕ) → a < b → a + 1 ≤ b
    next_le a b h = omega arith

pub something_left : (k w r : ℕ) → r ≤ w → (r % capacity k ≢ w % capacity k) → r < w
something_left k w r le ne = elim (eq-or-lt_of_le le) [
  | inl e ↦ absurd (ne (ap (λ x. x % capacity k) e))
  | inr l ↦ l
]

pow-dvd-pow : (k j m : ℕ) → m ≡ k + j → 2 ^ k ∣ 2 ^ m
pow-dvd-pow k zero m e =
    let same : k ≡ m = omega arith in subst (λ i. 2 ^ k ∣ 2 ^ i) same (dvd_refl (2 ^ k))
pow-dvd-pow k (suc j) zero e = absurd (omega arith)
pow-dvd-pow k (suc j) (suc m) e =
    subst (λ p. 2 ^ k ∣ p) (sym (pow-suc 2 m))
      (dvd-mul_right_of_dvd (2 ^ k) (pow-dvd-pow k j m (omega arith)) 2)

-- Two remainders that a count takes to the same slot are the same.
same_remainder :
    (k x n r : ℕ)
    → x < capacity k
    → n < capacity k
    → (x + r) % capacity k ≡ (n + r) % capacity k
    → x ≡ n
same_remainder k x n r hx hn e = elim (Bool-cases (ltb n x)) [
  | inr le ↦
      let le' = at_most_of x n le in
      let same = same_slot k (x + r) (n + r) (omega arith) (near _ _ _ _ hn) e in omega arith
  | inl lt ↦
      let le' = less_of x n lt in
      let same = same_slot k (n + r) (x + r) (omega arith) (near _ _ _ _ hx) (sym e) in omega arith
]
  where
    at_most_of : (a b : ℕ) → ltb b a ≡ false → a ≤ b
    at_most_of a b h = ground (arith, h)

    less_of : (a b : ℕ) → ltb b a ≡ true → b ≤ a
    less_of a b h = ground (arith, h)

    near : (a b r c : ℕ) → a < c → a + r < (b + r) + c
    near a b r c h = omega arith

-- The masked difference of the indices is the difference of the counts, though it wraps at 2 ^ 64.
pub masked_difference :
    (k w r : ℕ)
    → k ≤ 64
    → r ≤ w
    → w < r + capacity k
    → mask k ((2 ^ 64 + w % capacity k - r % capacity k) % 2 ^ 64) ≡ w - r
masked_difference k w r small le lt =
    let c = capacity k in
    let total = 2 ^ 64 + w % c - r % c in
    let divides : 2 ^ k ∣ 2 ^ 64 = pow-dvd-pow k (64 - k) 64 (omega arith) in
    let below : r % c ≤ 2 ^ 64 =
      at_most (r % c) c (2 ^ 64) (mod-lt r (capacity_pos k))
        (pow-le-pow_right (omega arith) small) in
    let count =
      same_remainder k (total % c) (w - r) r (mod-lt total (capacity_pos k)) (few w r c le lt) (
        mod-add-mod total c r
        ∙ sym (add-mod-mod total r c)
        ∙ ap (λ x. x % c) (cancel (2 ^ 64) (w % c) (r % c) below)
        ∙ sym (mod-add-mod (2 ^ 64) c (w % c))
        ∙ ap (λ z. (z + w % c) % c) (mod-eq-zero_of_dvd c divides)
        ∙ ap (λ x. x % c) (from_zero (w % c))
        ∙ mod-mod w c
        ∙ ap (λ x. x % c) (back w r le)) in
    mask-mod k (total % 2 ^ 64) ∙ mod-mod_of_dvd c total divides ∙ count
  where
    from_zero : (a : ℕ) → 0 + a ≡ a
    from_zero a = omega arith

    at_most : (a b m : ℕ) → a < b → b ≤ m → a ≤ m
    at_most a b m h g = omega arith

    few : (a b c : ℕ) → b ≤ a → a < b + c → a - b < c
    few a b c h g = omega arith

    cancel : (m a b : ℕ) → b ≤ m → (m + a - b) + b ≡ m + a
    cancel m a b h = omega arith

    back : (a b : ℕ) → b ≤ a → a ≡ (a - b) + b
    back a b h = omega arith
