-- ===== src/Base/Lists.antt =====
-- List functions over the native numbers.
use Prim.Native.Nat.{ℕ, zero, suc, ◌+◌, ◌-◌, min}
use mathlib.Core.Path.{◌≡◌, refl, sym, ◌∙◌, ap}
use mathlib.Core.Bool.{false}
use pairion_client.Base.Tests.{ltb}
use mathlib.Core.List.{List, [], ◌∷◌, ◌++◌, map}
use native.Mathlib.Omega.{arith}

cut_amount : (n x y l t : ℕ) → l ≡ t - (x - n) → t ≡ x + y → t - n ≡ (x - n) + (l - n)
cut_amount n x y l t e f = omega arith

no_cut : (n l : ℕ) → ltb n l ≡ false → l - n ≡ 0
no_cut n l h = ground (arith, h)

module _ {ℓ} {A : Type ℓ} where
  abbrev pub length : List A → ℕ
  length [] = 0
  length (x ∷ xs) = suc (length xs)

  -- QByteArray::left and QList::first(n)
  abbrev pub take : ℕ → List A → List A
  take zero xs = []
  take (suc n) [] = []
  take (suc n) (x ∷ xs) = x ∷ take n xs

  -- QByteArray::mid(n)
  abbrev pub drop : ℕ → List A → List A
  drop zero xs = xs
  drop (suc n) [] = []
  drop (suc n) (x ∷ xs) = drop n xs

  -- QByteArray::right(n)
  abbrev pub right : ℕ → List A → List A
  right n xs = drop (length xs - n) xs

  abbrev pub replicate : ℕ → A → List A
  replicate zero a = []
  replicate (suc n) a = a ∷ replicate n a

  abbrev pub concat : List (List A) → List A
  concat [] = []
  concat (x ∷ xs) = x ++ concat xs

  pub length-append : (xs ys : List A) → length (xs ++ ys) ≡ length xs + length ys
  length-append [] ys = omega arith
  length-append (x ∷ xs) ys = omega (arith, length-append xs ys)

  pub take-append-drop : (n : ℕ) (xs : List A) → take n xs ++ drop n xs ≡ xs
  take-append-drop zero xs = refl
  take-append-drop (suc n) [] = refl
  take-append-drop (suc n) (x ∷ xs) = ap (◌∷◌ x) (take-append-drop n xs)

  pub length-take : (n : ℕ) (xs : List A) → length (take n xs) ≡ min n (length xs)
  length-take zero xs = omega arith
  length-take (suc n) [] = omega arith
  length-take (suc n) (x ∷ xs) = omega (arith, length-take n xs)

  pub length-drop : (n : ℕ) (xs : List A) → length (drop n xs) ≡ length xs - n
  length-drop zero xs = omega arith
  length-drop (suc n) [] = omega arith
  length-drop (suc n) (x ∷ xs) = omega (arith, length-drop n xs)

  -- A prefix of known length is split off exactly.
  pub take-append_exact : (xs ys : List A) → take (length xs) (xs ++ ys) ≡ xs
  take-append_exact [] ys = refl
  take-append_exact (x ∷ xs) ys = ap (◌∷◌ x) (take-append_exact xs ys)

  pub drop-append_exact : (xs ys : List A) → drop (length xs) (xs ++ ys) ≡ ys
  drop-append_exact [] ys = refl
  drop-append_exact (x ∷ xs) ys = drop-append_exact xs ys

  pub length-replicate : (n : ℕ) (a : A) → length (replicate n a) ≡ n
  length-replicate zero a = refl
  length-replicate (suc n) a = ap suc (length-replicate n a)

  -- A prefix that is taken from a list is the same from a longer one.
  pub take-append :
      (n : ℕ) (xs ys : List A) → ltb (length xs) n ≡ false → take n (xs ++ ys) ≡ take n xs
  take-append zero xs ys h = refl
  take-append (suc n) [] ys h = absurd (ground (arith, h))
  take-append (suc n) (x ∷ xs) ys h = ap (◌∷◌ x) (take-append n xs ys (ground (arith, h)))

  pub drop-append :
      (n : ℕ) (xs ys : List A) → ltb (length xs) n ≡ false → drop n (xs ++ ys) ≡ drop n xs ++ ys
  drop-append zero xs ys h = refl
  drop-append (suc n) [] ys h = absurd (ground (arith, h))
  drop-append (suc n) (x ∷ xs) ys h = drop-append n xs ys (ground (arith, h))

  drop-nil : (n : ℕ) → drop n [] ≡ []
  drop-nil zero = refl
  drop-nil (suc n) = refl

  pub drop-drop : (m n k : ℕ) (xs : List A) → k ≡ n + m → drop m (drop n xs) ≡ drop k xs
  drop-drop m zero k xs e = ap (λ j. drop j xs) (omega arith)
  drop-drop m (suc n) k [] e = drop-nil m ∙ sym (drop-nil k)
  drop-drop m (suc n) zero (x ∷ xs) e = absurd (omega arith)
  drop-drop m (suc n) (suc k) (x ∷ xs) e = drop-drop m n k xs (omega arith)

  pub length-right : (n : ℕ) (xs : List A) → length (right n xs) ≡ min n (length xs)
  length-right n xs = omega (arith, length-drop (length xs - n) xs)

  -- The end of what follows is not changed by cutting what comes before to its end.
  pub right-append_right :
      (n : ℕ) (xs ys : List A) → right n (right n xs ++ ys) ≡ right n (xs ++ ys)
  right-append_right n xs ys =
      let cut = length xs - n in
      ap (right n) (sym (drop-append cut xs ys (ground arith)))
      ∙ drop-drop (length (drop cut (xs ++ ys)) - n) cut (length (xs ++ ys) - n) (xs ++ ys) (
          cut_amount n (length xs) (length ys) (length (drop cut (xs ++ ys))) (length (xs ++ ys))
            (length-drop cut (xs ++ ys)) (length-append xs ys))

  pub right_whole : (n : ℕ) (xs : List A) → ltb n (length xs) ≡ false → right n xs ≡ xs
  right_whole n xs h = ap (λ k. drop k xs) (no_cut n (length xs) h)

pub length-map {ℓ κ} :
    {A : Type ℓ} {B : Type κ} (f : A → B) (xs : List A) → length (map f xs) ≡ length xs
length-map f [] = refl
length-map f (x ∷ xs) = ap suc (length-map f xs)
