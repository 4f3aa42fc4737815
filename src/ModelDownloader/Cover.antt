-- ===== src/ModelDownloader/Cover.antt =====
-- src/core/model_downloader.cpp: a manifest against what is on the disk and what is pending.
use pairion_client.Base.{
  ℕ, suc, ◌+◌, ◌≡◌, refl, sym, ◌∙◌, ap, subst, ◌⊎◌, inl, inr, String, Bool, true, false, ◌&&◌,
  Option, some, List, [], ◌∷◌, map, arith, str_eq, str_eq-cases, str_eq_self, if◌then◌else◌, length,
  holds, IsDistinct, is_some,
}
use pairion_client.ModelDownloader.{ModelEntry, Files, put_file, verify_file, sort_cached}

-- The entry is one of these.
abbrev pub In : ModelEntry → List ModelEntry → Type 0
In e [] = ⊥
In e (x ∷ xs) = (e ≡ x) ⊎ In e xs

abbrev pub names : List ModelEntry → List String
names = map (λ e. e.name)

abbrev pub AllIn : List ModelEntry → List ModelEntry → Type 0
AllIn [] manifest = Unit {0}
AllIn (x ∷ xs) manifest = In x manifest × AllIn xs manifest

AllIn-cons :
    (x : ModelEntry) (xs manifest : List ModelEntry) → AllIn xs manifest → AllIn xs (x ∷ manifest)
AllIn-cons x [] manifest h = tt
AllIn-cons x (y ∷ ys) manifest (i, h) = (inr i, AllIn-cons x ys manifest h)

holds_name : (e : ModelEntry) (es : List ModelEntry) → In e es → holds (names es) e.name ≡ true
holds_name e [] i = absurd i
holds_name e (x ∷ xs) (inl same) = rw (← same, str_eq_self e.name) refl
holds_name e (x ∷ xs) (inr i) = ground (arith, holds_name e xs i)

-- In a manifest without equal names, an entry is known by its name.
same_name :
    (es : List ModelEntry) (e x : ModelEntry)
    → IsDistinct (names es)
    → In e es
    → In x es
    → e.name ≡ x.name
    → e ≡ x
same_name [] e x d i j n = absurd i
same_name (y ∷ ys) e x (fresh, d) (inl i) (inl j) n = i ∙ sym j
same_name (y ∷ ys) e x (fresh, d) (inl i) (inr j) n =
    absurd
      (clash (sym (holds_name x ys j) ∙ ap (holds (names ys)) (sym n ∙ ap (λ a. a.name) i) ∙ fresh))
  where
    clash : true ≡ false → ⊥
    clash h = ground (arith, h)
same_name (y ∷ ys) e x (fresh, d) (inr i) (inl j) n =
    absurd
      (clash (sym (holds_name e ys i) ∙ ap (holds (names ys)) (n ∙ ap (λ a. a.name) j) ∙ fresh))
  where
    clash : true ≡ false → ⊥
    clash h = ground (arith, h)
same_name (y ∷ ys) e x (fresh, d) (inr i) (inr j) n = same_name ys e x d i j n

module _ (sha256_hex : List ℕ → List ℕ) (writable : String → Bool) where
  -- The file of the entry is there and has its hash.
  abbrev pub IsVerified : Files → ModelEntry → Type 0
  IsVerified files e = verify_file sha256_hex writable files e.name e.sha256 ≡ true

  -- Every entry is verified or still pending.
  abbrev pub Covered : Files → List ModelEntry → List ModelEntry → Type 0
  Covered files pending [] = Unit {0}
  Covered files pending (e ∷ es) = (IsVerified files e ⊎ In e pending) × Covered files pending es

  -- Every entry is verified.
  abbrev pub AreVerified : Files → List ModelEntry → Type 0
  AreVerified files [] = Unit {0}
  AreVerified files (e ∷ es) = IsVerified files e × AreVerified files es

  Covered-cons :
      (files : Files) (x : ModelEntry) (pending es : List ModelEntry)
      → Covered files pending es
      → Covered files (x ∷ pending) es
  Covered-cons files x pending [] h = tt
  Covered-cons files x pending (e ∷ es) (inl v, h) = (inl v, Covered-cons files x pending es h)
  Covered-cons files x pending (e ∷ es) (inr i, h) =
      (inr (inr i), Covered-cons files x pending es h)

  abbrev pub IsSorted : Files → List ModelEntry → ℕ × List ModelEntry → Type 0
  IsSorted files manifest (completed, pending) =
      Covered files pending manifest
      × AllIn pending manifest
      × (completed + length pending ≡ length manifest)

  pub sort_cached-IsSorted :
      (files : Files) (manifest : List ModelEntry)
      → IsSorted files manifest (sort_cached sha256_hex writable files manifest)
  unfolding sort_cached
  sort_cached-IsSorted files [] = (tt, tt, refl)
  sort_cached-IsSorted files (e ∷ manifest) =
      by_test (is_some (files e.name)) (verify_file sha256_hex writable files e.name e.sha256) refl
        (sort_cached sha256_hex writable files manifest) (sort_cached-IsSorted files manifest)
    where
      by_test :
          (there ok : Bool)
          → verify_file sha256_hex writable files e.name e.sha256 ≡ ok
          → (r : ℕ × List ModelEntry) → IsSorted files manifest r
          → IsSorted files (e ∷ manifest) (if there && ok then (suc r.0, r.1) else (r.0, e ∷ r.1))
      by_test true true v (completed, pending) (cover, inside, count) =
          ((inl v, cover), AllIn-cons e pending manifest inside, omega arith)
      by_test true false v (completed, pending) (cover, inside, count) = (
        (inr (inl refl), Covered-cons files e pending manifest cover),
        (inl refl, AllIn-cons e pending manifest inside),
        omega arith,
      )
      by_test false ok v (completed, pending) (cover, inside, count) = (
        (inr (inl refl), Covered-cons files e pending manifest cover),
        (inl refl, AllIn-cons e pending manifest inside),
        omega arith,
      )

  put_file-IsVerified :
      (files : Files) (e : ModelEntry) (name : String) (contents : Option (List ℕ))
      → str_eq e.name name ≡ false
      → IsVerified files e
      → IsVerified (put_file name contents files) e
  unfolding verify_file
  put_file-IsVerified files e name contents other v = rw (other, if◌then◌else◌) v

  -- The first pending entry is written and verified: it is covered by its file from now on.
  pub put_file-Covered :
      (manifest : List ModelEntry)
      → IsDistinct (names manifest)
      → (x : ModelEntry) (bytes : List ℕ) (pending : List ModelEntry) (files : Files)
      → In x manifest
      → IsVerified (put_file x.name (some bytes) files) x
      → Covered files (x ∷ pending) manifest
      → Covered (put_file x.name (some bytes) files) pending manifest
  put_file-Covered manifest distinct x bytes pending files inside written cover =
      go manifest (λ e i. i) cover
    where
      one :
          (e : ModelEntry)
          → In e manifest
          → IsVerified files e ⊎ In e (x ∷ pending)
          → IsVerified (put_file x.name (some bytes) files) e ⊎ In e pending
      one e i (inl v) = elim (str_eq-cases e.name x.name) [
        | inl same ↦ inl (
            subst (IsVerified (put_file x.name (some bytes) files))
              (sym (same_name manifest e x distinct i inside same)) written)
        | inr other ↦ inl (put_file-IsVerified files e x.name (some bytes) other v)
      ]
      one e i (inr (inl same)) =
          inl (subst (IsVerified (put_file x.name (some bytes) files)) (sym same) written)
      one e i (inr (inr waits)) = inr waits

      go :
          (es : List ModelEntry)
          → ((e : ModelEntry) → In e es → In e manifest)
          → Covered files (x ∷ pending) es
          → Covered (put_file x.name (some bytes) files) pending es
      go [] inc h = tt
      go (e ∷ es) inc (c, h) = (one e (inc e (inl refl)) c, go es (λ a i. inc a (inr i)) h)
