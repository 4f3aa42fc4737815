-- ===== src/Base/Assoc.antt =====
-- QMap as an association list, and QStringList's search and removal.
use mathlib.Core.Path.{◌≡◌, refl}
use mathlib.Core.Bool.{Bool, true, false, ◌||◌, ◌&&◌, not}
use mathlib.Core.Option.{Option, none, some}
use mathlib.Core.List.{List, [], ◌∷◌, ◌++◌}
use Prim.Native.String.{String}
use native.Mathlib.Omega.{arith}
use text.Mathlib.TextEquality.{eq_iff}
use pairion_client.Base.Tests.{str_eq, if◌then◌else◌}

-- QStringList::contains
abbrev pub holds : List String → String → Bool
holds [] s = false
holds (x ∷ xs) s = str_eq x s || holds xs s

-- QStringList::removeAll
abbrev pub remove_all : String → List String → List String
remove_all s [] = []
remove_all s (x ∷ xs) = if str_eq x s then remove_all s xs else x ∷ remove_all s xs

-- No text occurs twice.
abbrev pub IsDistinct : List String → Type 0
IsDistinct [] = Unit {0}
IsDistinct (x ∷ xs) = (holds xs x ≡ false) × IsDistinct xs

pub holds-append :
    (xs : List String) (y s : String) → holds (xs ++ (y ∷ [])) s ≡ (holds xs s || str_eq y s)
holds-append [] y s = ground arith
holds-append (x ∷ xs) y s = ground (arith, holds-append xs y s)

pub append-IsDistinct :
    (xs : List String) (y : String)
    → IsDistinct xs
    → holds xs y ≡ false
    → IsDistinct (xs ++ (y ∷ []))
append-IsDistinct [] y d h = (refl, tt)
append-IsDistinct (x ∷ xs) y d h =
    ground (arith, holds-append xs y x, eq_iff x y, eq_iff y x, append-IsDistinct xs y d.1)

pub holds-remove_all :
    (s : String) (xs : List String) (t : String)
    → holds (remove_all s xs) t ≡ (holds xs t && not (str_eq s t))
holds-remove_all s [] t = refl
holds-remove_all s (x ∷ xs) t =
    ground (arith, eq_iff x s, eq_iff s t, eq_iff x t, holds-remove_all s xs t)

pub remove_all-IsDistinct :
    (s : String) (xs : List String) → IsDistinct xs → IsDistinct (remove_all s xs)
remove_all-IsDistinct s [] d = tt
remove_all-IsDistinct s (x ∷ xs) d =
    ground (arith, holds-remove_all s xs x, remove_all-IsDistinct s xs d.1)

module _ {ℓ} {V : Type ℓ} where
  -- QMap::operator[] on the left of an assignment
  abbrev pub assign : String → V → List (String × V) → List (String × V)
  assign k v [] = (k, v) ∷ []
  assign k v ((j, w) ∷ m) = if str_eq j k then (j, v) ∷ m else (j, w) ∷ assign k v m

  -- QMap::remove
  abbrev pub erase : String → List (String × V) → List (String × V)
  erase k [] = []
  erase k ((j, w) ∷ m) = if str_eq j k then erase k m else (j, w) ∷ erase k m

  abbrev pub lookup : String → List (String × V) → Option V
  lookup k [] = none
  lookup k ((j, v) ∷ m) = if str_eq j k then some v else lookup k m

  pub lookup-assign :
      (k j : String) (v : V) (m : List (String × V))
      → lookup j (assign k v m) ≡ (if str_eq k j then some v else lookup j m)
  lookup-assign k j v [] = refl
  lookup-assign k j v ((i, w) ∷ m) =
      ground (arith, eq_iff k j, eq_iff i k, eq_iff i j, lookup-assign k j v m)

  pub lookup-erase :
      (k j : String) (m : List (String × V))
      → lookup j (erase k m) ≡ (if str_eq k j then none else lookup j m)
  lookup-erase k j [] = ground arith
  lookup-erase k j ((i, w) ∷ m) =
      ground (arith, eq_iff k j, eq_iff i k, eq_iff i j, lookup-erase k j m)

  abbrev pub is_some : Option V → Bool
  is_some none = false
  is_some (some v) = true
