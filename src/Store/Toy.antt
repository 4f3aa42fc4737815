-- ===== src/Store/Toy.antt =====
-- A QSettings that runs: an association list, newest first.
use pairion_client.Base.{ℕ, refl, String, List, [], ◌∷◌, str_eq, ◌==◌, if◌then◌else◌}
use pairion_client.Qt.{ℤ, pos}
use pairion_client.Qt.Toy.{toy}
use pairion_client.Store.{QSettings, StoreLaws}

pub data Stored : Type 0 where
  nothing : Stored
  double : ℕ → Stored
  int : ℤ → Stored
  text : String → Stored

abbrev as_double : Stored → ℕ
as_double (double d) = d
as_double _ = 0

abbrev as_int : Stored → ℤ
as_int (int n) = n
as_int _ = pos 0

abbrev as_text : Stored → String
as_text (text t) = t
as_text _ = ""

abbrev value : List (String × Stored) → String → Stored → Stored
value [] k d = d
value ((j, v) ∷ store) k d = if str_eq j k then v else value store k d

abbrev pub toy_settings : QSettings toy
toy_settings = record {
  Store = List (String × Stored);
  Value = Stored;
  of_double = double;
  of_int = int;
  of_string = text;
  to_double = as_double;
  to_int = as_int;
  to_string = as_text;
  invalid = nothing;
  value = value;
  set_value = λ k v store. (k, v) ∷ store;
  equal = λ a b. a == b;
}

pub toy_store : StoreLaws toy_settings
toy_store = record {
  value-set_value = λ k j v d store. refl;
  to_double-of_double = λ d. refl;
  to_int-of_int = λ n h. refl;
  to_string-of_string = λ t. refl;
}
