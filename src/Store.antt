-- ===== src/Store.antt =====
-- QSettings, which the settings and the device identity share: a parameter, with what Qt documents
-- of it as `StoreLaws`.
pub mod Toy
use pairion_client.Base.{◌≡◌, String, Bool, str_eq, if◌then◌else◌}
use pairion_client.Qt.{Qt, ℤ, IsInt32}

pub record QSettings (q : Qt) : Type 1 where
  pub Store : Type 0
  pub Value : Type 0
  pub of_double : q.Double → Value
  pub of_int : ℤ → Value
  pub of_string : String → Value
  pub to_double : Value → q.Double
  pub to_int : Value → ℤ
  pub to_string : Value → String
  -- the invalid QVariant
  pub invalid : Value
  -- `value(key, default)` and `setValue`
  pub value : Store → String → Value → Value
  pub set_value : String → Value → Store → Store
  -- `==` of doubles
  pub equal : q.Double → q.Double → Bool

pub record StoreLaws {q : Qt} (s : QSettings q) : Type 0 where
  pub value-set_value :
      (k j : String) (v d : s.Value) (store : s.Store)
      → s.value (s.set_value k v store) j d ≡ (if str_eq k j then v else s.value store j d)
  pub to_double-of_double : (d : q.Double) → s.to_double (s.of_double d) ≡ d
  pub to_int-of_int : (n : ℤ) → IsInt32 n → s.to_int (s.of_int n) ≡ n
  pub to_string-of_string : (t : String) → s.to_string (s.of_string t) ≡ t
