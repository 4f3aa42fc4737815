-- ===== src/Qt.antt =====
-- What the program takes from Qt and does not implement: doubles, the JSON classes, QVariant and
-- QUuid. Each use of them is a call of a field of `Qt`; what is relied on is a field of `JsonLaws`
-- or `UuidLaws`, as Qt documents it.
pub mod Toy
use pairion_client.Base.{
  ℕ, ◌+◌, ◌^◌, ◌<◌, ◌≡◌, String, Bool, true, false, ◌||◌, List, Option, some, str_eq, if◌then◌else◌,
  length,
}

-- A C++ `int`; `negsuc n` is -(n + 1).
pub data ℤ : Type 0 where
  pos : ℕ → ℤ
  negsuc : ℕ → ℤ

-- The range of a 32-bit `int`.
abbrev pub IsInt32 : ℤ → Type 0
IsInt32 (pos n) = n < 2 ^ 31
IsInt32 (negsuc n) = n < 2 ^ 31

pub record Qt : Type 1 where
  pub Double : Type 0
  -- the double of a decimal literal, `>=` and `<` (both false at a NaN)
  pub literal : String → Double
  pub at_least : Double → Double → Bool
  pub less : Double → Double → Bool
  -- QJsonValue, QJsonObject, and the text of a JSON document
  pub Value : Type 0
  pub Object : Type 0
  pub Text : Type 0
  pub of_string : String → Value
  pub of_int : ℤ → Value
  pub of_double : Double → Value
  pub of_object : Object → Value
  pub to_string : Value → String
  pub to_int : Value → ℤ
  pub to_double : Value → Double
  pub to_object : Value → Object
  pub empty : Object
  pub insert : String → Value → Object → Object
  pub get : Object → String → Value
  pub contains : Object → String → Bool
  -- QJsonDocument::fromJson, `none` unless it is an object; QJsonDocument::toJson
  pub parse : Text → Option Object
  pub print : Object → Text
  -- QVariant, QVariantMap
  pub Variant : Type 0
  pub VariantMap : Type 0
  pub no_variants : VariantMap
  pub to_variant : Value → Variant
  pub to_variant_map : Object → VariantMap
  -- QUuid: whether a text is one other than the null UUID, and its RFC 4122 bytes
  pub is_uuid : String → Bool
  pub uuid_bytes : String → List ℕ

-- What QJsonObject, QJsonValue and QJsonDocument document.
pub record JsonLaws (q : Qt) : Type 0 where
  pub get-insert :
      (k j : String) (v : q.Value) (o : q.Object)
      → q.get (q.insert k v o) j ≡ (if str_eq k j then v else q.get o j)
  pub contains-empty : (j : String) → q.contains q.empty j ≡ false
  pub contains-insert :
      (k j : String) (v : q.Value) (o : q.Object)
      → q.contains (q.insert k v o) j ≡ (str_eq k j || q.contains o j)
  pub to_string-of_string : (s : String) → q.to_string (q.of_string s) ≡ s
  pub to_int-of_int : (n : ℤ) → IsInt32 n → q.to_int (q.of_int n) ≡ n
  pub to_double-of_double : (d : q.Double) → q.to_double (q.of_double d) ≡ d
  pub to_object-of_object : (o : q.Object) → q.to_object (q.of_object o) ≡ o
  pub parse-print : (o : q.Object) → q.parse (q.print o) ≡ some o

-- QUuid::toRfc4122 gives sixteen bytes.
pub record UuidLaws (q : Qt) : Type 0 where
  pub length-uuid_bytes : (s : String) → length (q.uuid_bytes s) ≡ 16
