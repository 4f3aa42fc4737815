-- ===== src/Qt/Toy.antt =====
-- A small Qt that runs: JSON objects as association lists that are their own text, doubles as
-- tenths, and UUIDs by a fixed rule. It meets the laws, so the theorems apply to it.
use pairion_client.Base.{
  ℕ, ◌≡◌, refl, String, Bool, false, ◌||◌, List, [], ◌∷◌, some, str_eq, leb, arith, if◌then◌else◌,
  eq_iff, not,
}
use pairion_client.Qt.{ℤ, pos, Qt, JsonLaws, UuidLaws}

mutual
  pub data Value : Type 0 where
    undefined : Value
    text : String → Value
    int : ℤ → Value
    double : ℕ → Value
    object : Fields → Value

  pub data Fields : Type 0 where
    end : Fields
    field : String → Value → Fields → Fields

abbrev insert : String → Value → Fields → Fields
insert k v end = field k v end
insert k v (field j w o) = if str_eq j k then field j v o else field j w (insert k v o)

abbrev get : Fields → String → Value
get end k = undefined
get (field j w o) k = if str_eq j k then w else get o k

abbrev contains : Fields → String → Bool
contains end k = false
contains (field j w o) k = str_eq j k || contains o k

get-insert :
    (k j : String) (v : Value) (o : Fields)
    → get (insert k v o) j ≡ (if str_eq k j then v else get o j)
get-insert k j v end = refl
get-insert k j v (field i w o) =
    ground (arith, eq_iff k j, eq_iff i k, eq_iff i j, get-insert k j v o)

contains-insert :
    (k j : String) (v : Value) (o : Fields)
    → contains (insert k v o) j ≡ (str_eq k j || contains o j)
contains-insert k j v end = refl
contains-insert k j v (field i w o) =
    ground (arith, eq_iff k j, eq_iff i k, eq_iff i j, contains-insert k j v o)

abbrev as_string : Value → String
as_string (text s) = s
as_string _ = ""

abbrev as_int : Value → ℤ
as_int (int n) = n
as_int _ = pos 0

abbrev as_double : Value → ℕ
as_double (double d) = d
as_double _ = 0

abbrev as_object : Value → Fields
as_object (object o) = o
as_object _ = end

abbrev tenths : String → ℕ
tenths s = if str_eq s "0.7" then 7 else if str_eq s "0.5" then 5 else 0

abbrev bytes16 : List ℕ
bytes16 = 1 ∷ 2 ∷ 3 ∷ 4 ∷ 5 ∷ 6 ∷ 7 ∷ 8 ∷ 9 ∷ 10 ∷ 11 ∷ 12 ∷ 13 ∷ 14 ∷ 15 ∷ 16 ∷ []

abbrev pub toy : Qt
toy = record {
  Double = ℕ;
  literal = tenths;
  at_least = λ a b. leb b a;
  less = λ a b. not (leb b a);
  Value = Value;
  Object = Fields;
  Text = Fields;
  of_string = text;
  of_int = int;
  of_double = double;
  of_object = object;
  to_string = as_string;
  to_int = as_int;
  to_double = as_double;
  to_object = as_object;
  empty = end;
  insert = insert;
  get = get;
  contains = contains;
  parse = some;
  print = λ o. o;
  Variant = Value;
  VariantMap = Fields;
  no_variants = end;
  to_variant = λ v. v;
  to_variant_map = λ o. o;
  is_uuid = λ s. not (str_eq s "");
  uuid_bytes = λ s. bytes16;
}

pub toy_json : JsonLaws toy
toy_json = record {
  get-insert = get-insert;
  contains-empty = λ j. refl;
  contains-insert = contains-insert;
  to_string-of_string = λ s. refl;
  to_int-of_int = λ n h. refl;
  to_double-of_double = λ d. refl;
  to_object-of_object = λ o. refl;
  parse-print = λ o. refl;
}

pub toy_uuid : UuidLaws toy
toy_uuid = record { length-uuid_bytes = λ s. refl }
