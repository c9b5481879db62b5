-- ===== src/Connection/Json.antt =====
-- JSON values, as lspserver/src/Connection.cpp builds and reads them by llvm/Support/JSON.h: a
-- parameter, with what its documentation says of values that were built.
use nixd.Prelude.{
  Bool, true, ◌&&◌, leb, Option, none, some, List, [], ◌∷◌, All, Bytes, bytes_eq, if◌then◌else◌, ℤ,
  ◌≡◌,
}
pub mod Sample

abbrev pub lookup {ℓ} : {V : Type ℓ} → Bytes → List (Bytes × V) → Option V
lookup k [] = none
lookup k ((j, v) ∷ fields) = if bytes_eq j k then some v else lookup k fields

abbrev pub is_ascii : Bytes → Bool
is_ascii [] = true
is_ascii (c ∷ cs) = leb c 127 && is_ascii cs

pub record JsonOps : Type 1 where
  pub Value : Type 0
  pub Object : Type 0
  -- `Value(nullptr)`, of an object, a string and an integer; `Object{{key, value}, ...}`.
  pub null : Value
  pub of_object : Object → Value
  pub of_string : Bytes → Value
  pub of_integer : ℤ → Value
  pub make : List (Bytes × Value) → Object
  -- `getAsObject`, `getAsString`, `getAsInteger` of a value, `get` of an object.
  pub get_as_object : Value → Option Object
  pub get_as_string : Value → Option Bytes
  pub get_as_integer : Value → Option ℤ
  pub get : Object → Bytes → Option Value
  pub as_object-of_object : (o : Object) → get_as_object (of_object o) ≡ some o
  -- `isUTF8`: strings and keys that are not are altered; ASCII is UTF-8.
  pub is_utf8 : Bytes → Bool
  pub is_utf8-is_ascii : (s : Bytes) → is_ascii s ≡ true → is_utf8 s ≡ true
  pub as_string-of_string : (s : Bytes) → is_utf8 s ≡ true → get_as_string (of_string s) ≡ some s
  pub as_integer-of_integer : (i : ℤ) → get_as_integer (of_integer i) ≡ some i
  pub get-make :
      (fields : List (Bytes × Value)) (k : Bytes)
      → All (λ f. is_utf8 f.0 ≡ true) fields
      → get (make fields) k ≡ lookup k fields

module _ (j : JsonOps) where
  abbrev string_of : Option j.Value → Option Bytes
  string_of none = none
  string_of (some v) = j.get_as_string v

  abbrev integer_of : Option j.Value → Option ℤ
  integer_of none = none
  integer_of (some v) = j.get_as_integer v

  abbrev object_of : Option j.Value → Option j.Object
  object_of none = none
  object_of (some v) = j.get_as_object v

  -- `Object::getString`, `getInteger` and `getObject`: none on a missing key and on another kind.
  abbrev pub get_string : j.Object → Bytes → Option Bytes
  get_string o k = string_of (j.get o k)

  abbrev pub get_integer : j.Object → Bytes → Option ℤ
  get_integer o k = integer_of (j.get o k)

  abbrev pub get_object : j.Object → Bytes → Option j.Object
  get_object o k = object_of (j.get o k)
