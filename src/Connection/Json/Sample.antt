-- ===== src/Connection/Json/Sample.antt =====
-- A type of JSON values that meets `JsonOps`, for runs.
use nixd.Prelude.{
  true, Option, none, some, List, [], ◌∷◌, Bytes, bytes_eq, if◌then◌else◌, ℤ, ◌≡◌, refl, Bool-cases,
  inl, inr,
}
use nixd.Connection.Json.{JsonOps, lookup}

mutual
  pub data Json : Type 0 where
    null : Json
    integer : ℤ → Json
    string : Bytes → Json
    array : Items → Json
    object : Fields → Json

  pub data Items : Type 0 where
    end_items : Items
    item : Json → Items → Items

  pub data Fields : Type 0 where
    end_fields : Fields
    field : Bytes → Json → Fields → Fields

abbrev make : List (Bytes × Json) → Fields
make [] = end_fields
make ((k, v) ∷ fields) = field k v (make fields)

abbrev get : Fields → Bytes → Option Json
get end_fields k = none
get (field j v fields) k = if bytes_eq j k then some v else get fields k

abbrev as_object : Json → Option Fields
as_object (object o) = some o
as_object null = none
as_object _ = none

abbrev as_string : Json → Option Bytes
as_string (string s) = some s
as_string null = none
as_string _ = none

abbrev as_integer : Json → Option ℤ
as_integer (integer i) = some i
as_integer null = none
as_integer _ = none

pub get-make : (fields : List (Bytes × Json)) (k : Bytes) → get (make fields) k ≡ lookup k fields
get-make [] k = refl
get-make ((j, v) ∷ fields) k = elim (Bool-cases (bytes_eq j k)) [
  | inl e ↦ rw e refl
  | inr e ↦ rw e (get-make fields k)
]

abbrev pub sample : JsonOps
sample = record {
  Value = Json;
  Object = Fields;
  null = null;
  of_object = object;
  of_string = string;
  of_integer = integer;
  make = make;
  get_as_object = as_object;
  get_as_string = as_string;
  get_as_integer = as_integer;
  get = get;
  as_object-of_object = λ o. refl;
  is_utf8 = λ s. true;
  is_utf8-is_ascii = λ s h. refl;
  as_string-of_string = λ s h. refl;
  as_integer-of_integer = λ i. refl;
  get-make = λ fields k h. get-make fields k;
}
