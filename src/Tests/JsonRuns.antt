-- ===== src/Tests/JsonRuns.antt =====
-- Runs of src/json.cpp over a small type of JSON values.
use wirelab_experiments.Common.{
  ℕ, ◌≡◌, refl, Bool, true, false, ◌||◌, List, [], ◌∷◌, Text, text_eq, text_eq_iff, if◌then◌else◌,
  arith, All, All-map, returned,
}
use wirelab_experiments.Json.{Json, JsonLaws, find, has_key, config_json, config_from_json}
use wirelab_experiments.Json.RoundTrip.{config_from_json-config_json}
use wirelab_experiments.Server.Traffic.{decimal}
use wirelab_experiments.Tests.Samples.{small_inet, lab_config}
use wirelab_experiments.Tests.ConfigRuns.{lab_config-valid}

-- An object is a chain of members that ends in the empty one.
pub data Value : Type 0 where
  null_value empty_object : Value
  text_value : Text → Value
  number : ℕ → Value
  member : Text → Value → Value → Value

abbrev make_object : List (Text × Value) → Value
make_object [] = empty_object
make_object ((k, x) ∷ fs) = member k x (make_object fs)

abbrev member_at : Value → Text → Value
member_at (member j x rest) k = if text_eq j k then x else member_at rest k
member_at v k = null_value

abbrev has_member : Value → Text → Bool
has_member (member j x rest) k = text_eq j k || has_member rest k
has_member v k = false

abbrev names : Value → List Text
names (member j x rest) = j ∷ names rest
names v = []

abbrev is_object_value : Value → Bool
is_object_value empty_object = true
is_object_value (member j x rest) = true
is_object_value v = false

abbrev is_text : Value → Bool
is_text (text_value t) = true
is_text v = false

abbrev is_number : Value → Bool
is_number (number n) = true
is_number v = false

abbrev is_null_value : Value → Bool
is_null_value null_value = true
is_null_value v = false

abbrev text_of : Value → Text
text_of (text_value t) = t
text_of (number n) = decimal 5 n []
text_of v = []

abbrev number_of : Value → ℕ
number_of (number n) = n
number_of v = 0

abbrev pub small_json : Json
small_json = record {
  Value = Value;
  null = null_value;
  text = text_value;
  uint = number;
  int64 = number;
  object = make_object;
  at = member_at;
  is_member = has_member;
  member_names = names;
  is_object = is_object_value;
  is_string = is_text;
  is_uint = is_number;
  is_null = is_null_value;
  as_string = text_of;
  as_uint = number_of;
}

member_at-object :
    (k : Text) (fs : List (Text × Value)) → member_at (make_object fs) k ≡ find null_value k fs
unfolding find
member_at-object k [] = refl
member_at-object k ((j, x) ∷ fs) = rw (member_at-object k fs) refl

has_member-object :
    (k : Text) (fs : List (Text × Value)) → has_member (make_object fs) k ≡ has_key k fs
unfolding has_key
has_member-object k [] = refl
has_member-object k ((j, x) ∷ fs) = rw (has_member-object k fs) refl

names-object : (fs : List (Text × Value)) → All (λ k. has_key k fs ≡ true) (names (make_object fs))
unfolding has_key
names-object [] = tt
names-object ((j, x) ∷ fs) =
    (rw ((text_eq_iff j j).1 refl) refl, All-map _ _ _ (λ k h. ground arith) (names-object fs))

is_object-object : (fs : List (Text × Value)) → is_object_value (make_object fs) ≡ true
is_object-object [] = refl
is_object-object (f ∷ fs) = refl

small_laws : JsonLaws small_json
small_laws = record {
  at-object = member_at-object;
  is_member-object = has_member-object;
  member_names-object = names-object;
  is_object-object = is_object-object;
  is_string-text = λ t. refl;
  as_string-text = λ t. refl;
  is_uint-uint = λ n h. refl;
  as_uint-uint = λ n h. refl;
  is_null-uint = λ n. refl;
  is_null-null = refl;
  as_string-null = refl;
  as_string-uint = λ n h. refl;
}

config_from_json-config_json_example :
    config_from_json small_json small_inet (config_json small_json lab_config) ≡ returned lab_config
config_from_json-config_json_example =
    config_from_json-config_json small_json small_laws small_inet lab_config lab_config-valid
