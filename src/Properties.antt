-- ===== src/Properties.antt =====
-- The parameters of a filter, `std::tuple<std::string, property_value_type>` in a vector, and
-- include/tools/filter_parameter_tools.h, which looks one up.
-- The alternatives of `pwcpp::property::property_value_type` are those that src/proxy_watcher.cpp
-- tells apart. `R` is the type of the floating point numbers.
use pmx.Base.{
  [], ◌∷◌, if◌then◌else◌, Bool, List, Option, none, some, Text, text_eq, ℤ, Run, returns, faults,
  undefined,
}

pub data PropertyValue (R : Type 0) : Type 0 where
  int_value : ℤ → PropertyValue R
  long_value : ℤ → PropertyValue R
  float_value : R → PropertyValue R
  double_value : R → PropertyValue R
  string_value : Text → PropertyValue R
  bool_value : Bool → PropertyValue R
  null_value : PropertyValue R

abbrev pub Property : Type 0 → Type 0
Property R = Text × PropertyValue R

abbrev pub find_property : {R : Type 0} → Text → List (Property R) → Option (Property R)
find_property name [] = none
find_property name (p ∷ parameters) =
    if text_eq p.0 name then some p else find_property name parameters

abbrev pub as_int : {R : Type 0} → PropertyValue R → Option ℤ
as_int (int_value n) = some n
as_int _ = none

abbrev pub as_long : {R : Type 0} → PropertyValue R → Option ℤ
as_long (long_value n) = some n
as_long _ = none

abbrev pub as_string : {R : Type 0} → PropertyValue R → Option Text
as_string (string_value s) = some s
as_string _ = none

-- `get_from_collection<T>`; `as_type` is `std::get<T>` where the variant holds a `T`. The source
-- dereferences the result of `std::find_if` without a test.
unfoldable pub get_from_collection :
    {R A : Type 0} → (PropertyValue R → Option A) → Text → List (Property R) → Run (Option A)
get_from_collection as_type name parameters = elim (find_property name parameters) [
  | none ↦ faults undefined
  | some p ↦ returns (as_type p.1)
]
