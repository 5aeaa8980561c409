-- ===== src/ProxyWatcher/Decode.antt =====
-- The keys and values of a `Props` object come out as pairs.
use mathlib.Core.List.{append-nil, append_assoc}
use pmx.Base.{
  ℕ, suc, ◌%◌, ◌≡◌, refl, ◌∙◌, arith, List, [], ◌∷◌, ◌++◌, none, Option-cases, inl, inr, some, Text,
  returns,
}
use pmx.Properties.{Property, PropertyValue}
use pmx.ProxyWatcher.Events.{
  Field, string_field, field_value, read_fields, pair_up, process_node_params, pop_back,
}

pop_back-append : (keys : List Text) (k : Text) → pop_back (keys ++ k ∷ []) ≡ keys
pop_back-append [] k = refl
pop_back-append (x ∷ []) k = refl
pop_back-append (x ∷ y ∷ keys) k = rw (pop_back-append (y ∷ keys) k) refl

module _ {R : Type 0} where
  -- A struct as it should be: each key is followed by its value.
  abbrev pub fields_of : List (Text × Field R) → List (Field R)
  fields_of [] = []
  fields_of ((k, f) ∷ pairs) = string_field (some k) ∷ f ∷ fields_of pairs

  -- The pairs whose value is of a type that the reader knows.
  abbrev pub supported : List (Text × Field R) → List (Property R)
  supported [] = []
  supported ((k, f) ∷ pairs) = elim (field_value f) [
    | none ↦ supported pairs
    | some v ↦ (k, v) ∷ supported pairs
  ]

  read_dropped :
      (k : Text) (f : Field R) (fields : List (Field R)) (count : ℕ) (keys : List Text)
      (values : List (PropertyValue R))
      → count % 2 ≡ 0
      → field_value f ≡ none
      → read_fields (string_field (some k) ∷ f ∷ fields) count keys values
        ≡ read_fields fields (suc (suc count)) keys values
  unfolding read_fields
  read_dropped k f fields count keys values h e = ground (arith, pop_back-append keys k)

  read_kept :
      (k : Text) (f : Field R) (fields : List (Field R)) (count : ℕ) (keys : List Text)
      (values : List (PropertyValue R)) (v : PropertyValue R)
      → count % 2 ≡ 0
      → field_value f ≡ some v
      → read_fields (string_field (some k) ∷ f ∷ fields) count keys values
        ≡ read_fields fields (suc (suc count)) (keys ++ k ∷ []) (values ++ v ∷ [])
  unfolding read_fields
  read_kept k f fields count keys values v h e = ground arith

  abbrev names_of : List (Property R) → List Text
  names_of [] = []
  names_of (p ∷ ps) = p.0 ∷ names_of ps

  abbrev values_of : List (Property R) → List (PropertyValue R)
  values_of [] = []
  values_of (p ∷ ps) = p.1 ∷ values_of ps

  supported_dropped :
      (k : Text) (f : Field R) (pairs : List (Text × Field R))
      → field_value f ≡ none
      → supported ((k, f) ∷ pairs) ≡ supported pairs
  supported_dropped k f pairs e = ground arith

  supported_kept :
      (k : Text) (f : Field R) (pairs : List (Text × Field R)) (v : PropertyValue R)
      → field_value f ≡ some v
      → supported ((k, f) ∷ pairs) ≡ (k, v) ∷ supported pairs
  supported_kept k f pairs v e = ground arith

  read_fields-fields_of :
      (pairs : List (Text × Field R)) (count : ℕ) (keys : List Text)
      (values : List (PropertyValue R))
      → count % 2 ≡ 0
      → read_fields (fields_of pairs) count keys values
        ≡ returns (keys ++ names_of (supported pairs), values ++ values_of (supported pairs))
  unfolding read_fields
  read_fields-fields_of [] count keys values h = rw (append-nil keys, append-nil values) refl
  read_fields-fields_of ((k, f) ∷ pairs) count keys values h = elim (Option-cases (field_value f)) [
    | inl n ↦
        read_dropped k f (fields_of pairs) count keys values h n
        ∙ (read_fields-fields_of pairs (suc (suc count)) keys values (omega arith)
            ∙ rw (supported_dropped k f pairs n) refl)
    | inr (v, e) ↦
        read_kept k f (fields_of pairs) count keys values v h e
        ∙ (read_fields-fields_of pairs (suc (suc count)) (keys ++ k ∷ []) (values ++ v ∷ [])
              (omega arith)
            ∙ rw
                (
                  supported_kept k f pairs v e,
                  append_assoc keys (k ∷ []) (names_of (supported pairs)),
                  append_assoc values (v ∷ []) (values_of (supported pairs)),
                )
                refl)
  ]

  pair_up-supported : (ps : List (Property R)) → pair_up (names_of ps) (values_of ps) ≡ returns ps
  unfolding pair_up
  pair_up-supported [] = refl
  pair_up-supported (p ∷ ps) = rw (pair_up-supported ps) refl

  -- A struct in which each key is followed by its value is decoded to the pairs of the keys and
  -- the values, in their order, without those whose value is of a type that the reader does not know.
  pub process_node_params-fields_of :
      (pairs : List (Text × Field R))
      → process_node_params (some (fields_of pairs)) ≡ returns (some (supported pairs))
  unfolding process_node_params
  process_node_params-fields_of pairs =
      rw (read_fields-fields_of pairs 0 [] [] refl, pair_up-supported (supported pairs)) refl
