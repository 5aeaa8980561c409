-- ===== src/PipewireTools.antt =====
-- src/pipewire_tools.cpp: the message that sets parameters of a node. Its pod is an object with one
-- property, a struct; modelled are the fields of the struct, in the order in which the builder is
-- called, for messages that fit into the 1024 bytes of the buffer. `R` is the type of the floating
-- point numbers.
use pmx.Base.{ℕ, ◌≡◌, refl, ap, Bool, List, [], ◌∷◌, some, Text, ℤ, returns}
use pmx.Properties.{Property, int_value, float_value, double_value, string_value}
use pmx.ProxyWatcher.Events.{
  Field, int_field, float_field, double_field, string_field, other_field, process_node_params,
}
use pmx.ProxyWatcher.Decode.{fields_of, supported, process_node_params-fields_of}

-- `param_value_variant`.
pub data ParamValue (R : Type 0) : Type 0 where
  double_param : R → ParamValue R
  string_param : Text → ParamValue R
  float_param : R → ParamValue R
  bool_param : Bool → ParamValue R
  int_param : ℤ → ParamValue R
  null_param : ParamValue R

-- A call of `pw_node_set_param`: the handle of the client and the fields.
pub record SetParam (R : Type 0) : Type 0 where
  pub client : ℕ
  pub fields : List (Field R)

module _ {R : Type 0} where
  -- The call of the builder for a value. The watcher of the repository knows no Boolean and no empty
  -- pod.
  abbrev pub param_field : ParamValue R → Field R
  param_field (double_param x) = double_field x
  param_field (string_param s) = string_field (some s)
  param_field (int_param n) = int_field n
  param_field (float_param x) = float_field x
  param_field (bool_param b) = other_field
  param_field null_param = other_field

  unfoldable pub build_set_params_message : List (Text × ParamValue R) → List (Field R)
  build_set_params_message [] = []
  build_set_params_message ((key, value) ∷ parameters) =
      string_field (some key) ∷ param_field value ∷ build_set_params_message parameters

  -- The message for one parameter.
  unfoldable pub build_set_param_message : Text → R → List (Field R)
  build_set_param_message param_name param_value =
      string_field (some param_name) ∷ double_field param_value ∷ []

  -- `pw_loop_invoke` runs the call in the loop and waits for it.
  unfoldable pub set_props_param : ℕ → List (Text × ParamValue R) → SetParam R
  unfolding build_set_params_message
  set_props_param client parameters = record {
    client = client;
    fields = build_set_params_message parameters;
  }

  unfoldable pub set_prop_param : ℕ → Text → R → SetParam R
  unfolding build_set_param_message
  set_prop_param client parameter_name value = record {
    client = client;
    fields = build_set_param_message parameter_name value;
  }

  -- What a watcher can read of the parameters: all but the Booleans and the cleared ones.
  abbrev pub readable : List (Text × ParamValue R) → List (Property R)
  readable [] = []
  readable ((key, double_param x) ∷ parameters) = (key, double_value x) ∷ readable parameters
  readable ((key, string_param s) ∷ parameters) = (key, string_value s) ∷ readable parameters
  readable ((key, float_param x) ∷ parameters) = (key, float_value x) ∷ readable parameters
  readable ((key, int_param n) ∷ parameters) = (key, int_value n) ∷ readable parameters
  readable ((key, bool_param b) ∷ parameters) = readable parameters
  readable ((key, null_param) ∷ parameters) = readable parameters

  abbrev pairs_of : List (Text × ParamValue R) → List (Text × Field R)
  pairs_of [] = []
  pairs_of ((key, value) ∷ parameters) = (key, param_field value) ∷ pairs_of parameters

  fields_of-pairs_of :
      (parameters : List (Text × ParamValue R))
      → fields_of (pairs_of parameters) ≡ build_set_params_message parameters
  unfolding build_set_params_message
  fields_of-pairs_of [] = refl
  fields_of-pairs_of ((key, value) ∷ parameters) =
      ap (λ fields. string_field (some key) ∷ param_field value ∷ fields)
        (fields_of-pairs_of parameters)

  supported-pairs_of :
      (parameters : List (Text × ParamValue R))
      → supported (pairs_of parameters) ≡ readable parameters
  supported-pairs_of [] = refl
  supported-pairs_of ((key, double_param x) ∷ ps) =
      ap (◌∷◌ (key, double_value x)) (supported-pairs_of ps)
  supported-pairs_of ((key, string_param s) ∷ ps) =
      ap (◌∷◌ (key, string_value s)) (supported-pairs_of ps)
  supported-pairs_of ((key, float_param x) ∷ ps) =
      ap (◌∷◌ (key, float_value x)) (supported-pairs_of ps)
  supported-pairs_of ((key, int_param n) ∷ ps) = ap (◌∷◌ (key, int_value n)) (supported-pairs_of ps)
  supported-pairs_of ((key, bool_param b) ∷ ps) = supported-pairs_of ps
  supported-pairs_of ((key, null_param) ∷ ps) = supported-pairs_of ps

  -- A message that sets parameters is decoded by the watcher to the parameters in their order,
  -- without those that are Booleans or cleared.
  pub process_node_params-build_set_params_message :
      (parameters : List (Text × ParamValue R))
      → process_node_params (some (build_set_params_message parameters))
        ≡ returns (some (readable parameters))
  process_node_params-build_set_params_message parameters =
      rw (← fields_of-pairs_of parameters, ← supported-pairs_of parameters)
        (process_node_params-fields_of (pairs_of parameters))
