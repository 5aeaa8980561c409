-- ===== src/Units.antt =====
-- src/units.cpp with include/sdcpp: the calls of systemd over the bus.
-- sd-bus is an argument: what it answers to a call, after the calls before it, and how an answer is
-- read. A negative number is an error, whose text `strerror` gives.
pub mod Reading
use pmx.Base.{
  Run, returns, faults, undefined, ℕ, zero, suc, ◌+◌, ◌≤◌, ◌<◌, ◌≡◌, Bool, true, false, List, [],
  ◌∷◌, ◌++◌, Option, none, some, Text, if◌then◌else◌, ℤ, pos, negsuc, Result, ok, err,
}
use pmx.Errors.{
  SdError, systemd_call_method, systemd_method_parsing_error, systemd_message_building_error,
}

pub record SystemdUnit : Type 0 where
  pub name : Text
  pub description : Text
  pub load_state : Text
  pub active_state : Text
  pub sub_state : Text
  pub following : Text
  pub object_path : Text
  pub id : ℕ
  pub job_type : Text
  pub job_path : Text

pub record UnitFile : Type 0 where
  pub name : Text
  pub status : Text

pub data BusCall : Type 0 where
  list_units_call list_unit_files_call : BusCall
  enable_unit_files : List Text → BusCall
  start_unit : Text → BusCall

-- The calls that build the message of `EnableUnitFiles`.
pub data BuildStep : Type 0 where
  new_method_call open_array close_array append_flags : BuildStep
  append_name : Text → BuildStep

-- `result < 0` and `result <= 0`.
abbrev pub is_negative : ℤ → Bool
is_negative (pos n) = false
is_negative (negsuc n) = true

abbrev pub is_positive : ℤ → Bool
is_positive (pos zero) = false
is_positive (pos (suc n)) = true
is_positive (negsuc n) = false

-- An answer is read from a position; `remaining` is what is left from there. `read_struct` reads the
-- fields of one structure.
pub record Reader (A : Type 0) : Type 1 where
  pub Message : Type 0
  pub enter_array : Message → ℤ × Message
  pub at_end : Message → Bool
  pub enter_struct : Message → ℤ × Message
  pub read_struct : Message → ℤ × A × Message
  pub exit_container : Message → Message
  pub remaining : Message → ℕ
  pub enter_array_forward :
      (m : Message)
      → is_positive (enter_array m).0 ≡ true
      → remaining (enter_array m).1 < remaining m
  pub enter_struct_forward : (m : Message) → remaining (enter_struct m).1 ≤ remaining m
  pub read_struct_forward :
      (m : Message)
      → is_positive (read_struct m).0 ≡ true
      → remaining (read_struct m).2 < remaining m
  pub exit_container_forward : (m : Message) → remaining (exit_container m) ≤ remaining m

module _ {A : Type 0} (reader : Reader A) (strerror : ℤ → Text) where
  open reader use {Message, enter_array, at_end, enter_struct, read_struct, exit_container}

  -- One round of the inner loop. Where nothing is read, the null pointers become strings.
  unfoldable pub read_one : Message → Run (Result SdError (A × Message))
  read_one m =
      let entered = enter_struct m in
      if is_positive entered.0
      then (let fields = read_struct entered.1 in
          if is_negative fields.0
          then returns (err (systemd_method_parsing_error (strerror fields.0)))
          else if is_positive fields.0
          then returns (ok (fields.1, exit_container fields.2))
          else faults undefined)
      else returns (err (systemd_method_parsing_error (strerror entered.0)))

  -- `while (!sd_bus_message_at_end(...))`; `none` is a loop that has not ended within the fuel.
  unfoldable pub read_structs :
      ℕ → Message → List A → Option (Run (Result SdError (List A × Message)))
  read_structs zero m units = none
  read_structs (suc fuel) m units = elim (at_end m) [
    | true ↦ some (returns (ok (units, m)))
    | false ↦ elim (read_one m) [
      | faults e ↦ some (faults e)
      | returns (err e) ↦ some (returns (err e))
      | returns (ok (unit, next)) ↦ read_structs fuel next (units ++ unit ∷ [])
    ]
  ]

  -- `while (sd_bus_message_enter_container(...) > 0)`.
  unfoldable pub read_arrays : ℕ → ℕ → Message → List A → Option (Run (Result SdError (List A)))
  unfolding read_structs
  read_arrays zero inner m units = none
  read_arrays (suc fuel) inner m units = elim (is_positive (enter_array m).0) [
    | false ↦ some (returns (ok units))
    | true ↦ elim (read_structs inner (enter_array m).1 units) [
      | none ↦ none
      | some (faults e) ↦ some (faults e)
      | some (returns (err e)) ↦ some (returns (err e))
      | some (returns (ok (more, next))) ↦ read_arrays fuel inner next more
    ]
  ]

  -- `list_units` and `list_unit_files` after the call, which gave a result and an answer.
  unfoldable pub list_reply : ℕ → ℤ × Message → Option (Run (Result SdError (List A)))
  unfolding read_arrays
  list_reply fuel (result, reply) =
      if is_negative result
      then some (returns (err (systemd_call_method (strerror result))))
      else read_arrays fuel fuel reply []

-- The message of `EnableUnitFiles`.
module _ (strerror : ℤ → Text) where
  -- `sd_bus_message_append_basic` for each name.
  unfoldable pub append_names : (BuildStep → ℤ) → List Text → Result SdError (Unit {0})
  append_names building [] = ok tt
  append_names building (unit_name ∷ unit_names) =
      if is_negative (building (append_name unit_name))
      then err (systemd_message_building_error (strerror (building (append_name unit_name))))
      else append_names building unit_names

  abbrev pub checked :
      (BuildStep → ℤ) → BuildStep → Result SdError (Unit {0}) → Result SdError (Unit {0})
  checked building step rest =
      if is_negative (building step)
      then err (systemd_message_building_error (strerror (building step)))
      else rest

  abbrev pub after_names :
      Result SdError (Unit {0}) → Result SdError (Unit {0}) → Result SdError (Unit {0})
  after_names (err e) rest = err e
  after_names (ok done) rest = rest

  -- The message, up to the call.
  unfoldable pub build_request : (BuildStep → ℤ) → List Text → Result SdError (Unit {0})
  unfolding append_names
  build_request building unit_names = checked building new_method_call (
      checked building open_array (
        after_names (append_names building unit_names)
          (checked building close_array (checked building append_flags (ok tt)))))

-- `bus` gets the calls so far and the new one.
module _ (bus : List BusCall → BusCall → ℤ) (strerror : ℤ → Text) where
  -- The result, and the calls after it. The answer is only printed.
  unfoldable pub enable_units :
      (BuildStep → ℤ) → List Text → List BusCall → Result SdError (Unit {0}) × List BusCall
  unfolding build_request
  enable_units building unit_names calls = elim (build_request strerror building unit_names) [
    | err e ↦ (err e, calls)
    | ok done ↦
        if is_negative (bus calls (enable_unit_files unit_names))
        then (
          err (systemd_call_method (strerror (bus calls (enable_unit_files unit_names)))),
          calls ++ enable_unit_files unit_names ∷ [],
        )
        else (ok tt, calls ++ enable_unit_files unit_names ∷ [])
  ]

  -- The units are started in turn, up to the first that fails.
  unfoldable pub start_units : List Text → List BusCall → Result SdError (Unit {0}) × List BusCall
  start_units [] calls = (ok tt, calls)
  start_units (unit_name ∷ unit_names) calls =
      let rest = start_units unit_names (calls ++ start_unit unit_name ∷ []) in
      if is_negative (bus calls (start_unit unit_name))
      then (
        err (systemd_call_method (strerror (bus calls (start_unit unit_name)))),
        calls ++ start_unit unit_name ∷ [],
      )
      else rest
