-- ===== src/Commands/Order.antt =====
-- src/commands/start.cpp with src/units.cpp: which calls of systemd `start` makes, in what order, and
-- where it stops.
use pmx.Base.{
  ◌≡◌, refl, ap, ◌∙◌, arith, true, false, Bool-cases, inl, inr, List, [], ◌∷◌, ◌++◌, Option, none,
  some, Option-cases, Text, ℤ, Result, ok, err, if◌then◌else◌,
}
use pmx.Errors.{SdError, systemd_call_method, systemd_message_building_error}
use pmx.Constants.{service_names}
use pmx.Units.{
  BusCall, BuildStep, new_method_call, open_array, close_array, append_flags, append_name,
  list_units_call, list_unit_files_call, enable_unit_files, start_unit, enable_units, start_units,
  build_request, append_names, after_names, checked, is_negative,
}
use pmx.Commands.Start.{sooperlooper_service_name, then_on, enable_and_start, start_command}

abbrev start_calls : List Text → List BusCall
start_calls [] = []
start_calls (unit_name ∷ unit_names) = start_unit unit_name ∷ start_calls unit_names

-- All calls of `start`, if none fails: SooperLooper is enabled and started before the others.
abbrev pub all_calls : List BusCall
all_calls =
    enable_unit_files sooperlooper_service_name
    ∷ (start_calls sooperlooper_service_name
        ++ (enable_unit_files service_names ∷ start_calls service_names))

-- The steps that build the message of a call: those of `EnableUnitFiles` name each unit.
abbrev append_steps : List Text → List BuildStep
append_steps [] = []
append_steps (name ∷ names) = append_name name ∷ append_steps names

abbrev pub build_steps : BusCall → List BuildStep
build_steps (enable_unit_files names) =
    new_method_call ∷ open_array ∷ (append_steps names ++ (close_array ∷ append_flags ∷ []))
build_steps (start_unit name) = []
build_steps list_units_call = []
build_steps list_unit_files_call = []

-- The first step that gives a negative number.
abbrev pub first_failure : (BuildStep → ℤ) → List BuildStep → Option BuildStep
first_failure building [] = none
first_failure building (step ∷ steps) =
    if is_negative (building step) then some step else first_failure building steps

module _ (bus : List BusCall → BusCall → ℤ) (building : BuildStep → ℤ) (strerror : ℤ → Text) where
  -- Calls that are made one after the other, from the calls `before` on, with the result and all the
  -- calls made: each call is built and then taken by the bus, up to one that cannot be built and is not
  -- made, or that the bus refuses.
  pub data Calling
      : List BusCall → List BusCall → Result SdError (Unit {0}) × List BusCall → Type 0 where
    finished : (before : List BusCall) → Calling before [] (ok tt, before)
    taken :
        (before : List BusCall) (call : BusCall) (calls : List BusCall)
        (done : Result SdError (Unit {0}) × List BusCall)
        → first_failure building (build_steps call) ≡ none
        → is_negative (bus before call) ≡ false
        → Calling (before ++ call ∷ []) calls done
        → Calling before (call ∷ calls) done
    not_built :
        (before : List BusCall) (call : BusCall) (calls : List BusCall) (step : BuildStep)
        → first_failure building (build_steps call) ≡ some step
        → Calling before
            (call ∷ calls)
            (err (systemd_message_building_error (strerror (building step))), before)
    refused :
        (before : List BusCall) (call : BusCall) (calls : List BusCall)
        → first_failure building (build_steps call) ≡ none
        → is_negative (bus before call) ≡ true
        → Calling before
            (call ∷ calls)
            (err (systemd_call_method (strerror (bus before call))), before ++ call ∷ [])

  then_on-Calling :
      (before xs ys : List BusCall) (done : Result SdError (Unit {0}) × List BusCall)
      (rest : List BusCall → Result SdError (Unit {0}) × List BusCall)
      → Calling before xs done
      → ((after : List BusCall) → Calling after ys (rest after))
      → Calling before (xs ++ ys) (then_on done rest)
  then_on-Calling before [] ys done rest (finished b) k = k before
  then_on-Calling before (x ∷ xs) ys done rest (taken b call calls d built worked c) k =
      taken before x (xs ++ ys) (then_on done rest) built worked
        (then_on-Calling (before ++ x ∷ []) xs ys done rest c k)
  then_on-Calling before (x ∷ xs) ys done rest (not_built b call calls step failed) k =
      not_built before x (xs ++ ys) step failed
  then_on-Calling before (x ∷ xs) ys done rest (refused b call calls built failed) k =
      refused before x (xs ++ ys) built failed

  start_units-Calling :
      (names : List Text) (before : List BusCall)
      → Calling before (start_calls names) (start_units bus strerror names before)
  unfolding start_units
  start_units-Calling [] before = finished before
  start_units-Calling (name ∷ names) before =
      elim (Bool-cases (is_negative (bus before (start_unit name)))) [
        | inl failed ↦ rw failed (refused before (start_unit name) (start_calls names) refl failed)
        | inr worked ↦ rw worked (
            taken before (start_unit name) (start_calls names) _ refl worked
              (start_units-Calling names (before ++ start_unit name ∷ [])))
      ]

  -- What building comes to, from the first failure.
  abbrev built_by : Option BuildStep → Result SdError (Unit {0})
  built_by none = ok tt
  built_by (some step) = err (systemd_message_building_error (strerror (building step)))

  append_names-first_failure :
      (names : List Text) (rest : List BuildStep)
      → after_names strerror
          (append_names strerror building names)
          (built_by (first_failure building rest))
        ≡ built_by (first_failure building (append_steps names ++ rest))
  unfolding append_names
  append_names-first_failure [] rest = refl
  append_names-first_failure (name ∷ names) rest =
      elim (Bool-cases (is_negative (building (append_name name)))) [
        | inl failed ↦ rw failed refl
        | inr worked ↦ rw worked (append_names-first_failure names rest)
      ]

  build_request-first_failure :
      (names : List Text)
      → build_request strerror building names
        ≡ built_by (first_failure building (build_steps (enable_unit_files names)))
  unfolding build_request
  build_request-first_failure names = elim (Bool-cases (is_negative (building new_method_call))) [
    | inl failed ↦ rw failed refl
    | inr worked ↦ elim (Bool-cases (is_negative (building open_array))) [
      | inl failed ↦ rw (worked, failed) refl
      | inr opened ↦
          rw (worked, opened, ← append_names-first_failure names (close_array ∷ append_flags ∷ []))
            (tail names)
    ]
  ]
    where
      tail :
          (names : List Text)
          → after_names strerror (append_names strerror building names) (
              checked strerror building close_array
                (checked strerror building append_flags (ok tt)))
            ≡ after_names strerror
                (append_names strerror building names)
                (built_by (first_failure building (close_array ∷ append_flags ∷ [])))
      tail names =
          ap (after_names strerror (append_names strerror building names))
            (elim (Bool-cases (is_negative (building close_array))) [
              | inl failed ↦ rw failed refl
              | inr closed ↦ elim (Bool-cases (is_negative (building append_flags))) [
                | inl failed ↦ rw (closed, failed) refl
                | inr flagged ↦ rw (closed, flagged) refl
              ]
            ])

  enable_units-not_built :
      (names : List Text) (before : List BusCall) (e : SdError)
      → build_request strerror building names ≡ err e
      → enable_units bus strerror building names before ≡ (err e, before)
  unfolding enable_units
  enable_units-not_built names before e broken = ground (arith, broken)

  enable_units-built :
      (names : List Text) (before : List BusCall)
      → build_request strerror building names ≡ ok tt
      → enable_units bus strerror building names before ≡ (
        if is_negative (bus before (enable_unit_files names))
            then err (systemd_call_method (strerror (bus before (enable_unit_files names))))
            else ok tt,
        before ++ enable_unit_files names ∷ [],
      )
  unfolding enable_units
  enable_units-built names before built = ground (arith, built)

  enable_units-Calling :
      (names : List Text) (before : List BusCall)
      → Calling before
          (enable_unit_files names ∷ [])
          (enable_units bus strerror building names before)
  enable_units-Calling names before =
      elim (Option-cases (first_failure building (build_steps (enable_unit_files names)))) [
        | inr (step, failed) ↦
            rw
              (enable_units-not_built names before _
                (build_request-first_failure names ∙ ap built_by failed))
              (not_built before (enable_unit_files names) [] step failed)
        | inl built ↦
            rw
              (enable_units-built names before
                (build_request-first_failure names ∙ ap built_by built))
              (elim (Bool-cases (is_negative (bus before (enable_unit_files names)))) [
                | inl failed ↦ rw failed (refused before (enable_unit_files names) [] built failed)
                | inr worked ↦ rw worked (
                    taken before (enable_unit_files names) [] _ built worked
                      (finished (before ++ enable_unit_files names ∷ [])))
              ])
      ]

  enable_and_start-Calling :
      (names : List Text) (before : List BusCall)
      → Calling before
          (enable_unit_files names ∷ start_calls names)
          (enable_and_start bus building strerror names before)
  unfolding enable_and_start
  enable_and_start-Calling names before =
      then_on-Calling before (enable_unit_files names ∷ []) (start_calls names)
        (enable_units bus strerror building names before)
        (λ enabled. start_units bus strerror names enabled) (enable_units-Calling names before)
        (start_units-Calling names)

  -- `start` enables and starts SooperLooper, and then enables and starts the other services: it makes
  -- these calls in this order and succeeds, if each can be built and the bus takes it; else it stops at
  -- the first call that cannot be built or is refused, with the error of this call.
  pub start_command-Calling : Calling [] all_calls (start_command bus building strerror)
  unfolding start_command
  start_command-Calling =
      then_on-Calling []
        (enable_unit_files sooperlooper_service_name ∷ start_calls sooperlooper_service_name)
        (enable_unit_files service_names ∷ start_calls service_names)
        (enable_and_start bus building strerror sooperlooper_service_name [])
        (λ started. enable_and_start bus building strerror service_names started)
        (enable_and_start-Calling sooperlooper_service_name [])
        (enable_and_start-Calling service_names)
