-- ===== src/Commands/Start.antt =====
-- src/commands/start.cpp. The pause of a second between the two groups is not modelled.
use pmx.Base.{List, [], ◌∷◌, Text, codes, ℤ, Result, ok, err}
use pmx.Errors.{SdError}
use pmx.Constants.{service_names}
use pmx.Units.{BusCall, BuildStep, enable_units, start_units}

abbrev pub sooperlooper_service_name : List Text
sooperlooper_service_name = codes "pmx-sooperlooper.service" ∷ []

-- The rest runs only after a success.
abbrev pub then_on :
    Result SdError (Unit {0}) × List BusCall
    → (List BusCall → Result SdError (Unit {0}) × List BusCall)
    → Result SdError (Unit {0}) × List BusCall
then_on (err e, calls) rest = (err e, calls)
then_on (ok done, calls) rest = rest calls

module _ (bus : List BusCall → BusCall → ℤ) (building : BuildStep → ℤ) (strerror : ℤ → Text) where
  -- A list of units is enabled and then started.
  unfoldable pub enable_and_start :
      List Text → List BusCall → Result SdError (Unit {0}) × List BusCall
  enable_and_start names calls =
      then_on (enable_units bus strerror building names calls)
        (λ enabled. start_units bus strerror names enabled)

  -- The result, and all calls of the bus.
  unfoldable pub start_command : Result SdError (Unit {0}) × List BusCall
  unfolding enable_and_start
  start_command =
      then_on (enable_and_start sooperlooper_service_name [])
        (λ started. enable_and_start service_names started)
