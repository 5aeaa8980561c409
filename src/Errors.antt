-- ===== src/Errors.antt =====
-- include/error/error.h and include/sdcpp/error.h: what a command reports where it fails.
use pmx.Base.{Text, codes}

pub data ErrorType : Type 0 where
  not_implemented_error invalid_argument_error : ErrorType
  systemd_call_method_error pipewire_error : ErrorType

pub record Error : Type 0 where
  pub message : Text
  pub type : ErrorType

abbrev pub not_implemented : Error
not_implemented = record { message = codes "Not implemented"; type = not_implemented_error }

abbrev pub invalid_argument : Text → Error
invalid_argument message = record { message = message; type = invalid_argument_error }

abbrev pub systemd : Text → Error
systemd message = record { message = message; type = systemd_call_method_error }

abbrev pub pipewire : Text → Error
pipewire message = record { message = message; type = pipewire_error }

pub data SdErrorType : Type 0 where
  call_method method_parsing_error message_building_error : SdErrorType

pub record SdError : Type 0 where
  pub message : Text
  pub type : SdErrorType

abbrev pub systemd_call_method : Text → SdError
systemd_call_method message = record { message = message; type = call_method }

abbrev pub systemd_method_parsing_error : Text → SdError
systemd_method_parsing_error message = record { message = message; type = method_parsing_error }

abbrev pub systemd_message_building_error : Text → SdError
systemd_message_building_error message = record { message = message; type = message_building_error }
