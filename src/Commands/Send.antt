-- ===== src/Commands/Send.antt =====
-- src/commands/send.cpp: a request for the signal processor of the console.
-- `std::from_chars` for a `float` and the OSC library, which writes a packet into the 1024 bytes of
-- the request or throws, are arguments.
use pmx.Base.{
  ℕ, true, false, List, [], ◌∷◌, ◌++◌, Option, none, some, Text, codes, text_eq, if◌then◌else◌, Run,
  returns, ok, err, ◌>>=◌,
}
use pmx.Tokens.{next_token}
use pmx.Errors.{invalid_argument}
use pmx.Pod.{Packet, float_argument}
use pmx.Commands.{Done}

-- `request_message` of include/console/messages.h: `send` and `osc` are all that is ever set. The
-- bytes stand for the buffer up to `size`.
pub data Command : Type 0 where
  send_kind : Command

pub data SubCommand : Type 0 where
  osc_kind midi_kind : SubCommand

pub record RequestMessage : Type 0 where
  pub command : Command
  pub sub_command : SubCommand
  pub bytes : List ℕ

abbrev pub invalid : {A : Type 0} → Text → A → Run (Done × A)
invalid message request = returns (err (invalid_argument message), request)

module _ {R : Type 0} (from_chars : Text → Option R) (write_packet : Packet R → Run (List ℕ)) where
  -- From the path on.
  unfoldable pub send_osc : Text → RequestMessage → Run (Done × RequestMessage)
  send_osc stream request = elim (next_token stream) [
    | none ↦ invalid (codes "missing path") request
    | some (path, after_path) ↦ elim (next_token after_path) [
      | none ↦ invalid (codes "missing message descriptor") request
      | some (message_descriptor, after_descriptor) ↦
          elim (text_eq message_descriptor (codes "f")) [
            | false ↦ invalid (codes "not implemented: " ++ message_descriptor) request
            | true ↦ elim (next_token after_descriptor) [
              | none ↦ invalid (codes "missing path") request
              | some (value_string, rest) ↦ elim (from_chars value_string) [
                | none ↦ invalid (codes "invalid value") request
                | some value ↦ do
                  bytes ←
                      write_packet
                        (record { address = path; arguments = float_argument value ∷ [] })
                  returns
                      (ok tt, record { command = send_kind; sub_command = osc_kind; bytes = bytes })
              ]
            ]
          ]
    ]
  ]

  unfoldable pub send_command : Text → RequestMessage → Run (Done × RequestMessage)
  unfolding send_osc
  send_command stream request = elim (next_token stream) [
    | none ↦ invalid (codes "missing sub-command") request
    | some (sub_command, rest) ↦
        if text_eq sub_command (codes "osc")
        then send_osc rest request
        else invalid (codes "unsupported sub-command " ++ sub_command) request
  ]
