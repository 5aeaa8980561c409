-- ===== src/Console.antt =====
-- src/applications/console.cpp: the loop that reads lines and runs commands, and, in the child, the
-- signal processor that sends what `send` requests. CLI11 and the reading of a line are arguments.
pub mod Handshake
use pmx.Base.{
  Bool, true, false, List, [], ◌∷◌, ◌++◌, Option, none, some, Text, codes, text_eq, if◌then◌else◌,
  Result, ok, err,
}
use pmx.Tokens.{next_token}
use pmx.Errors.{Error, SdError}
use pmx.Commands.{Outcome, Done}

-- What `app.parse` finds; a line that it does not take is a `CLI::ParseError`.
pub data CliCommand : Type 0 where
  cli_exit cli_start cli_status cli_nothing : CliCommand

-- What a line makes the loop do. The rest of the line goes to the command.
pub data Action : Type 0 where
  leave : Action
  nothing : Action
  run_start run_status : Action
  run_send run_watch run_list run_describe run_meta run_pmx run_setup : Text → Action
  unknown_command : Text → Action

-- The first word of a line that CLI11 has refused.
unfoldable pub token_action : Text → Text → Action
token_action token rest =
    if text_eq token (codes "send")
    then run_send rest
    else if text_eq token (codes "watch")
    then run_watch rest
    else if text_eq token (codes "list")
    then run_list rest
    else if text_eq token (codes "describe")
    then run_describe rest
    else if text_eq token (codes "meta")
    then run_meta rest
    else if text_eq token (codes "status")
    then run_status
    else if text_eq token (codes "pmx")
    then run_pmx rest
    else if text_eq token (codes "setup")
    then run_setup rest
    else unknown_command token

unfoldable pub line_action : (Text → Option CliCommand) → Text → Action
unfolding token_action
line_action cli line = elim (cli line) [
  | some cli_exit ↦ leave
  | some cli_start ↦ run_start
  | some cli_status ↦ run_status
  | some cli_nothing ↦ nothing
  | none ↦
      if text_eq line (codes "exit")
      then leave
      else if text_eq line (codes "help")
      then nothing
      else elim (next_token line) [ none ↦ nothing | some (token, rest) ↦ token_action token rest ]
]

abbrev pub error_line : Text → Text
error_line message = codes "There was an error: " ++ message

-- What the loop prints after a command; the result of `describe` is dropped.
unfoldable pub shown : Action → Outcome → List Text
shown (run_describe rest) outcome = outcome.printed
shown leave outcome = []
shown nothing outcome = []
shown (unknown_command token) outcome = (codes "Unknown command: " ++ token) ∷ []
shown _ outcome =
    outcome.printed ++ elim outcome.result [ ok done ↦ [] | err e ↦ error_line e.message ∷ [] ]

-- The loop over the lines, up to the end of the input or a line that leaves it. `run` is a command,
-- which changes a state of its own.
unfoldable pub read_lines :
    {S : Type 0}
    → (Text → Option CliCommand)
    → (Action → S → Outcome × S)
    → List Text
    → S
    → List Text × S
unfolding line_action shown
read_lines cli run [] s = (codes "Goodbye!" ∷ [], s)
read_lines cli run (line ∷ lines) s = elim (line_action cli line) [
  | leave ↦ (codes "Goodbye!" ∷ [], s)
  | action ↦
      let (outcome, t) = run action s in
      let (more, last) = read_lines cli run lines t in (shown action outcome ++ more, last)
]
