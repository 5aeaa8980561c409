-- ===== src/Commands/Results.antt =====
-- src/commands: what the commands come to, on every line.
use pmx.Base.{
  ℕ, ◌≡◌, ◌⊎◌, inl, inr, ap, ◌∙◌, arith, true, List, [], ◌∷◌, Option, some, Text, codes, text_eq,
  text_eq_sound, Bool-cases, Option-cases, Run-cases, stoi, Run, returns, faults, Fault, ok,
}
use pmx.Tokens.{next_token, all_digits}
use pmx.Errors.{invalid_argument}
use pmx.Pod.{Packet, float_argument}
use pmx.Collections.{Link, WpProxy}
use pmx.ProxyWatcher.{Watcher}
use pmx.Commands.{fails, prints}
use pmx.Commands.Simple.{pmx_command}
use pmx.Commands.Send.{RequestMessage, send_osc, send_command}
use pmx.Commands.Describe.{describe_command}

-- `pmx` writes at most one value: the one for `enable` with success, or the one for `disable`, which
-- is reported as a missing sub command although it was carried out.
pub pmx_command-metadata_writes :
    (stream : Text) (proxies : List WpProxy)
    → let done = pmx_command stream proxies in
      (done.metadata_writes ≡ [])
      ⊎ ((done.metadata_writes ≡ (codes "enabled", codes "true") ∷ []) × (done.outcome ≡ prints []))
      ⊎ ((done.metadata_writes ≡ (codes "enabled", codes "false") ∷ [])
          × (done.outcome ≡ fails (invalid_argument (codes "missing sub command"))))
unfolding pmx_command
pmx_command-metadata_writes stream proxies = ground arith

module _ {R : Type 0} (from_chars : Text → Option R) (write_packet : Packet R → Run (List ℕ)) where
  -- The words of a line that `send` takes: osc, a path, f and a number.
  abbrev pub IsSendLine : Text → Text → R → Type 0
  IsSendLine stream path value =
      (after_osc : Text) × (after_path : Text) × (after_descriptor : Text) × (rest : Text)
      × (number : Text) × (next_token stream ≡ some (codes "osc", after_osc))
      × (next_token after_osc ≡ some (path, after_path))
      × (next_token after_path ≡ some (codes "f", after_descriptor))
      × (next_token after_descriptor ≡ some (number, rest))
      × (from_chars number ≡ some value)

  send_osc-outcome :
      (stream : Text) (request after : RequestMessage)
      → send_osc from_chars write_packet stream request ≡ returns (ok tt, after)
      → (path : Text) × (value : R) × (after_path : Text) × (after_descriptor : Text)
        × (rest : Text) × (number : Text) × (next_token stream ≡ some (path, after_path))
        × (next_token after_path ≡ some (codes "f", after_descriptor))
        × (next_token after_descriptor ≡ some (number, rest))
        × (from_chars number ≡ some value)
        × (write_packet (record { address = path; arguments = float_argument value ∷ [] })
            ≡ returns after.bytes)
  unfolding send_osc
  send_osc-outcome stream request after h = elim (Option-cases (next_token stream)) [
    | inl missing ↦ absurd (ground (arith, missing))
    | inr ((path, after_path), first) ↦ elim (Option-cases (next_token after_path)) [
      | inl missing ↦ absurd (ground (arith, first, missing))
      | inr ((descriptor, after_descriptor), second) ↦
          elim (Bool-cases (text_eq descriptor (codes "f"))) [
            | inr other ↦ absurd (ground (arith, first, second, other))
            | inl float ↦ elim (Option-cases (next_token after_descriptor)) [
              | inl missing ↦ absurd (ground (arith, first, second, float, missing))
              | inr ((number, rest), third) ↦ elim (Option-cases (from_chars number)) [
                | inl bad ↦ absurd (ground (arith, first, second, float, third, bad))
                | inr (value, good) ↦
                    elim (Run-cases (
                      write_packet
                        (record { address = path; arguments = float_argument value ∷ [] }))) [
                          | inr (e, thrown) ↦
                              absurd (ground (arith, first, second, float, third, good, thrown))
                          | inl (bytes, written) ↦ (
                            path,
                            value,
                            after_path,
                            after_descriptor,
                            rest,
                            number,
                            first,
                            second
                                ∙ ap (λ d. some (d, after_descriptor))
                                    (text_eq_sound descriptor (codes "f") float),
                            third,
                            good,
                            written ∙ ground (arith, first, second, float, third, good, written),
                          )
                        ]
              ]
            ]
          ]
    ]
  ]

  -- `send` succeeds only on a line of the words osc, a path, f and a number, and then the request
  -- holds the packet with that path and that number.
  pub send_command-outcome :
      (stream : Text) (request after : RequestMessage)
      → send_command from_chars write_packet stream request ≡ returns (ok tt, after)
      → (path : Text) × (value : R) × (after_osc : Text) × (after_path : Text)
        × (after_descriptor : Text) × (rest : Text) × (number : Text) × (next_token stream
            ≡ some (codes "osc", after_osc))
        × (next_token after_osc ≡ some (path, after_path))
        × (next_token after_path ≡ some (codes "f", after_descriptor))
        × (next_token after_descriptor ≡ some (number, rest))
        × (from_chars number ≡ some value)
        × (write_packet (record { address = path; arguments = float_argument value ∷ [] })
            ≡ returns after.bytes)
  unfolding send_command
  send_command-outcome stream request after h = elim (Option-cases (next_token stream)) [
    | inl missing ↦ absurd (ground (arith, missing))
    | inr ((word, after_osc), read) ↦ elim (Bool-cases (text_eq word (codes "osc"))) [
      | inr other ↦ absurd (ground (arith, read, other))
      | inl osc ↦
          let inner : send_osc from_chars write_packet after_osc request ≡ returns (ok tt, after) =
            ground (arith, read, osc) in
          let (path, value, after_path, after_descriptor, rest, number, a, b, c, d, e) =
            send_osc-outcome after_osc request after inner in
          (
            path,
            value,
            after_osc,
            after_path,
            after_descriptor,
            rest,
            number,
            read ∙ ap (λ d. some (d, after_osc)) (text_eq_sound word (codes "osc") osc),
            a,
            b,
            c,
            d,
            e,
          )
    ]
  ]

-- `describe` throws on nothing but a number that an `int` cannot hold.
pub describe_command-faults :
    {R : Type 0} (real_text : R → Text) (stream : Text) (proxies : List WpProxy) (w : Watcher R)
    (links : List Link) (e : Fault)
    → describe_command real_text stream proxies w links ≡ faults e
    → (object : Text) × (rest : Text) × (next_token stream ≡ some (object, rest))
      × (all_digits object ≡ true)
      × (stoi object ≡ faults e)
unfolding describe_command
describe_command-faults real_text stream proxies w links e h =
    elim (Option-cases (next_token stream)) [
      | inl missing ↦ absurd (ground (arith, missing))
      | inr ((object, rest), read) ↦
          (object, rest, read, ground (arith, read), ground (arith, read))
    ]
