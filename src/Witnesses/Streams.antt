-- ===== src/Witnesses/Streams.antt =====
-- Runs of the programs with more than one thread, and of the gRPC service.
use pmx.Base.{◌+◌, ◌≡◌, refl, arith, Bool, true, false, List, [], ◌∷◌, ◌++◌, length, returns}
use pmx.Pod.{ControlType, osc_control, ump_control}
use pmx.Console.Handshake.{
  Shared, initial, Reach, here, next, send, IsPaired, sends, pending, submit, process_signal,
  Reach-sends, process_signal-Reach,
}
use pmx.Commands.Send.{RequestMessage, send_kind, osc_kind}
use pmx.Network.Sender.{Sender, popping, sleeping, process_controls, arrive}
use pmx.Network.Receiver.{receive_all, drain}
use pmx.Network.Relay.{osc_controls, pop_times, pop_times-arrive, drain-process_controls}
use pmx.Network.{Bytes}

abbrev ping : RequestMessage
ping = record { command = send_kind; sub_command = osc_kind; bytes = 47 ∷ 112 ∷ [] }

abbrev asked : Reach initial (submit ping initial)
asked = next here (send initial ping refl)

Reach-sends_example :
    (sends asked ≡ length (submit ping initial).printed + pending (submit ping initial).waiting)
    × IsPaired (submit ping initial)
Reach-sends_example = Reach-sends asked

process_signal-Reach_example :
    (u : Shared) × Reach (process_signal true (submit ping initial)) u
    × (u.waiting ≡ false)
    × (u.has_request ≡ false)
    × (u.has_response ≡ false)
    × (u.printed
        ≡ (process_signal true (submit ping initial)).message ∷ (submit ping initial).printed)
process_signal-Reach_example =
    process_signal-Reach (submit ping initial) true asked (unfold submit in refl)

abbrev three_controls : List (ControlType × Bytes)
three_controls =
    (osc_control, 47 ∷ 97 ∷ []) ∷ (ump_control, 32 ∷ []) ∷ (osc_control, 47 ∷ 98 ∷ []) ∷ []

drain-process_controls_example :
    (queue : List Bytes) × (woken : Bool) × (process_controls three_controls []
      ≡ returns (queue, woken))
    × (drain (
          receive_all []
            (pop_times (length queue) (record { queue = queue; phase = popping; sent = [] })).sent)
        ≡ osc_controls three_controls)
drain-process_controls_example =
    drain-process_controls three_controls (omega arith) (omega arith, (omega arith, tt))

abbrev asleep : Sender
asleep = record { queue = (47 ∷ []) ∷ []; phase = sleeping; sent = [] }

pop_times-arrive_example :
    let last = pop_times (length asleep.queue + 1) (arrive (47 ∷ 99 ∷ []) asleep) in
    (last.queue ≡ [])
    × (last.sent ≡ asleep.sent ++ asleep.queue ++ (47 ∷ 99 ∷ []) ∷ [])
    × (last.phase ≡ popping)
pop_times-arrive_example = pop_times-arrive asleep (47 ∷ 99 ∷ []) (λ e. cc) (omega arith)
