-- ===== src/Network/Relay.antt =====
-- The sender and the receiver together, and the sleep of the sender's thread.
use mathlib.Core.List.{append-nil, append_assoc}
use pmx.Base.{
  ◌≢◌, ℕ, zero, suc, ◌+◌, ◌≤◌, ◌<◌, ◌≡◌, refl, sym, ap, ◌∙◌, arith, Bool, true, false, List, [],
  ◌∷◌, ◌++◌, length, length-append, take, All, returns, le→leb,
}
use pmx.Pod.{ControlType, osc_control, ump_control, other_control}
use pmx.Network.{Bytes, push, copy_message}
use pmx.Network.Sender.{process_controls, Sender, popping, falling_asleep, pop, arrive}
use pmx.Network.Receiver.{receive, receive_all, drain}

-- The OSC packets among the controls.
abbrev pub osc_bodies : List (ControlType × Bytes) → List Bytes
osc_bodies [] = []
osc_bodies ((osc_control, body) ∷ controls) = body ∷ osc_bodies controls
osc_bodies ((ump_control, body) ∷ controls) = osc_bodies controls
osc_bodies ((other_control, body) ∷ controls) = osc_bodies controls

abbrev pub osc_controls : List (ControlType × Bytes) → List (ControlType × Bytes)
osc_controls [] = []
osc_controls ((osc_control, body) ∷ controls) = (osc_control, body) ∷ osc_controls controls
osc_controls ((ump_control, body) ∷ controls) = osc_controls controls
osc_controls ((other_control, body) ∷ controls) = osc_controls controls

push_room :
    (queue : List Bytes) (message : Bytes)
    → length queue < 128
    → push queue message ≡ queue ++ message ∷ []
unfolding push
push_room queue message h = ground arith

process_controls-osc_bodies :
    (controls : List (ControlType × Bytes)) (queue : List Bytes)
    → length queue + length (osc_bodies controls) ≤ 128
    → All (λ body. length body ≤ 4096) (osc_bodies controls)
    → (woken : Bool) × (process_controls controls queue
        ≡ returns (queue ++ osc_bodies controls, woken))
unfolding process_controls copy_message
process_controls-osc_bodies [] queue room small = (false, rw (append-nil queue) refl)
process_controls-osc_bodies ((osc_control, body) ∷ controls) queue room small =
    let pushed = push_room queue body (omega arith) in
    let longer = length-append queue (body ∷ []) in
    let (woken, rest) =
      process_controls-osc_bodies controls (queue ++ body ∷ []) (omega arith) small.1 in
    (
      true,
      rw
          (
            le→leb (length body) 4096 small.0,
            pushed,
            rest,
            append_assoc queue (body ∷ []) (osc_bodies controls),
          )
          refl,
    )
process_controls-osc_bodies ((ump_control, body) ∷ controls) queue room small =
    process_controls-osc_bodies controls queue room small
process_controls-osc_bodies ((other_control, body) ∷ controls) queue room small =
    process_controls-osc_bodies controls queue room small

take-length : (n : ℕ) (xs : Bytes) → length xs ≤ n → take n xs ≡ xs
take-length zero [] h = refl
take-length zero (x ∷ xs) h = absurd (omega arith)
take-length (suc n) [] h = refl
take-length (suc n) (x ∷ xs) h = ap (◌∷◌ x) (take-length n xs (omega arith))

receive_all-append :
    (datagrams queue : List Bytes)
    → length queue + length datagrams ≤ 128
    → All (λ d. length d ≤ 4096) datagrams
    → receive_all queue datagrams ≡ queue ++ datagrams
unfolding receive_all receive
receive_all-append [] queue room small = sym (append-nil queue)
receive_all-append (d ∷ datagrams) queue room small =
    let longer = length-append queue (d ∷ []) in
    rw (take-length 4096 d small.0, push_room queue d (omega arith))
      (receive_all-append datagrams (queue ++ d ∷ []) (omega arith) small.1
        ∙ append_assoc queue (d ∷ []) datagrams)

drain-osc_bodies :
    (controls : List (ControlType × Bytes)) → drain (osc_bodies controls) ≡ osc_controls controls
unfolding drain
drain-osc_bodies [] = refl
drain-osc_bodies ((osc_control, body) ∷ controls) =
    ap (◌∷◌ (osc_control, body)) (drain-osc_bodies controls)
drain-osc_bodies ((ump_control, body) ∷ controls) = drain-osc_bodies controls
drain-osc_bodies ((other_control, body) ∷ controls) = drain-osc_bodies controls

-- So many rounds of the sender's thread, over UDP.
unfoldable pub pop_times : ℕ → Sender → Sender
pop_times zero s = s
pop_times (suc n) s = pop_times n (pop true s)

pop_cons :
    (s : Sender) (m : Bytes) (q : List Bytes)
    → s.queue ≡ m ∷ q
    → pop true s ≡ record s { queue = q; sent = s.sent ++ m ∷ [] }
unfolding pop
pop_cons s m q e = ground arith

pop_times-queue :
    (q : List Bytes) (s : Sender)
    → s.queue ≡ q
    → pop_times (length q) s ≡ record s { queue = []; sent = s.sent ++ q }
unfolding pop_times
pop_times-queue [] s e = ground (arith, append-nil s.sent)
pop_times-queue (m ∷ q) s e =
    ap (pop_times (length q)) (pop_cons s m q e)
    ∙ pop_times-queue q (record s { queue = q; sent = s.sent ++ m ∷ [] }) refl
    ∙ ap (λ sent. record s { queue = []; sent = sent }) (append_assoc s.sent (m ∷ []) q)

arrive_awake :
    (s : Sender) (message : Bytes)
    → s.phase ≢ falling_asleep
    → length s.queue < 128
    → arrive message s ≡ record s { queue = s.queue ++ message ∷ []; phase = popping }
unfolding arrive push
arrive_awake s message awake room = ground (arith, awake)

-- A thread that pops or sleeps sends what is queued and the message that arrives, in their order, in
-- one round for each; the queue has room for the message.
pub pop_times-arrive :
    (s : Sender) (message : Bytes)
    → s.phase ≢ falling_asleep
    → length s.queue < 128
    → let last = pop_times (length s.queue + 1) (arrive message s) in
      (last.queue ≡ []) × (last.sent ≡ s.sent ++ s.queue ++ message ∷ []) × (last.phase ≡ popping)
pop_times-arrive s message awake room =
    let arrived = arrive_awake s message awake room in
    let count : length (s.queue ++ message ∷ []) ≡ length s.queue + 1 =
      omega (arith, length-append s.queue (message ∷ [])) in
    let last =
      pop_times-queue (s.queue ++ message ∷ [])
        (record s { queue = s.queue ++ message ∷ []; phase = popping }) refl in
    let whole =
      ap (λ n. pop_times n (arrive message s)) (sym count)
      ∙ ap (pop_times (length (s.queue ++ message ∷ []))) arrived
      ∙ last in
    (
      ap (λ (u : Sender). u.queue) whole,
      ap (λ (u : Sender). u.sent) whole ∙ sym (append_assoc s.sent s.queue (message ∷ [])),
      ap (λ (u : Sender). u.phase) whole,
    )

-- What the sender takes from the graph, the receiver puts into the graph: the OSC packets, in their
-- order and with their bytes. There are at most 128 of at most 4096 bytes, both queues are empty,
-- and every datagram arrives, in order.
pub drain-process_controls :
    (controls : List (ControlType × Bytes))
    → length (osc_bodies controls) ≤ 128
    → All (λ body. length body ≤ 4096) (osc_bodies controls)
    → (queue : List Bytes) × (woken : Bool) × (process_controls controls []
        ≡ returns (queue, woken))
      × (drain (
            receive_all []
              (pop_times
                (length queue)
                (record { queue = queue; phase = popping; sent = [] })).sent)
          ≡ osc_controls controls)
drain-process_controls controls room small =
    let (woken, taken) = process_controls-osc_bodies controls [] (omega arith) small in
    (
      osc_bodies controls,
      woken,
      taken,
      rw
          (
            pop_times-queue (osc_bodies controls)
                (record { queue = osc_bodies controls; phase = popping; sent = [] }) refl,
            receive_all-append (osc_bodies controls) [] (omega arith) small,
          )
          (drain-osc_bodies controls),
    )
