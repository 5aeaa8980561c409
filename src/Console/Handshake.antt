-- ===== src/Console/Handshake.antt =====
-- The two threads of src/applications/console.cpp: the loop sets a request and waits, the signal
-- processor answers it. They share two atomic flags, the request and the message of the response.
use pmx.Base.{
  length, ap, ℕ, ◌+◌, ◌≡◌, refl, ◌∙◌, arith, Bool, true, false, List, [], ◌∷◌, Option, none, some,
  Text, codes,
}
use pmx.Commands.Send.{RequestMessage, send_kind, osc_kind}

-- `none` before the first: the source leaves the status uninitialised.
pub data ResponseStatus : Type 0 where
  ok_status error_status : ResponseStatus

pub record Shared : Type 0 where
  pub has_request : Bool
  pub has_response : Bool
  pub request : RequestMessage
  pub message : Text
  pub status : Option ResponseStatus
  -- the packets written into the output, and the answers printed, the last one first
  pub written : List (List ℕ)
  pub printed : List Text
  -- the loop stands in `has_response.wait(false)`
  pub waiting : Bool

-- `add_signal_processor`; the Boolean tells whether the port has a buffer. The only command of a
-- request is `send`. The flag is tested a second time, with nothing in between that clears it. The
-- answer `OK` leaves the status as it was.
unfoldable pub process_signal : Bool → Shared → Shared
process_signal buffer s = elim s.has_request [
  | false ↦ s
  | true ↦ elim buffer [
    | true ↦ record s {
      written = s.request.bytes ∷ s.written;
      has_request = false;
      message = codes "OK";
      has_response = true;
    }
    | false ↦ record s {
      message = codes "No buffer";
      status = some error_status;
      has_request = false;
      has_response = true;
    }
  ]
]

-- `send` after `send_command` has filled the request.
unfoldable pub submit : RequestMessage → Shared → Shared
submit request s = record s { request = request; has_request = true; waiting = true }

-- Behind the wait.
unfoldable pub answer : Shared → Shared
answer s = record s { has_response = false; waiting = false; printed = s.message ∷ s.printed }

pub data Step : Shared → Shared → Type 0 where
  cycle : (s : Shared) (buffer : Bool) → Step s (process_signal buffer s)
  send : (s : Shared) (request : RequestMessage) → s.waiting ≡ false → Step s (submit request s)
  wake : (s : Shared) → s.waiting ≡ true → s.has_response ≡ true → Step s (answer s)

pub data Reach (s : Shared) : Shared → Type 0 where
  here : Reach s s
  next : {t u : Shared} → Reach s t → Step t u → Reach s u

-- While the loop waits, exactly one of the two flags is set, and else none is.
abbrev paired : Bool → Bool → Bool → Bool
paired false false false = true
paired true true false = true
paired true false true = true
paired _ _ _ = false

abbrev pub IsPaired : Shared → Type 0
IsPaired s = paired s.waiting s.has_request s.has_response ≡ true

abbrev pub initial : Shared
initial = record {
  has_request = false;
  has_response = false;
  request = record { command = send_kind; sub_command = osc_kind; bytes = [] };
  message = [];
  status = none;
  written = [];
  printed = [];
  waiting = false;
}

Step-IsPaired : {s t : Shared} → Step s t → IsPaired s → IsPaired t
unfolding process_signal submit answer
Step-IsPaired (cycle s buffer) h = ground arith
Step-IsPaired (send s request free) h = ground arith
Step-IsPaired (wake s waits there) h = ground arith

Reach-IsPaired : {s t : Shared} → IsPaired s → Reach s t → IsPaired t
Reach-IsPaired h here = h
Reach-IsPaired h (next r st) = Step-IsPaired st (Reach-IsPaired h r)

-- The number of requests of a run.
abbrev pub sends : {s t : Shared} → Reach s t → ℕ
sends here = 0
sends (next r (cycle s buffer)) = sends r
sends (next r (send s request free)) = sends r + 1
sends (next r (wake s waits there)) = sends r

abbrev pub pending : Bool → ℕ
pending true = 1
pending false = 0

process_signal-printed :
    (buffer : Bool) (s : Shared)
    → ((process_signal buffer s).printed ≡ s.printed)
      × ((process_signal buffer s).waiting ≡ s.waiting)
unfolding process_signal
process_signal-printed buffer s = ground arith

-- In every interleaving of the two threads, each request but the one that is waited for has been
-- answered by one line, and while the loop waits either the request or the response is there.
pub Reach-sends :
    {t : Shared} (r : Reach initial t)
    → (sends r ≡ length t.printed + pending t.waiting) × IsPaired t
unfolding submit answer
Reach-sends here = (refl, refl)
Reach-sends (next r (cycle s buffer)) =
    let (count, pair) = Reach-sends r in
    (ground (arith, process_signal-printed buffer s), Step-IsPaired (cycle s buffer) pair)
Reach-sends (next r (send s request free)) =
    let (count, pair) = Reach-sends r in
    (ground (arith, count), Step-IsPaired (send s request free) pair)
Reach-sends (next r (wake s waits there)) =
    let (count, pair) = Reach-sends r in
    (ground (arith, count), Step-IsPaired (wake s waits there) pair)

-- Wherever the loop waits, one cycle of the signal processor, with a buffer or without, lets it go
-- on: it prints one more line, and both flags are clear.
pub process_signal-Reach :
    (t : Shared) (buffer : Bool)
    → Reach initial t
    → t.waiting ≡ true
    → (u : Shared) × Reach (process_signal buffer t) u
      × (u.waiting ≡ false)
      × (u.has_request ≡ false)
      × (u.has_response ≡ false)
      × (u.printed ≡ (process_signal buffer t).message ∷ t.printed)
process_signal-Reach t buffer r waits =
    let pair = Reach-IsPaired refl r in
    let there : (process_signal buffer t).has_response ≡ true =
      unfold process_signal in ground arith in
    let taken : (process_signal buffer t).has_request ≡ false =
      unfold process_signal in ground arith in
    let (printed, still) = process_signal-printed buffer t in
    (
      answer (process_signal buffer t),
      next here (wake (process_signal buffer t) (still ∙ waits) there),
      unfold answer in refl,
      unfold answer in taken,
      unfold answer in refl,
      unfold answer in ap (◌∷◌ (process_signal buffer t).message) printed,
    )
