-- ===== src/MidiRouter/Message.antt =====
-- The MIDI messages that `pwcpp::midi::parse_midi` hands over, with the fields that the router
-- reads, and `get_midi_messages` of include/midi/router/midi_router.h.
use mathlib.Core.List.{append-nil, append_assoc}
use pmx.Base.{
  Text, ◌∙◌, ap, ℕ, zero, suc, ◌+◌, ◌≤◌, ◌≡◌, refl, arith, List, [], ◌∷◌, ◌++◌, Option, none, some,
  replicate, set, values, length, length-append, Result, ok, err,
}

pub record ControlChange : Type 0 where
  pub cc_number : ℕ
  pub value : ℕ

pub data Message : Type 0 where
  control_change : ControlChange → Message
  note_off : ℕ → Message
  other_message : Message

-- The result of `parse_midi<16>`.
abbrev pub Parsed : Type 0
Parsed = Result Text (List (Option Message))

-- The loop over the parsed messages writes those that are there at an iterator that moves on.
insert_messages : List (Option Message) → List (Option Message) → ℕ → List (Option Message)
insert_messages [] out i = out
insert_messages (none ∷ ms) out i = insert_messages ms out i
insert_messages (some m ∷ ms) out i = insert_messages ms (set out i (some m)) (i + 1)

unfoldable pub get_midi_messages : Parsed → List (Option Message)
unfolding insert_messages
get_midi_messages (ok parsed) = insert_messages parsed (replicate 16 none) 0
get_midi_messages (err e) = replicate 16 none

-- The array with some messages in front and `k` empty places.
abbrev filled : List Message → ℕ → List (Option Message)
filled [] k = replicate k none
filled (m ∷ ms) k = some m ∷ filled ms k

values-filled : (ms : List Message) (k : ℕ) → values (filled ms k) ≡ ms
values-filled [] zero = refl
values-filled [] (suc k) = values-filled [] k
values-filled (m ∷ ms) k = ap (◌∷◌ m) (values-filled ms k)

set-filled :
    (ms : List Message) (k : ℕ) (m : Message)
    → set (filled ms (suc k)) (length ms) (some m) ≡ filled (ms ++ m ∷ []) k
set-filled [] k m = refl
set-filled (x ∷ ms) k m = ap (◌∷◌ (some x)) (set-filled ms k m)

values-insert_messages :
    (parsed : List (Option Message)) (ms : List Message) (k : ℕ)
    → length (values parsed) ≤ k
    → values (insert_messages parsed (filled ms k) (length ms)) ≡ ms ++ values parsed
unfolding insert_messages
values-insert_messages [] ms k h = rw (append-nil ms) (values-filled ms k)
values-insert_messages (none ∷ parsed) ms k h = values-insert_messages parsed ms k h
values-insert_messages (some m ∷ parsed) ms zero h = absurd (omega arith)
values-insert_messages (some m ∷ parsed) ms (suc k) h =
    rw (set-filled ms k m, ← append_one)
      (values-insert_messages parsed (ms ++ m ∷ []) k (omega arith)
        ∙ append_assoc ms (m ∷ []) (values parsed))
  where
    append_one : length (ms ++ m ∷ []) ≡ length ms + 1
    append_one = length-append ms (m ∷ [])

-- If the parser finds at most sixteen messages, the array holds them in their order, and none is lost.
pub values-get_midi_messages :
    (parsed : List (Option Message))
    → length (values parsed) ≤ 16
    → values (get_midi_messages (ok parsed)) ≡ values parsed
unfolding get_midi_messages
values-get_midi_messages parsed h = values-insert_messages parsed [] 16 h
