-- ===== src/Traktor.antt =====
-- src/applications/traktor_z1_router.cpp: a thread reads the reports of a Traktor Z1 from a file, and
-- the signal processor sends what changed since the report before. The conversion of a
-- `std::uint16_t` to a float is an argument; opening the file is not modelled.
pub mod Changes
use pmx.Base.{
  ℕ, ◌+◌, ◌*◌, ◌%◌, ◌^◌, ◌==◌, Bool, true, false, not, List, [], ◌∷◌, ◌++◌, Option, none, some,
  Text, codes, ltb, if◌then◌else◌, length, get_elem?, values, ◌||◌,
}
use pmx.Pod.{Packet, float_argument, BuilderCall, control, bytes, packet, osc_control}

pub record TraktorZ1Message : Type 0 where
  pub gain_l : ℕ
  pub hi_l : ℕ
  pub mid_l : ℕ
  pub low_l : ℕ
  pub filter_l : ℕ
  pub gain_r : ℕ
  pub hi_r : ℕ
  pub mid_r : ℕ
  pub low_r : ℕ
  pub filter_r : ℕ
  pub cue_mix : ℕ
  pub fader_l : ℕ
  pub fader_r : ℕ
  pub cross_fader : ℕ

-- `(buffer[i + 1] << 8) + buffer[i]`, as a `std::uint16_t`.
abbrev byte_in : List ℕ → ℕ → ℕ
byte_in buffer i = elim (get_elem? buffer i) [ none ↦ 0 | some b ↦ b ]

abbrev pub word_at : List ℕ → ℕ → ℕ
word_at buffer i = (byte_in buffer (i + 1) * 2 ^ 8 + byte_in buffer i) % 2 ^ 16

unfoldable pub decode : List ℕ → TraktorZ1Message
decode buffer = record {
  gain_l = word_at buffer 1;
  hi_l = word_at buffer 3;
  mid_l = word_at buffer 5;
  low_l = word_at buffer 7;
  filter_l = word_at buffer 9;
  gain_r = word_at buffer 11;
  hi_r = word_at buffer 13;
  mid_r = word_at buffer 15;
  low_r = word_at buffer 17;
  filter_r = word_at buffer 19;
  cue_mix = word_at buffer 21;
  fader_l = word_at buffer 23;
  fader_r = word_at buffer 25;
  cross_fader = word_at buffer 27;
}

-- `spsc_queue<traktor_z1_message> queue(128)`: a push into a full queue does nothing.
abbrev pub push : List TraktorZ1Message → TraktorZ1Message → List TraktorZ1Message
push queue message = if ltb (length queue) 128 then queue ++ message ∷ [] else queue

-- One report of 30 bytes.
unfoldable pub read_report : List ℕ → List TraktorZ1Message → List TraktorZ1Message
unfolding decode
read_report buffer queue = elim (get_elem? buffer 0) [
  | none ↦ queue
  | some id ↦ if id == 1 then push queue (decode buffer) else queue
]

abbrev pub Change : Type 0
Change = Option (Text × ℕ)

abbrev pub change : Text → ℕ → ℕ → Change
change path before now = if not (before == now) then some (path, now) else none

unfoldable pub changes : TraktorZ1Message → TraktorZ1Message → List Change
changes previous message =
    change (codes "/L/A/1/MIX/fx_gain") previous.gain_l message.gain_l
    ∷ change (codes "/L/A/1/EQU/high") previous.hi_l message.hi_l
    ∷ change (codes "/L/A/1/EQU/mid") previous.mid_l message.mid_l
    ∷ change (codes "/L/A/1/EQU/low") previous.low_l message.low_l
    ∷ change (codes "/L/A/1/MIX/fx_mix") previous.filter_l message.filter_l
    ∷ change (codes "/L/B/1/MIX/fx_gain") previous.gain_r message.gain_r
    ∷ change (codes "/L/B/1/EQU/high") previous.hi_r message.hi_r
    ∷ change (codes "/L/B/1/EQU/mid") previous.mid_r message.mid_r
    ∷ change (codes "/L/B/1/EQU/low") previous.low_r message.low_r
    ∷ change (codes "/L/B/1/MIX/fx_mix") previous.filter_r message.filter_r
    ∷ change (codes "/cue_mix") previous.cue_mix message.cue_mix
    ∷ change (codes "/L/A/1/EQU/master") previous.fader_l message.fader_l
    ∷ change (codes "/L/B/1/EQU/master") previous.fader_r message.fader_r
    ∷ change (codes "/cross_fader") previous.cross_fader message.cross_fader
    ∷ []

-- `previous` and `is_init`.
pub record Memory : Type 0 where
  pub previous : TraktorZ1Message
  pub is_init : Bool

module _ {R : Type 0} (float_of : ℕ → R) where
  -- The bytes of each change, behind the one control.
  abbrev pub write_bytes : List (Text × ℕ) → List (BuilderCall R)
  write_bytes [] = []
  write_bytes ((path, value) ∷ rest) =
      bytes (packet (record { address = path; arguments = float_argument (float_of value) ∷ [] }))
      ∷ write_bytes rest

  abbrev pub write_changes : List (Text × ℕ) → List (BuilderCall R)
  write_changes [] = []
  write_changes (c ∷ cs) = control osc_control ∷ write_bytes (c ∷ cs)

  -- The loop that pops every message.
  unfoldable pub process_queue : List TraktorZ1Message → Memory → List (BuilderCall R) × Memory
  unfolding changes
  process_queue [] m = ([], m)
  process_queue (message ∷ queue) m = elim m.is_init [
    | true ↦ process_queue queue (record { previous = message; is_init = false })
    | false ↦
        let (rest, last) = process_queue queue (record m { previous = message }) in
        (write_changes (values (changes m.previous message)) ++ rest, last)
  ]

  -- The whole callback: without a message or a buffer the queue is left as it is.
  unfoldable pub process_signal :
      Bool
      → List TraktorZ1Message
      → Memory
      → Option (List (BuilderCall R)) × List TraktorZ1Message × Memory
  unfolding process_queue
  process_signal has_buffer [] m = (none, [], m)
  process_signal false (message ∷ queue) m = (none, message ∷ queue, m)
  process_signal true (message ∷ queue) m =
      let (calls, last) = process_queue (message ∷ queue) m in (some calls, [], last)
