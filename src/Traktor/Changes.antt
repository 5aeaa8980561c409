-- ===== src/Traktor/Changes.antt =====
-- What src/applications/traktor_z1_router.cpp sends is enough to follow the device, and how it is laid
-- out.
use pmx.Base.{
  ℕ, ◌+◌, ◌*◌, ◌/◌, ◌%◌, ◌^◌, ◌==◌, ◌<◌, ◌≡◌, refl, ap, ◌∙◌, arith, Bool, true, false, not, ◌&&◌,
  List, [], ◌∷◌, ◌++◌, Text, codes, text_eq, text_eq_sym, text_eq_sound, text_eq_refl, leb,
  if◌then◌else◌, length, values, Bool-cases, inl, inr, ==_iff,
}
use pmx.Pod.{is_sequence}
use pmx.Traktor.{TraktorZ1Message, decode, changes, Change, change, write_changes}

-- A value below 2 ^ 16, low byte first.
abbrev little_endian : ℕ → List ℕ
little_endian n = n % 256 ∷ n / 256 ∷ []

-- The report with the id 1 that carries a message; its last byte is 0.
abbrev pub encode : TraktorZ1Message → List ℕ
encode m =
    1
    ∷ (little_endian m.gain_l
        ++ (little_endian m.hi_l
            ++ (little_endian m.mid_l
                ++ (little_endian m.low_l
                    ++ (little_endian m.filter_l
                        ++ (little_endian m.gain_r
                            ++ (little_endian m.hi_r
                                ++ (little_endian m.mid_r
                                    ++ (little_endian m.low_r
                                        ++ (little_endian m.filter_r
                                            ++ (little_endian m.cue_mix
                                                ++ (little_endian m.fader_l
                                                    ++ (little_endian m.fader_r
                                                        ++ (little_endian m.cross_fader
                                                            ++ (0 ∷ [])))))))))))))))

abbrev pub IsMessage : TraktorZ1Message → Type 0
IsMessage m =
    (m.gain_l < 2 ^ 16)
    × (m.hi_l < 2 ^ 16)
    × (m.mid_l < 2 ^ 16)
    × (m.low_l < 2 ^ 16)
    × (m.filter_l < 2 ^ 16)
    × (m.gain_r < 2 ^ 16)
    × (m.hi_r < 2 ^ 16)
    × (m.mid_r < 2 ^ 16)
    × (m.low_r < 2 ^ 16)
    × (m.filter_r < 2 ^ 16)
    × (m.cue_mix < 2 ^ 16)
    × (m.fader_l < 2 ^ 16)
    × (m.fader_r < 2 ^ 16)
    × (m.cross_fader < 2 ^ 16)

little_endian_word : (n : ℕ) → n < 2 ^ 16 → (n / 256 * 2 ^ 8 + n % 256) % 2 ^ 16 ≡ n
little_endian_word n h = omega arith

-- Decoding the report of a message with 16-bit values gives the message back.
pub decode-encode : (m : TraktorZ1Message) → IsMessage m → decode (encode m) ≡ m
unfolding decode
decode-encode m h =
    rw
      (
        little_endian_word m.gain_l h.0,
        little_endian_word m.hi_l h.1,
        little_endian_word m.mid_l h.2,
        little_endian_word m.low_l h.3,
        little_endian_word m.filter_l h.4,
        little_endian_word m.gain_r h.5,
        little_endian_word m.hi_r h.6,
        little_endian_word m.mid_r h.7,
        little_endian_word m.low_r h.8,
        little_endian_word m.filter_r h.9,
        little_endian_word m.cue_mix h.10,
        little_endian_word m.fader_l h.11,
        little_endian_word m.fader_r h.12,
        little_endian_word m.cross_fader h.13,
      )
      refl

abbrev Settings : Type 0
Settings = List (Text × ℕ)

-- What the device stands at, under the paths that are sent.
abbrev pub settings : TraktorZ1Message → Settings
settings m =
    (codes "/L/A/1/MIX/fx_gain", m.gain_l)
    ∷ (codes "/L/A/1/EQU/high", m.hi_l)
    ∷ (codes "/L/A/1/EQU/mid", m.mid_l)
    ∷ (codes "/L/A/1/EQU/low", m.low_l)
    ∷ (codes "/L/A/1/MIX/fx_mix", m.filter_l)
    ∷ (codes "/L/B/1/MIX/fx_gain", m.gain_r)
    ∷ (codes "/L/B/1/EQU/high", m.hi_r)
    ∷ (codes "/L/B/1/EQU/mid", m.mid_r)
    ∷ (codes "/L/B/1/EQU/low", m.low_r)
    ∷ (codes "/L/B/1/MIX/fx_mix", m.filter_r)
    ∷ (codes "/cue_mix", m.cue_mix)
    ∷ (codes "/L/A/1/EQU/master", m.fader_l)
    ∷ (codes "/L/B/1/EQU/master", m.fader_r)
    ∷ (codes "/cross_fader", m.cross_fader)
    ∷ []

-- A receiver that stores each value that is sent under its path.
abbrev pub store : Text × ℕ → Settings → Settings
store c [] = []
store c (s ∷ st) = (if text_eq s.0 c.0 then c else s) ∷ store c st

abbrev pub receive : Settings → Settings → Settings
receive st [] = st
receive st (c ∷ cs) = receive (store c st) cs

abbrev all_changes : Settings → Settings → List Change
all_changes [] now = []
all_changes before [] = []
all_changes (b ∷ before) (n ∷ now) = change n.0 b.1 n.1 ∷ all_changes before now

abbrev absent : Text → Settings → Bool
absent path [] = true
absent path (s ∷ st) = not (text_eq s.0 path) && absent path st

-- The same paths, each once.
abbrev Match : Settings → Settings → Type 0
Match [] [] = Unit
Match [] (n ∷ now) = ⊥
Match (b ∷ before) [] = ⊥
Match (b ∷ before) (n ∷ now) =
    (b.0 ≡ n.0) × (absent n.0 now ≡ true) × (absent n.0 before ≡ true) × Match before now

-- The test of it.
matches : Settings → Settings → Bool
matches [] [] = true
matches [] (n ∷ now) = false
matches (b ∷ before) [] = false
matches (b ∷ before) (n ∷ now) =
    text_eq b.0 n.0 && (absent n.0 now && (absent n.0 before && matches before now))

matches-Match : (before now : Settings) → matches before now ≡ true → Match before now
unfolding matches
matches-Match [] [] h = tt
matches-Match [] (n ∷ now) h = cc
matches-Match (b ∷ before) [] h = cc
matches-Match (b ∷ before) (n ∷ now) h = (
  text_eq_sound b.0 n.0 (ground arith),
  ground arith,
  ground arith,
  matches-Match before now (ground arith),
)

store-absent : (c : Text × ℕ) (st : Settings) → absent c.0 st ≡ true → store c st ≡ st
store-absent c [] h = refl
store-absent c (s ∷ st) h = ground (arith, store-absent c st)

-- A setting at the front that no change names is left alone.
receive-front :
    (s : Text × ℕ) (st now before : Settings)
    → absent s.0 now ≡ true
    → receive (s ∷ st) (values (all_changes before now))
      ≡ s ∷ receive st (values (all_changes before now))
receive-front s st [] [] h = refl
receive-front s st [] (b ∷ before) h = refl
receive-front s st (n ∷ now) [] h = refl
receive-front s st (n ∷ now) (b ∷ before) h =
    let other : text_eq s.0 n.0 ≡ false = ground (arith, text_eq_sym s.0 n.0) in
    elim (Bool-cases (b.1 == n.1)) [
      | inl same ↦ rw same (receive-front s st now before (ground arith))
      | inr moved ↦ rw (moved, other) (receive-front s (store n st) now before (ground arith))
    ]

pair_eq : (x y : Text × ℕ) → x.0 ≡ y.0 → x.1 ≡ y.1 → x ≡ y
pair_eq x y h k = λ i. (h i, k i)

receive-all_changes :
    (before now : Settings)
    → Match before now
    → receive before (values (all_changes before now)) ≡ now
receive-all_changes [] [] h = refl
receive-all_changes [] (n ∷ now) h = absurd h
receive-all_changes (b ∷ before) [] h = absurd h
receive-all_changes (b ∷ before) (n ∷ now) (e, a, a', h) = elim (Bool-cases (b.1 == n.1)) [
  | inl same ↦
      let equal : b ≡ n = pair_eq b n e ((==_iff b.1 n.1).0 same) in
      rw same (
        receive-front b before now before (ap (λ t. absent t now) e ∙ a)
        ∙ rw (receive-all_changes before now h, equal) refl)
  | inr moved ↦
      let found : text_eq b.0 n.0 ≡ true = ap (λ t. text_eq t n.0) e ∙ text_eq_refl n.0 in
      rw (moved, found, store-absent n before a')
        (receive-front n before now before a ∙ ap (λ st. n ∷ st) (receive-all_changes before now h))
]

-- What is written for a report is a well-formed sequence just if at most one value has changed: the
-- bytes of all the changes stand behind one control.
write_changes-is_sequence :
    {R : Type 0} (float_of : ℕ → R) (cs : List (Text × ℕ))
    → is_sequence (write_changes float_of cs) ≡ leb (length cs) 1
write_changes-is_sequence float_of [] = refl
write_changes-is_sequence float_of (c ∷ []) = refl
write_changes-is_sequence float_of (c ∷ d ∷ cs) = ground arith

-- The changes that are computed for a report, stored by a receiver that stands where the device
-- stood, take it to where the device stands. What is written for them is a well-formed sequence just
-- if there is at most one of them.
pub receive-changes :
    {R : Type 0} (float_of : ℕ → R) (previous message : TraktorZ1Message)
    → (receive (settings previous) (values (changes previous message)) ≡ settings message)
      × (is_sequence (write_changes float_of (values (changes previous message)))
          ≡ leb (length (values (changes previous message))) 1)
unfolding changes matches
receive-changes float_of previous message = (
  receive-all_changes (settings previous) (settings message)
      (matches-Match (settings previous) (settings message) refl),
  write_changes-is_sequence float_of (values (changes previous message)),
)
