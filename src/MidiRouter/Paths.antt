-- ===== src/MidiRouter/Paths.antt =====
-- What the ports of the router write is what the parser of src/parse_osc_path.cpp accepts.
use pmx.Base.{
  ℕ, ◌≤◌, ◌<◌, ◌≡◌, refl, ◌⊎◌, inl, inr, arith, true, ltb, ◌==◌, List, [], ◌∷◌, Option, none, some,
  Text, returns, ok, err, get_elem?, Bool-cases, Option-cases, subst, sym,
}
use pmx.Pod.{BuilderCall, AllAddresses, AllAddresses-append, is_sequence, is_sequence-append}
use pmx.Parameters.{all_parameters, Parameter, none_parameter}
use pmx.Parameters.Find.{find_target_parameter_for_group_channels}
use pmx.Parameters.Laws.{IsKnown, find_group-IsKnown}
use pmx.Osc.{
  OscPath, ChannelType, Layer, input, group, a_layer, b_layer, unknown_parameter, parse_osc_path,
  build_input_channel_osc_path,
}
use pmx.Osc.RoundTrip.{layer_text, parse-build_input, parse-build_group, parse-build_none}
use pmx.Interpolation.{Double}
use pmx.MidiRouter.Message.{ControlChange, Message, control_change, note_off, other_message}
use pmx.MidiRouter.Ports.{
  process_group_message, process_group_messages, process_group_channels_port, count_messages,
  mid_point,
}

abbrev pub IsLayer : Text → Type 0
IsLayer s = (l : Layer) × (s ≡ layer_text l)

-- The parser reads the path as one of a channel of this type, within the bounds, on the layer.
abbrev pub Reads : ChannelType → Layer → ℕ → ℕ → Text → Type 0
Reads t l lo hi path =
    (q : OscPath) × (parse_osc_path path ≡ returns (ok q))
    × (q.channel_type ≡ t)
    × (q.layer ≡ l)
    × (lo ≤ q.channel_id)
    × (q.channel_id ≤ hi)

-- Or it refuses the path, since the controller moves no parameter.
abbrev pub ReadsOrRefuses : Layer → ℕ → ℕ → Text → Type 0
ReadsOrRefuses l lo hi path =
    Reads input l lo hi path ⊎ (parse_osc_path path ≡ returns (err unknown_parameter))

known_zero : (p : Parameter) → IsKnown p → p.id ≡ 0 → p ≡ none_parameter
known_zero p h e =
    let first : some none_parameter ≡ some p =
      subst (λ k. get_elem? all_parameters k ≡ some p) e h in
    cc

pub input_path-ReadsOrRefuses :
    (n : ℕ) (p : Parameter) (l : Layer) (lo hi : ℕ)
    → IsKnown p
    → lo ≤ n
    → n ≤ hi
    → hi < 100
    → ReadsOrRefuses l lo hi (build_input_channel_osc_path n p (layer_text l))
input_path-ReadsOrRefuses n p l lo hi known above below small = elim (Bool-cases (ltb 0 p.id)) [
  | inl mapped ↦
      inl (_, parse-build_input n l p (omega arith) known (ground arith), refl, refl, above, below)
  | inr unmapped ↦ inr (rw (known_zero p known (ground arith)) (parse-build_none n l (omega arith)))
]

module _ (D : Double) where
  -- What each message of the group port leaves: a layer, and paths of the four groups.
  abbrev pub ReadsGroup : Text → Type 0
  ReadsGroup path = (l : Layer) × Reads group l 1 4 path

  abbrev pub GroupOutcome : List (BuilderCall D.Real) × Text → Type 0
  GroupOutcome r = IsLayer r.1 × AllAddresses ReadsGroup r.0 × (is_sequence r.0 ≡ true)

  group_change-outcome :
      (change : ControlChange) (l : Layer)
      → GroupOutcome (process_group_message D (control_change change) (layer_text l))
  unfolding process_group_message
  group_change-outcome change l = elim (Bool-cases (change.cc_number == 64)) [
    | inl switch ↦ rw switch (elim (Bool-cases (ltb change.value mid_point)) [
      | inl low ↦ rw low ((a_layer, refl), tt, refl)
      | inr high ↦ rw high ((b_layer, refl), tt, refl)
    ])
    | inr other ↦
        rw other (elim (Option-cases (find_target_parameter_for_group_channels change.cc_number)) [
          | inl unrouted ↦ rw unrouted ((l, refl), tt, refl)
          | inr (t, routed) ↦
              let (above, below, known, mapped) = find_group-IsKnown change.cc_number t routed in
              rw routed (
                (l, refl),
                (
                  (
                    l,
                    (
                      _,
                      parse-build_group t.group_id l t.parameter (omega arith) known mapped,
                      refl,
                      refl,
                      above,
                      below,
                    ),
                  ),
                  tt,
                ),
                refl,
              )
        ])
  ]

  group_message-outcome :
      (m : Message) (s : Text) → IsLayer s → GroupOutcome (process_group_message D m s)
  unfolding process_group_message
  group_message-outcome (control_change change) s (l, e) =
      subst (λ t. GroupOutcome (process_group_message D (control_change change) t)) (sym e)
        (group_change-outcome change l)
  group_message-outcome (note_off note) s h = (h, tt, refl)
  group_message-outcome other_message s h = (h, tt, refl)

  group_messages-outcome :
      (messages : List (Option Message)) (s : Text)
      → IsLayer s
      → GroupOutcome (process_group_messages D messages s)
  unfolding process_group_messages
  group_messages-outcome [] s h = (h, tt, refl)
  group_messages-outcome (none ∷ messages) s h = group_messages-outcome messages s h
  group_messages-outcome (some m ∷ messages) s h =
      let first = process_group_message D m s in
      let later = process_group_messages D messages first.1 in
      let (next, calls, formed) = group_message-outcome m s h in
      let (last, rest, formed') = group_messages-outcome messages first.1 next in
      (
        last,
        AllAddresses-append ReadsGroup first.0 later.0 calls rest,
        is_sequence-append first.0 later.0 formed formed',
      )

  -- From layer A or B, the group port leaves layer A or B, writes a well-formed sequence, and writes
  -- only paths that the parser reads as one of the groups 1 to 4 on layer A or B.
  pub process_group_channels_port-outcome :
      (messages : List (Option Message)) (active_layer : Text)
      → IsLayer active_layer
      → GroupOutcome (process_group_channels_port D messages active_layer)
  unfolding process_group_channels_port
  process_group_channels_port-outcome messages s h =
      elim (Bool-cases (ltb 0 (count_messages messages))) [
        | inl some_there ↦ rw some_there (group_messages-outcome messages s h)
        | inr none_there ↦ rw none_there (h, tt, refl)
      ]
