-- ===== src/MidiRouter/Mix.antt =====
-- What the ports of the single channels and of the mix write, and the channels that the mix chooses.
use pmx.Base.{
  ℕ, ◌+◌, ◌≤◌, ◌<◌, ◌≡◌, refl, ◌⊎◌, inl, inr, arith, true, ltb, List, [], ◌∷◌, Option, none, some,
  Bool-cases,
}
use pmx.Pod.{BuilderCall, AllAddresses, AllAddresses-append, is_sequence, is_sequence-append}
use pmx.Parameters.Find.{find_target_parameter_for_input_mix_channels}
use pmx.Parameters.Laws.{find_mix-IsKnown, find_input-IsKnown}
use pmx.Osc.{Layer}
use pmx.Osc.RoundTrip.{layer_text}
use pmx.Interpolation.{Double}
use pmx.MidiRouter.Message.{Message, control_change, note_off, other_message}
use pmx.MidiRouter.Ports.{
  Channels, uint8, release_note, process_input_message, process_input_messages,
  process_input_channels_port, process_mix_message, process_mix_messages,
  process_input_channels_mix_port, count_messages,
}
use pmx.MidiRouter.Paths.{ReadsOrRefuses, input_path-ReadsOrRefuses}

-- The mix shows the channels from 1 or from 9 on, and one of 16 channels, or none yet, is selected.
pub record IsChannels (c : Channels) : Type 0 where
  pub base : (c.base_channel_id ≡ 0) ⊎ (c.base_channel_id ≡ 8)
  pub selected : c.selected_channel_id ≤ 16

-- Releasing a key chooses a channel in range, and a base of 0 or 8.
pub release_note-IsChannels :
    (note : ℕ) (c : Channels) → IsChannels c → IsChannels (release_note note c)
unfolding release_note
release_note-IsChannels note c h = ground arith

module _ (D : Double) (l : Layer) where
  abbrev pub InputOutcome : ℕ → ℕ → List (BuilderCall D.Real) → Type 0
  InputOutcome lo hi calls =
      AllAddresses (ReadsOrRefuses l lo hi) calls × (is_sequence calls ≡ true)

  abbrev pub MixOutcome : List (BuilderCall D.Real) × Channels → Type 0
  MixOutcome r = IsChannels r.1 × InputOutcome 0 16 r.0

  mix_message-outcome :
      (m : Message) (c : Channels)
      → IsChannels c
      → MixOutcome (process_mix_message D m (layer_text l) c)
  unfolding process_mix_message
  mix_message-outcome (control_change change) c h =
      let (strip, known) = find_mix-IsKnown change.cc_number in
      (
        h,
        (
          (
            input_path-ReadsOrRefuses _ _ l 0 16 known (omega arith) (bound strip) (omega arith),
            tt,
          ),
          refl,
        ),
      )
    where
      bound :
          (find_target_parameter_for_input_mix_channels change.cc_number).0 ≤ 8
          → uint8 (
              c.base_channel_id + (find_target_parameter_for_input_mix_channels change.cc_number).0)
            ≤ 16
      bound strip = ground (arith, h.base)
  mix_message-outcome (note_off note) c h = (release_note-IsChannels note c h, (tt, refl))
  mix_message-outcome other_message c h = (h, (tt, refl))

  mix_messages-outcome :
      (messages : List (Option Message)) (c : Channels)
      → IsChannels c
      → MixOutcome (process_mix_messages D messages (layer_text l) c)
  unfolding process_mix_messages
  mix_messages-outcome [] c h = (h, (tt, refl))
  mix_messages-outcome (none ∷ messages) c h = mix_messages-outcome messages c h
  mix_messages-outcome (some m ∷ messages) c h =
      let first = process_mix_message D m (layer_text l) c in
      let later = process_mix_messages D messages (layer_text l) first.1 in
      let (next, (calls, formed)) = mix_message-outcome m c h in
      let (last, (rest, formed')) = mix_messages-outcome messages first.1 next in
      (
        last,
        (
          AllAddresses-append (ReadsOrRefuses l 0 16) first.0 later.0 calls rest,
          is_sequence-append first.0 later.0 formed formed',
        ),
      )

  -- From channels in range, the mix port keeps the channels in range, writes a well-formed sequence, and writes only paths
  -- that the parser reads as an input channel up to 16 on the layer given, or refuses as an unknown
  -- parameter.
  pub process_input_channels_mix_port-outcome :
      (messages : List (Option Message)) (c : Channels)
      → IsChannels c
      → MixOutcome (process_input_channels_mix_port D messages (layer_text l) c)
  unfolding process_input_channels_mix_port
  process_input_channels_mix_port-outcome messages c h =
      elim (Bool-cases (ltb 0 (count_messages messages))) [
        | inl some_there ↦ rw some_there (mix_messages-outcome messages c h)
        | inr none_there ↦ rw none_there (h, (tt, refl))
      ]

  module _ (n : ℕ) (small : n < 100) where
    input_message-outcome :
        (m : Message) → InputOutcome n n (process_input_message D m (layer_text l) n)
    unfolding process_input_message
    input_message-outcome (control_change change) = (
      (
        input_path-ReadsOrRefuses n _ l n n (find_input-IsKnown change.cc_number) (omega arith)
            (omega arith) small,
        tt,
      ),
      refl,
    )
    input_message-outcome (note_off note) = (tt, refl)
    input_message-outcome other_message = (tt, refl)

    input_messages-outcome :
        (messages : List (Option Message))
        → InputOutcome n n (process_input_messages D messages (layer_text l) n)
    unfolding process_input_messages
    input_messages-outcome [] = (tt, refl)
    input_messages-outcome (none ∷ messages) = input_messages-outcome messages
    input_messages-outcome (some m ∷ messages) =
        let first = process_input_message D m (layer_text l) n in
        let later = process_input_messages D messages (layer_text l) n in
        let (calls, formed) = input_message-outcome m in
        let (rest, formed') = input_messages-outcome messages in
        (
          AllAddresses-append (ReadsOrRefuses l n n) first later calls rest,
          is_sequence-append first later formed formed',
        )

    -- For a channel below 100 and a layer, the port of the single channel writes a well-formed
    -- sequence, and only paths that the parser reads as this input channel on this layer, or refuses
    -- as an unknown parameter.
    pub process_input_channels_port-outcome :
        (messages : List (Option Message))
        → InputOutcome n n (process_input_channels_port D messages (layer_text l) n)
    unfolding process_input_channels_port
    process_input_channels_port-outcome messages =
        elim (Bool-cases (ltb 0 (count_messages messages))) [
          | inl some_there ↦ rw some_there (input_messages-outcome messages)
          | inr none_there ↦ rw none_there (tt, refl)
        ]
