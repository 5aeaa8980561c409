-- ===== src/MidiRouter/Invariant.antt =====
-- What the router holds between its cycles, and what a cycle writes.
use pmx.Base.{
  ℕ, ◌%◌, ◌≤◌, ◌≡◌, refl, ◌⊎◌, inl, inr, arith, Bool, if◌then◌else◌, true, false, ltb, List, [],
  ◌∷◌, ◌++◌, Option, none, some, Text, codes, ℤ, pos, returns, err, ok, length, length-append, All,
  All-append, Bool-cases, subst, sym,
}
use pmx.Pod.{
  BuilderCall, AllAddresses, AllAddresses-append, AllAddresses-mono, is_sequence,
  is_sequence-append,
}
use pmx.Properties.{Property, as_int, as_string, get_from_collection}
use pmx.Osc.{OscPath, Layer, group, unknown_parameter, parse_osc_path}
use pmx.Osc.RoundTrip.{layer_text}
use pmx.Interpolation.{Double}
use pmx.MidiRouter.Message.{Parsed, get_midi_messages}
use pmx.MidiRouter.Ports.{
  Channels, process_input_channels_mix_port, process_input_channels_port,
  process_group_channels_port,
}
use pmx.MidiRouter.Processor.{
  QueueMessage, Buffers, Router, push_change, group_step, mix_step, input_step, route,
  process_signal,
}
use pmx.MidiRouter.Paths.{IsLayer, Reads, ReadsOrRefuses, process_group_channels_port-outcome}
use pmx.MidiRouter.Mix.{
  process_input_channels_mix_port-outcome, process_input_channels_port-outcome,
}

-- The parser reads the path, or refuses it as that of an unknown parameter; it does not throw.
abbrev pub IsAccepted : Text → Type 0
IsAccepted path =
    ((q : OscPath) × (parse_osc_path path ≡ returns (ok q)))
    ⊎ (parse_osc_path path ≡ returns (err unknown_parameter))

abbrev pub IsBase : ℤ → Type 0
IsBase z = (n : ℕ) × (z ≡ pos n) × ((n ≡ 0) ⊎ (n ≡ 8))

abbrev pub IsSelected : ℤ → Type 0
IsSelected z = (n : ℕ) × (z ≡ pos n) × (n ≤ 16)

pub record IsChoice (m : QueueMessage) : Type 0 where
  pub layer : IsLayer m.layer
  pub base : IsBase m.base_channel_id
  pub selected : IsSelected m.selected_channel_id

ReadsOrRefuses-IsAccepted :
    (l : Layer) (lo hi : ℕ) (path : Text) → ReadsOrRefuses l lo hi path → IsAccepted path
ReadsOrRefuses-IsAccepted l lo hi path (inl r) = inl (r.0, r.1)
ReadsOrRefuses-IsAccepted l lo hi path (inr e) = inr e

chosen_eq :
    (changed : Bool) (c : QueueMessage) {m : QueueMessage}
    → (if changed then some c else none) ≡ some m
    → c ≡ m
chosen_eq true c e = cc
chosen_eq false c e = cc

-- The parameters hold a layer and channels in range.
pub record IsConfigured {R : Type 0} (ps : List (Property R)) : Type 0 where
  pub layer :
      (l : Layer) × (get_from_collection as_string (codes "activeLayer") ps
        ≡ returns (some (layer_text l)))
  pub base :
      (z : ℤ) × (get_from_collection as_int (codes "baseChannelId") ps ≡ returns (some z))
      × IsBase z
  pub selected :
      (z : ℤ) × (get_from_collection as_int (codes "selectedChannelId") ps ≡ returns (some z))
      × IsSelected z

pub record IsRouter {R : Type 0} (r : Router R) : Type 0 where
  pub configured : IsConfigured r.parameters
  pub choices : All IsChoice r.queue
  pub bounded : length r.queue ≤ 2

push_change-IsRouter :
    {R : Type 0} (r : Router R) (message : Option QueueMessage)
    → IsRouter r
    → ((m : QueueMessage) → message ≡ some m → IsChoice m)
    → IsRouter (record r { queue = push_change r.queue message })
push_change-IsRouter r none h k = h
push_change-IsRouter r (some m) h k = elim (Bool-cases (ltb (length r.queue) 2)) [
  | inl room ↦ rw room (record {
    configured = h.configured;
    choices = All-append IsChoice r.queue (m ∷ []) h.choices (k m refl, tt);
    bounded = ground (arith, length-append r.queue (m ∷ []));
  })
  | inr full ↦ rw full h
]

module _ (D : Double) where
  abbrev pub Written : List (BuilderCall D.Real) → Type 0
  Written calls = AllAddresses IsAccepted calls × (is_sequence calls ≡ true)

  Written-append :
      (xs ys : List (BuilderCall D.Real)) → Written xs → Written ys → Written (xs ++ ys)
  Written-append xs ys (h, k) (h', k') =
      (AllAddresses-append IsAccepted xs ys h h', is_sequence-append xs ys k k')

  group_step-outcome :
      (buffer : Option Parsed) (s : Text)
      → IsLayer s
      → IsLayer (group_step D buffer s).1 × Written (group_step D buffer s).0
  unfolding group_step
  group_step-outcome none s h = (h, (tt, refl))
  group_step-outcome (some buffer) s h =
      let (layer, calls, formed) =
        process_group_channels_port-outcome D (get_midi_messages buffer) s h in
      (
        layer,
        (
          AllAddresses-mono (λ path. (l : Layer) × Reads group l 1 4 path) IsAccepted
              (process_group_channels_port D (get_midi_messages buffer) s).0
              (λ path r. inl (r.1.0, r.1.1)) calls,
          formed,
        ),
      )

  mix_step-outcome :
      (buffer : Option Parsed) (l : Layer) (base selected : ℤ)
      → IsBase base
      → IsSelected selected
      → IsBase (mix_step D buffer (layer_text l) base selected).1
        × IsSelected (mix_step D buffer (layer_text l) base selected).2
        × Written (mix_step D buffer (layer_text l) base selected).0
  unfolding mix_step
  mix_step-outcome none l base selected b s = (b, s, (tt, refl))
  mix_step-outcome (some buffer) l base selected (n, e, b) (k, f, s) =
      rw (e, f)
        (let c : Channels = record { base_channel_id = n % 256; selected_channel_id = k % 256 } in
          let r = process_input_channels_mix_port D (get_midi_messages buffer) (layer_text l) c in
          let (chosen, (calls, formed)) =
            process_input_channels_mix_port-outcome D l (get_midi_messages buffer) c
              (record { base = ground arith; selected = omega arith }) in
          (
            (_, refl, chosen.base),
            (_, refl, chosen.selected),
            (
              AllAddresses-mono (ReadsOrRefuses l 0 16) IsAccepted r.0
                  (ReadsOrRefuses-IsAccepted l 0 16) calls,
              formed,
            ),
          ))

  input_step-outcome :
      (buffer : Option Parsed) (l : Layer) (selected : ℤ)
      → IsSelected selected
      → Written (input_step D buffer (layer_text l) selected)
  unfolding input_step
  input_step-outcome none l selected s = (tt, refl)
  input_step-outcome (some buffer) l selected (k, e, s) = rw e (
      let n : ℕ = k % 256 in
      let (calls, formed) =
        process_input_channels_port-outcome D l n (omega arith) (get_midi_messages buffer) in
      (
        AllAddresses-mono (ReadsOrRefuses l n n) IsAccepted
            (process_input_channels_port D (get_midi_messages buffer) (layer_text l) n)
            (ReadsOrRefuses-IsAccepted l n n) calls,
        formed,
      ))

  abbrev RouteOutcome : List (BuilderCall D.Real) × Option QueueMessage → Type 0
  RouteOutcome r = Written r.0 × ((m : QueueMessage) → r.1 ≡ some m → IsChoice m)

  -- From a layer and channels in range, a cycle writes a well-formed sequence of accepted paths and
  -- queues only choices in range.
  pub route-outcome :
      (b : Buffers) (layer : Text) (base selected : ℤ)
      → IsLayer layer
      → IsBase base
      → IsSelected selected
      → RouteOutcome (route D b layer base selected)
  unfolding route
  route-outcome b layer base selected l h k =
      let group = group_step D b.group_channels layer in
      let mix = mix_step D b.input_channels_mix group.1 base selected in
      let input = input_step D b.input_channels group.1 mix.2 in
      let (next_layer, group_calls) = group_step-outcome b.group_channels layer l in
      let (new_base, new_selected, mix_calls) = mixed next_layer in
      (
        Written-append group.0 (mix.0 ++ input) group_calls
            (Written-append mix.0 input mix_calls (entered next_layer new_selected)),
        queued next_layer new_base new_selected,
      )
    where
      group_layer : Text
      group_layer = (group_step D b.group_channels layer).1

      mixed_channels : List (BuilderCall D.Real) × ℤ × ℤ
      mixed_channels = mix_step D b.input_channels_mix group_layer base selected

      mixed :
          IsLayer group_layer
          → IsBase mixed_channels.1 × IsSelected mixed_channels.2 × Written mixed_channels.0
      mixed (l', e) =
          subst
            (λ s.
              let r = mix_step D b.input_channels_mix s base selected in
              IsBase r.1 × IsSelected r.2 × Written r.0)
            (sym e) (mix_step-outcome b.input_channels_mix l' base selected h k)

      entered :
          IsLayer group_layer
          → IsSelected mixed_channels.2
          → Written (input_step D b.input_channels group_layer mixed_channels.2)
      entered (l', e) chosen =
          subst (λ s. Written (input_step D b.input_channels s mixed_channels.2)) (sym e)
            (input_step-outcome b.input_channels l' mixed_channels.2 chosen)

      queued :
          IsLayer group_layer
          → IsBase mixed_channels.1
          → IsSelected mixed_channels.2
          → (m : QueueMessage) → (route D b layer base selected).1 ≡ some m
          → IsChoice m
      queued is_layer is_base is_selected m e =
          subst IsChoice (chosen_eq _ _ e)
            (record { layer = is_layer; base = is_base; selected = is_selected })

  -- What a cycle leaves: nothing or a well-formed sequence of accepted paths, and a router in range.
  abbrev pub CycleOutcome : Option (List (BuilderCall D.Real)) × Router D.Real → Type 0
  CycleOutcome (none, r) = IsRouter r
  CycleOutcome (some calls, r) = IsRouter r × Written calls

  -- From parameters and a queue in range, a cycle returns, whatever the buffers hold. What it writes
  -- is a well-formed sequence, none of whose paths makes the parser throw, and each of which the
  -- parser reads or refuses as an unknown parameter. The parameters and the queue stay in range.
  pub process_signal-outcome :
      (b : Buffers) (r : Router D.Real)
      → IsRouter r
      → (o : Option (List (BuilderCall D.Real)) × Router D.Real) × (process_signal D b r
          ≡ returns o)
        × CycleOutcome o
  unfolding process_signal
  process_signal-outcome b r h = elim (Bool-cases b.out_buffer) [
    | inl there ↦
        let (l, e) = h.configured.layer in
        let (base, f, is_base) = h.configured.base in
        let (selected, g, is_selected) = h.configured.selected in
        let o = route D b (layer_text l) base selected in
        let (written, choice) =
          route-outcome b (layer_text l) base selected (l, refl) is_base is_selected in
        (
          (some o.0, record r { queue = push_change r.queue o.1 }),
          rw (there, e, f, g) refl,
          (push_change-IsRouter r o.1 h choice, written),
        )
    | inr missing ↦ ((none, r), rw missing refl, h)
  ]
