-- ===== src/Grpc/Setup.antt =====
-- include/grpc/GrpcService.h and src/applications/metadata_manager.cpp together: a call of the
-- service reaches the configuration through the metadata.
use pmx.Base.{
  ℕ, zero, suc, ◌%◌, ◌<◌, ◌≡◌, refl, ap, ◌∙◌, arith, Bool, true, false, ◌||◌, inl, inr, List, [],
  ◌∷◌, ◌++◌, Option, none, some, Text, text_eq_sound, to_string, stoi-to_string, length, get_elem?,
  set, get_elem?-within, Bool-cases, pos, returns,
}
use pmx.Metadata.{
  Config, MetadataEvent, deletion, update, port_prefix, group_prefix, at_channel, same_port,
  handle_event, handle_batch,
}
use pmx.Grpc.{MetadataCall, set_value, clear_value, setup_input_port}

-- The signals that WirePlumber sends for the calls.
abbrev pub events_of : List MetadataCall → List MetadataEvent
events_of [] = []
events_of (set_value key value ∷ calls) = update key value ∷ events_of calls
events_of (clear_value key ∷ calls) = deletion key ∷ events_of calls

-- The configuration with the port and the group of a request, at the channel `i`, from 0.
abbrev pub with_port : ℕ → Option Text → Config → Config
with_port i none config = config
with_port i (some port) config = record config {
  input_channels = set config.input_channels i (some port);
}

abbrev pub with_group : ℕ → Option ℕ → Config → Config
with_group i none config = config
with_group i (some group) config = record config {
  input_channel_groups = set config.input_channel_groups i group;
}

abbrev pub GroupFits : Option ℕ → Type 0
GroupFits none = Unit
GroupFits (some group) = group < 256

at_channel_within :
    {A : Type 0} (xs : List A) (i : ℕ) (x : A)
    → get_elem? xs i ≡ some x
    → at_channel xs (pos (suc i)) ≡ returns (i, x)
at_channel_within xs i x e = ground arith

set-get_elem? :
    {A : Type 0} (xs : List A) (i : ℕ) (x : A) → get_elem? xs i ≡ some x → set xs i x ≡ xs
set-get_elem? [] i x e = refl
set-get_elem? (y ∷ xs) zero x e = ground arith
set-get_elem? (y ∷ xs) (suc i) x e = ap (◌∷◌ y) (set-get_elem? xs i x e)

same_port-true : (old : Option Text) (port : Text) → same_port old port ≡ true → old ≡ some port
same_port-true none port h = cc
same_port-true (some p) port h = ap some (text_eq_sound p port h)

handle_event_port :
    (config : Config) (i : ℕ) (port : Text)
    → i < length config.input_channels
    → i < 1000
    → (changed : Bool) × (handle_event config (update (port_prefix ++ to_string (suc i)) port)
        ≡ returns (with_port i (some port) config, changed))
unfolding handle_event
handle_event_port config i port within small =
    let (old, found) = get_elem?-within config.input_channels i within in
    elim (Bool-cases (same_port old port)) [
      | inl same ↦
          let kept : set config.input_channels i (some port) ≡ config.input_channels =
            set-get_elem? config.input_channels i (some port)
              (found ∙ ap some (same_port-true old port same)) in
          (
            false,
            rw
                (
                  stoi-to_string (suc i) (omega arith),
                  at_channel_within config.input_channels i old found,
                  same,
                  kept,
                )
                refl,
          )
      | inr other ↦ (
        true,
        rw
            (
              stoi-to_string (suc i) (omega arith),
              at_channel_within config.input_channels i old found,
              other,
            )
            refl,
      )
    ]

handle_event_group :
    (config : Config) (i group : ℕ)
    → i < length config.input_channel_groups
    → i < 1000
    → group < 256
    → handle_event config (update (group_prefix ++ to_string (suc i)) (to_string group))
      ≡ returns (with_group i (some group) config, true)
unfolding handle_event
handle_event_group config i group within small byte =
    let (old, found) = get_elem?-within config.input_channel_groups i within in
    let cut : group % 256 ≡ group = omega arith in
    rw
      (
        stoi-to_string (suc i) (omega arith),
        stoi-to_string group (omega arith),
        at_channel_within config.input_channel_groups i old found,
        cut,
      )
      refl

-- A request for a channel from 1 to 32 and a group below 256, once its signals have been handled,
-- has put the port and the group that it names into the configuration, each at its channel, and
-- changed nothing else.
pub handle_batch-setup_input_port :
    (config : Config) (i : ℕ) (port : Option Text) (group : Option ℕ)
    → length config.input_channels ≡ 32
    → length config.input_channel_groups ≡ 32
    → i < 32
    → GroupFits group
    → (changed : Bool) × (handle_batch config (
          events_of
            (setup_input_port
              (record { channel_id = suc i; port = port; group_channel_id = group })).0)
        ≡ returns (with_group i group (with_port i port config), changed))
unfolding handle_batch setup_input_port
handle_batch-setup_input_port config i none none ch gr small fits = (false, refl)
handle_batch-setup_input_port config i (some p) none ch gr small fits =
    let (changed, done) = handle_event_port config i p (omega arith) (omega arith) in
    (changed || false, rw done refl)
handle_batch-setup_input_port config i none (some g) ch gr small fits =
    let done = handle_event_group config i g (omega arith) (omega arith) fits in
    (true, rw done refl)
handle_batch-setup_input_port config i (some p) (some g) ch gr small fits =
    let (changed, first) = handle_event_port config i p (omega arith) (omega arith) in
    let second =
      handle_event_group (with_port i (some p) config) i g (omega arith) (omega arith) fits in
    (changed || true, rw (first, second) refl)
