-- ===== src/Metadata/Publish.antt =====
-- The metadata that one manager publishes rebuilds its configuration in another one.
use mathlib.Core.List.{append-nil, append_assoc}
use pmx.Base.{
  if◌then◌else◌, true, false, ◌⊎◌, inl, inr, ℕ, ◌+◌, ◌<◌, ◌≡◌, refl, sym, ap, ◌∙◌, arith, Bool,
  true, false, ◌||◌, List, [], ◌∷◌, ◌++◌, Option, none, some, Text, length, length-append,
  replicate, returns, All,
}
use pmx.Metadata.{
  Config, MetadataEvent, update, initial_ports, initial_groups, set_initial_metadata, handle_event,
  handle_batch, publish, write_changes,
}
use pmx.Metadata.Batches.{handle_batch-append}
use pmx.Metadata.Slots.{handle_port, handle_group}

-- What the watcher of the metadata makes of a list of values.
abbrev pub updates_of : List (Text × Text) → List MetadataEvent
updates_of [] = []
updates_of (p ∷ ps) = update p.0 p.1 ∷ updates_of ps

-- What a batch comes to once an event has been handled.
handle_batch-step :
    (config next : Config) (event : MetadataEvent) (batch : List MetadataEvent) (last : Config)
    → handle_event config event ≡ returns (next, true)
    → (later : Bool) × (handle_batch next batch ≡ returns (last, later))
    → (changed : Bool) × (handle_batch config (event ∷ batch) ≡ returns (last, changed))
unfolding handle_batch
handle_batch-step config next event batch last e (later, f) = (true, rw (e, f) refl)

handle_batch-groups :
    (channels : List (Option Text)) (front old new : List ℕ)
    → length old ≡ length new
    → length front + length new < 1000
    → All (λ g. g < 256) new
    → (changed : Bool) × (handle_batch
          (record { input_channels = channels; input_channel_groups = front ++ old })
          (updates_of (initial_groups (length front + 1) new))
        ≡ returns
            (record { input_channels = channels; input_channel_groups = front ++ new }, changed))
unfolding handle_batch initial_groups
handle_batch-groups channels front [] [] h small bytes = (false, refl)
handle_batch-groups channels front [] (n ∷ new) h small bytes = absurd (omega arith)
handle_batch-groups channels front (o ∷ old) [] h small bytes = absurd (omega arith)
handle_batch-groups channels front (o ∷ old) (n ∷ new) h small bytes =
    let (later, f) =
      handle_batch-groups channels (front ++ n ∷ []) old new (omega arith)
        (omega (arith, length-append front (n ∷ []))) bytes.1 in
    let e : length (front ++ n ∷ []) ≡ length front + 1 =
      ground (arith, length-append front (n ∷ [])) in
    handle_batch-step _ _ _ _ _ (handle_group channels front old o n (omega arith) bytes.0)
      (later, rw (e, append_assoc front (n ∷ []) old, append_assoc front (n ∷ []) new) at f)

handle_batch-ports :
    (front ports : List (Option Text)) (groups : List ℕ)
    → length front + length ports < 1000
    → (changed : Bool) × (handle_batch
          (record {
            input_channels = front ++ replicate (length ports) none;
            input_channel_groups = groups;
          })
          (updates_of (initial_ports (length front + 1) ports))
        ≡ returns
            (record { input_channels = front ++ ports; input_channel_groups = groups }, changed))
unfolding handle_batch initial_ports
handle_batch-ports front [] groups small = (false, refl)
handle_batch-ports front (p ∷ ports) groups small =
    let (later, f) =
      handle_batch-ports (front ++ p ∷ []) ports groups
        (omega (arith, length-append front (p ∷ []))) in
    let e : length (front ++ p ∷ []) ≡ length front + 1 =
      ground (arith, length-append front (p ∷ [])) in
    from p (
      later,
      rw
          (
            e,
            append_assoc front (p ∷ []) (replicate (length ports) none),
            append_assoc front (p ∷ []) ports,
          )
          at f,
    )
  where
    from :
        (p : Option Text)
        → (later : Bool) × (handle_batch
              (record {
                input_channels = front ++ p ∷ replicate (length ports) none;
                input_channel_groups = groups;
              })
              (updates_of (initial_ports (length front + 1 + 1) ports))
            ≡ returns (
              record { input_channels = front ++ p ∷ ports; input_channel_groups = groups },
              later,
            ))
        → (changed : Bool) × (handle_batch
              (record {
                input_channels = front ++ none ∷ replicate (length ports) none;
                input_channel_groups = groups;
              })
              (updates_of (initial_ports (length front + 1) (p ∷ ports)))
            ≡ returns (
              record { input_channels = front ++ p ∷ ports; input_channel_groups = groups },
              changed,
            ))
    from none f = f
    from (some port) f =
        handle_batch-step _ _ _ _ _
          (handle_port front (replicate (length ports) none) groups port (omega arith)) f

updates_of-append :
    (xs ys : List (Text × Text)) → updates_of (xs ++ ys) ≡ updates_of xs ++ updates_of ys
updates_of-append [] ys = refl
updates_of-append (x ∷ xs) ys = ap (◌∷◌ (update x.0 x.1)) (updates_of-append xs ys)

handle_batch-set_initial_metadata :
    (c : Config) (old : List ℕ)
    → length c.input_channels ≡ 32
    → length c.input_channel_groups ≡ 32
    → All (λ g. g < 256) c.input_channel_groups
    → length old ≡ 32
    → (changed : Bool) × (handle_batch
          (record { input_channels = replicate 32 none; input_channel_groups = old })
          (updates_of (set_initial_metadata c))
        ≡ returns (c, changed))
unfolding set_initial_metadata
handle_batch-set_initial_metadata c old h k bytes m =
    let none_yet : replicate {A = Option Text} 32 none ≡ replicate (length c.input_channels) none =
      ap (λ n. replicate n none) (sym h) in
    let (ported, e) = handle_batch-ports [] c.input_channels old (omega (arith, h)) in
    let (grouped, f) =
      handle_batch-groups c.input_channels [] old c.input_channel_groups (m ∙ sym k)
        (omega (arith, k)) bytes in
    (
      ported || grouped,
      rw
          (
            none_yet,
            updates_of-append (initial_ports 1 c.input_channels)
                (initial_groups 1 c.input_channel_groups),
            handle_batch-append _ (updates_of (initial_ports 1 c.input_channels))
                (updates_of (initial_groups 1 c.input_channel_groups)),
            e,
            f,
          )
          refl,
    )

publish-eq-updates_of :
    (ps : List (Text × Text)) (queue : List MetadataEvent)
    → publish ps queue ≡ queue ++ updates_of ps
unfolding publish
publish-eq-updates_of [] queue = sym (append-nil queue)
publish-eq-updates_of (p ∷ ps) queue =
    publish-eq-updates_of ps (queue ++ update p.0 p.1 ∷ [])
    ∙ append_assoc queue (update p.0 p.1 ∷ []) (updates_of ps)

-- What one manager publishes for a configuration of 32 channels with groups below 256, read as one
-- batch by another manager that knows 32 channels, none of them with a port, rebuilds the
-- configuration there; if anything is written to the file, it is this configuration.
pub write_changes-set_initial_metadata :
    (c : Config) (old : List ℕ)
    → length c.input_channels ≡ 32
    → length c.input_channel_groups ≡ 32
    → All (λ g. g < 256) c.input_channel_groups
    → length old ≡ 32
    → (written : Option Config) × (write_changes
          (record { input_channels = replicate 32 none; input_channel_groups = old })
          (publish (set_initial_metadata c) [])
        ≡ returns (c, written))
      × ((written ≡ none) ⊎ (written ≡ some c))
unfolding write_changes
write_changes-set_initial_metadata c old h k bytes m =
    let (changed, e) = handle_batch-set_initial_metadata c old h k bytes m in
    (
      if changed then some c else none,
      rw (publish-eq-updates_of (set_initial_metadata c) [], e) refl,
      written changed,
    )
  where
    written :
        (changed : Bool)
        → ((if changed then some c else none) ≡ none)
          ⊎ ((if changed then some c else none) ≡ some c)
    written true = inr refl
    written false = inl refl
