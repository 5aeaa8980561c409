-- ===== src/Grpc/Items.antt =====
-- include/grpc/GrpcService.h: what `ListInputPortsSetup` answers to any metadata.
use pmx.Base.{
  All, map, ◌^◌, ◌++◌, to_string, starts_with, stoi-to_string, ℕ, ◌<◌, ◌==◌, ◌≡◌, refl, ap, ◌∙◌,
  arith, false, ◌||◌, inl, inr, List, [], ◌∷◌, Option, none, some, Text, Bool-cases, if◌then◌else◌,
  returns,
}
use pmx.Metadata.{port_prefix, group_prefix}
use pmx.Grpc.Listing.{IsSorted, IsSmall, ids_of, find_setup, is_some, setup_of, setups_of-IsSorted}
use pmx.Grpc.{
  ResponseField, insert, lookup, Channels, no_channels, read_items, InputPortSetup,
  list_input_ports_setup,
}

-- What the metadata hold: the port of a channel, the group of one, or anything else.
pub data Item : Type 0 where
  port_item : ℕ → Text → Item
  group_item : ℕ → ℕ → Item
  other_item : Text → Text → Item

abbrev pub text_of : Item → Text × Text
text_of (port_item channel port) = (port_prefix ++ to_string channel, port)
text_of (group_item channel group) = (group_prefix ++ to_string channel, to_string group)
text_of (other_item key value) = (key, value)

-- The numbers are those of an `int`, and another key has neither of the two prefixes.
abbrev pub IsItem : Item → Type 0
IsItem (port_item channel port) = channel < 2 ^ 31
IsItem (group_item channel group) = (channel < 2 ^ 31) × (group < 2 ^ 31)
IsItem (other_item key value) =
    (starts_with key port_prefix ≡ false) × (starts_with key group_prefix ≡ false)

-- The last port and the last group of a channel, from those found before.
abbrev pub last_port : ℕ → List Item → Option Text → Option Text
last_port k [] found = found
last_port k (port_item j port ∷ items) found =
    last_port k items (if j == k then some port else found)
last_port k (item ∷ items) found = last_port k items found

abbrev pub last_group : ℕ → List Item → Option ℕ → Option ℕ
last_group k [] found = found
last_group k (group_item j group ∷ items) found =
    last_group k items (if j == k then some group else found)
last_group k (item ∷ items) found = last_group k items found

-- The entry of a channel, if it has a port or a group.
abbrev pub entry_of : ℕ → Option Text → Option ℕ → Option InputPortSetup
entry_of k none none = none
entry_of k port group = some (record { channel_id = k; port = port; group_channel_id = group })

lookup-insert :
    {V : Type 0} (k j : ℕ) (v : V) (m : List (ℕ × V))
    → lookup k (insert j v m) ≡ (if j == k then some v else lookup k m)
lookup-insert k j v [] = refl
lookup-insert k j v ((i, w) ∷ m) = ground (arith, lookup-insert k j v m)

-- Keys and groups below 2 ^ 31.
abbrev AreSmall : Channels → Type 0
AreSmall ch =
    All (λ e. e.0 < 2 ^ 31) ch.ports × All (λ e. e.0 < 2 ^ 31) ch.groups × IsSmall ch.groups

insert-All :
    {V : Type 0} (P : ℕ × V → Type 0) (k : ℕ) (v : V) (m : List (ℕ × V))
    → P (k, v)
    → All P m
    → All P (insert k v m)
insert-All P k v [] h all = (h, tt)
insert-All P k v ((j, w) ∷ m) h all = elim (Bool-cases (j == k)) [
  | inl same ↦ rw same (h, all.1)
  | inr other ↦ rw other (all.0, insert-All P k v m h all.1)
]

read_items-last :
    (items : List Item) (ch : Channels)
    → All IsItem items
    → AreSmall ch
    → (after : Channels) × (read_items (map text_of items) ch ≡ returns after)
      × AreSmall after
      × ((k : ℕ) → lookup k after.ports ≡ last_port k items (lookup k ch.ports))
      × ((k : ℕ) → lookup k after.groups ≡ last_group k items (lookup k ch.groups))
unfolding read_items
read_items-last [] ch fits small = (ch, refl, small, λ k. refl, λ k. refl)
read_items-last (port_item j port ∷ items) ch fits (ports, groups, values) =
    let next : Channels = record ch { ports = insert j port ch.ports } in
    let (after, read, still, ps, gs) =
      read_items-last items next fits.1
        (insert-All (λ e. e.0 < 2 ^ 31) j port ch.ports fits.0 ports, groups, values) in
    (
      after,
      rw (stoi-to_string j fits.0) read,
      still,
      λ k. ps k ∙ ap (last_port k items) (lookup-insert k j port ch.ports),
      gs,
    )
read_items-last (group_item j group ∷ items) ch fits (ports, groups, values) =
    let next : Channels = record ch { groups = insert j group ch.groups } in
    let (after, read, still, ps, gs) = read_items-last items next fits.1 (
      ports,
      insert-All (λ e. e.0 < 2 ^ 31) j group ch.groups fits.0.0 groups,
      insert-All (λ e. e.1 < 2 ^ 31) j group ch.groups fits.0.1 values,
    ) in
    (
      after,
      rw (stoi-to_string j fits.0.0, stoi-to_string group fits.0.1) read,
      still,
      ps,
      λ k. gs k ∙ ap (last_group k items) (lookup-insert k j group ch.groups),
    )
read_items-last (other_item key value ∷ items) ch fits small =
    let (after, read, still, ps, gs) = read_items-last items ch fits.1 small in
    (after, rw (fits.0.0, fits.0.1) read, still, ps, gs)

setup_of-entry_of :
    (k : ℕ) (channels : Channels)
    → setup_of k channels ≡ entry_of k (lookup k channels.ports) (lookup k channels.groups)
setup_of-entry_of k channels = of (lookup k channels.ports) (lookup k channels.groups)
  where
    of :
        (port : Option Text) (group : Option ℕ)
        → (if is_some group || is_some port
            then some (record { channel_id = k; port = port; group_channel_id = group })
            else none)
          ≡ entry_of k port group
    of none none = refl
    of none (some group) = refl
    of (some port) none = refl
    of (some port) (some group) = refl

-- For metadata whose keys are a port of a channel, a group of a channel or something else, and whose
-- numbers fit into an `int`, the call returns. Its answer lists the channels in ascending order, each
-- once, and for every number `k` it holds the last port and the last group of the channel, or no
-- entry if the metadata have neither.
pub list_input_ports_setup-last_port :
    (field : ResponseField) (items : List Item) (k : ℕ)
    → All IsItem items
    → (setups : List InputPortSetup) × (list_input_ports_setup field (map text_of items)
        ≡ returns setups)
      × IsSorted (ids_of setups)
      × (find_setup k setups ≡ entry_of k (last_port k items none) (last_group k items none))
unfolding list_input_ports_setup
list_input_ports_setup-last_port field items k fits =
    let (channels, read, (ports, groups, values), ps, gs) =
      read_items-last items no_channels fits (tt, tt, tt) in
    let (sorted, found) = setups_of-IsSorted field channels k ports groups values in
    (
      _,
      rw read refl,
      sorted,
      found
          ∙ setup_of-entry_of k channels
          ∙ ap (λ p. entry_of k p (lookup k channels.groups)) (ps k)
          ∙ ap (entry_of k (last_port k items none)) (gs k),
    )
