-- ===== src/Grpc/Published.antt =====
-- include/grpc/GrpcService.h and src/applications/metadata_manager.cpp together: what the service
-- answers once the manager has published a configuration.
use mathlib.Core.List.{append-nil, append_assoc}
use pmx.Base.{
  suc, zero, ◌^◌, ℕ, ◌+◌, ◌<◌, ◌≡◌, refl, sym, arith, List, [], ◌∷◌, ◌++◌, Option, none, some, Text,
  length, returns, Run-cases, inl, inr, ◌>>=◌, stoi-to_string, All,
}
use pmx.Metadata.{Config, initial_ports, initial_groups, set_initial_metadata}
use pmx.Grpc.Listing.{whole, IsSmall, setups_of-whole}
use pmx.Grpc.{
  ResponseField, insert, lookup, Channels, no_channels, read_item, read_items, InputPortSetup,
  setups_of, list_input_ports_setup,
}
use pmx.Grpc.Keys.{
  ports_from, groups_from, All-weaken, All-snoc, All-ports_from, range, insert_keys-range,
}

-- One entry for each channel, from `index` on.
abbrev pub setups_from : ℕ → List (Option Text) → List ℕ → List InputPortSetup
setups_from index (port ∷ ports) (group ∷ groups) =
    record { channel_id = index; port = port; group_channel_id = some group }
    ∷ setups_from (index + 1) ports groups
setups_from index ports groups = []

insert-append :
    {V : Type 0} (k : ℕ) (v : V) (m : List (ℕ × V))
    → All (λ e. e.0 < k) m
    → insert k v m ≡ m ++ (k, v) ∷ []
insert-append k v [] below = refl
insert-append k v ((j, w) ∷ m) below = ground (arith, below.0, insert-append k v m below.1)

read_items-append :
    (xs ys : List (Text × Text)) (channels : Channels)
    → read_items (xs ++ ys) channels ≡ (read_items xs channels >>= read_items ys)
unfolding read_items
read_items-append [] ys channels = refl
read_items-append (x ∷ xs) ys channels = elim (Run-cases (read_item x channels)) [
  | inl (next, e) ↦ ground (arith, e, read_items-append xs ys next)
  | inr (fault, e) ↦ rw e refl
]

read_items-initial_ports :
    (index : ℕ) (ports : List (Option Text)) (m : List (ℕ × Text)) (groups : List (ℕ × ℕ))
    → All (λ e. e.0 < index) m
    → index + length ports < 1000
    → read_items (initial_ports index ports) (record { ports = m; groups = groups })
      ≡ returns (record { ports = m ++ ports_from index ports; groups = groups })
unfolding read_items initial_ports
read_items-initial_ports index [] m groups below small = rw (append-nil m) refl
read_items-initial_ports index (none ∷ ports) m groups below small =
    read_items-initial_ports (index + 1) ports m groups
      (All-weaken index (index + 1) m (omega arith) below) (omega arith)
read_items-initial_ports index (some port ∷ ports) m groups below small =
    rw
      (
        stoi-to_string index (omega arith),
        insert-append index port m below,
        read_items-initial_ports (index + 1) ports (m ++ (index, port) ∷ []) groups
            (All-snoc index port m below) (omega arith),
        append_assoc m ((index, port) ∷ []) (ports_from (index + 1) ports),
      )
      refl

read_items-initial_groups :
    (index : ℕ) (groups : List ℕ) (ports : List (ℕ × Text)) (m : List (ℕ × ℕ))
    → All (λ e. e.0 < index) m
    → All (λ g. g < 256) groups
    → index + length groups < 1000
    → read_items (initial_groups index groups) (record { ports = ports; groups = m })
      ≡ returns (record { ports = ports; groups = m ++ groups_from index groups })
unfolding read_items initial_groups
read_items-initial_groups index [] ports m below bytes small = rw (append-nil m) refl
read_items-initial_groups index (group ∷ groups) ports m below bytes small =
    let byte : group < 256 = bytes.0 in
    rw
      (
        stoi-to_string index (omega arith),
        stoi-to_string group (omega (arith, byte)),
        insert-append index group m below,
        read_items-initial_groups (index + 1) groups ports (m ++ (index, group) ∷ [])
            (All-snoc index group m below) bytes.1 (omega arith),
        append_assoc m ((index, group) ∷ []) (groups_from (index + 1) groups),
      )
      refl

lookup-append :
    {V : Type 0} (k : ℕ) (m n : List (ℕ × V))
    → All (λ e. e.0 < k) m
    → lookup k (m ++ n) ≡ lookup k n
lookup-append k [] n below = refl
lookup-append k ((j, v) ∷ m) n below = ground (arith, below.0, lookup-append k m n below.1)

lookup_above : {V : Type 0} (k : ℕ) (m : List (ℕ × V)) → All (λ e. k < e.0) m → lookup k m ≡ none
lookup_above k [] above = refl
lookup_above k ((j, v) ∷ m) above = ground (arith, above.0, lookup_above k m above.1)

lookup-ports_from :
    (index : ℕ) (port : Option Text) (ports : List (Option Text))
    → lookup index (ports_from index (port ∷ ports)) ≡ port
lookup-ports_from index none ports =
    lookup_above index (ports_from (index + 1) ports)
      (All-ports_from index (index + 1) ports (omega arith))
lookup-ports_from index (some port) ports = ground arith

lookup-groups_from :
    (index group : ℕ) (groups : List ℕ)
    → lookup index (groups_from index (group ∷ groups)) ≡ some group
lookup-groups_from index group groups = ground arith

-- The first channel goes over to the front.
ports_from-front :
    (index : ℕ) (port : Option Text) (ports : List (Option Text)) (m : List (ℕ × Text))
    → All (λ e. e.0 < index) m
    → (front : List (ℕ × Text)) × (m ++ ports_from index (port ∷ ports)
        ≡ front ++ ports_from (index + 1) ports)
      × All (λ e. e.0 < index + 1) front
ports_from-front index none ports m below =
    (m, refl, All-weaken index (index + 1) m (omega arith) below)
ports_from-front index (some port) ports m below = (
  m ++ (index, port) ∷ [],
  sym (append_assoc m ((index, port) ∷ []) (ports_from (index + 1) ports)),
  All-snoc index port m below,
)

setups_of-range :
    (index : ℕ) (ports : List (Option Text)) (groups : List ℕ) (pm : List (ℕ × Text))
    (gm : List (ℕ × ℕ))
    → length ports ≡ length groups
    → All (λ e. e.0 < index) pm
    → All (λ e. e.0 < index) gm
    → setups_of whole
        (range index (length groups))
        (record { ports = pm ++ ports_from index ports; groups = gm ++ groups_from index groups })
      ≡ setups_from index ports groups
unfolding setups_of range
setups_of-range index [] [] pm gm h below1 below2 = refl
setups_of-range index [] (g ∷ groups) pm gm h below1 below2 = absurd (omega arith)
setups_of-range index (p ∷ ports) [] pm gm h below1 below2 = absurd (omega arith)
setups_of-range index (p ∷ ports) (g ∷ groups) pm gm h below1 below2 =
    let (front, same, below) = ports_from-front index p ports pm below1 in
    let rest =
      setups_of-range (index + 1) ports groups front (gm ++ (index, g) ∷ []) (omega arith) below
        (All-snoc index g gm below2) in
    rw
      (
        lookup-append index pm (ports_from index (p ∷ ports)) below1,
        lookup-append index gm (groups_from index (g ∷ groups)) below2,
        lookup-ports_from index p ports,
        lookup-groups_from index g groups,
        same,
        ← append_assoc gm ((index, g) ∷ []) (groups_from (index + 1) groups),
        rest,
      )
      refl

range-small : (index n : ℕ) → index + n < 2 ^ 31 → All (λ k. k < 2 ^ 31) (range index n)
unfolding range
range-small index zero h = tt
range-small index (suc n) h = (omega arith, range-small (index + 1) n (omega arith))

groups_from-IsSmall :
    (index : ℕ) (groups : List ℕ) → All (λ g. g < 256) groups → IsSmall (groups_from index groups)
groups_from-IsSmall index [] h = tt
groups_from-IsSmall index (g ∷ groups) h =
    let byte : g < 256 = h.0 in (omega (arith, byte), groups_from-IsSmall (index + 1) groups h.1)

-- Once the manager has published a configuration, and the metadata hold just what it has published,
-- in this order, the service answers with one entry for each channel from 1 on, in order, with the
-- port, if it has one, and the group of the channel. The configuration has as many groups as
-- channels, fewer than 999, and the groups are bytes.
pub list_input_ports_setup-set_initial_metadata :
    (field : ResponseField) (c : Config)
    → length c.input_channels ≡ length c.input_channel_groups
    → length c.input_channels < 999
    → All (λ g. g < 256) c.input_channel_groups
    → list_input_ports_setup field (set_initial_metadata c)
      ≡ returns (setups_from 1 c.input_channels c.input_channel_groups)
unfolding list_input_ports_setup set_initial_metadata
list_input_ports_setup-set_initial_metadata field c h small bytes =
    rw
      (
        read_items-append (initial_ports 1 c.input_channels)
            (initial_groups 1 c.input_channel_groups) no_channels,
        read_items-initial_ports 1 c.input_channels [] [] tt (omega arith),
        read_items-initial_groups 1 c.input_channel_groups (ports_from 1 c.input_channels) [] tt
            bytes (omega arith),
        insert_keys-range 1 c.input_channels c.input_channel_groups h,
        setups_of-whole field (range 1 (length c.input_channel_groups))
            (record {
              ports = ports_from 1 c.input_channels;
              groups = groups_from 1 c.input_channel_groups;
            })
            (range-small 1 (length c.input_channel_groups) (omega arith))
            (groups_from-IsSmall 1 c.input_channel_groups bytes),
        setups_of-range 1 c.input_channels c.input_channel_groups [] [] h tt tt,
      )
      refl
