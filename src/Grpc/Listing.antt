-- ===== src/Grpc/Listing.antt =====
-- include/grpc/GrpcService.h: what `ListInputPortsSetup` answers.
use pmx.Base.{
  All, ◌^◌, ltb→lt, ℕ, ◌<◌, ◌==◌, ltb, ◌≡◌, refl, ap, ◌∙◌, arith, Bool, true, false, ◌||◌, inl, inr,
  List, [], ◌∷◌, Option, none, some, Bool-cases, if◌then◌else◌,
}
use pmx.Grpc.{
  ResponseField, keep_some, lookup, Channels, insert_key, insert_keys, InputPortSetup, setups_of,
}

-- Above `low`, each more than the one before.
abbrev pub IsSortedFrom : ℕ → List ℕ → Type 0
IsSortedFrom low [] = Unit
IsSortedFrom low (k ∷ keys) = (low < k) × IsSortedFrom k keys

abbrev pub IsSorted : List ℕ → Type 0
IsSorted [] = Unit
IsSorted (k ∷ keys) = IsSortedFrom k keys

abbrev pub ids_of : List InputPortSetup → List ℕ
ids_of [] = []
ids_of (s ∷ setups) = s.channel_id ∷ ids_of setups

-- A field that keeps every number, and that any field is for small ones.
abbrev pub whole : ResponseField
whole = record { keep = λ n. n; keep_small = λ n h. refl }

abbrev pub IsSmall : List (ℕ × ℕ) → Type 0
IsSmall m = All (λ e. e.1 < 2 ^ 31) m

keep_some-lookup :
    (field : ResponseField) (k : ℕ) (m : List (ℕ × ℕ))
    → IsSmall m
    → keep_some field (lookup k m) ≡ keep_some whole (lookup k m)
keep_some-lookup field k [] h = refl
keep_some-lookup field k ((j, v) ∷ m) h = elim (Bool-cases (j == k)) [
  | inl same ↦ rw (same, field.keep_small v h.0) refl
  | inr other ↦ rw other (keep_some-lookup field k m h.1)
]

pub setups_of-whole :
    (field : ResponseField) (keys : List ℕ) (channels : Channels)
    → All (λ k. k < 2 ^ 31) keys
    → IsSmall channels.groups
    → setups_of field keys channels ≡ setups_of whole keys channels
unfolding setups_of
setups_of-whole field [] channels h s = refl
setups_of-whole field (k ∷ keys) channels h s =
    rw
      (
        field.keep_small k h.0,
        keep_some-lookup field k channels.groups s,
        setups_of-whole field keys channels h.1 s,
      )
      refl

insert_key-IsSortedFrom :
    (low k : ℕ) (keys : List ℕ)
    → low < k
    → IsSortedFrom low keys
    → IsSortedFrom low (insert_key k keys)
unfolding insert_key
insert_key-IsSortedFrom low k [] h s = (h, tt)
insert_key-IsSortedFrom low k (j ∷ keys) h s = elim (Bool-cases (k == j)) [
  | inl same ↦ rw same s
  | inr other ↦ elim (Bool-cases (ltb k j)) [
    | inl less ↦ rw (other, less) (h, (ltb→lt k j less, s.1))
    | inr more ↦
        rw (other, more) (s.0, insert_key-IsSortedFrom j k keys (ground (arith, other, more)) s.1)
  ]
]

insert_key-IsSorted : (k : ℕ) (keys : List ℕ) → IsSorted keys → IsSorted (insert_key k keys)
unfolding insert_key
insert_key-IsSorted k [] s = tt
insert_key-IsSorted k (j ∷ keys) s = elim (Bool-cases (k == j)) [
  | inl same ↦ rw same s
  | inr other ↦ elim (Bool-cases (ltb k j)) [
    | inl less ↦ rw (other, less) (ltb→lt k j less, s)
    | inr more ↦ rw (other, more) (insert_key-IsSortedFrom j k keys (ground (arith, other, more)) s)
  ]
]

insert_keys-IsSorted :
    {V : Type 0} (m : List (ℕ × V)) (keys : List ℕ) → IsSorted keys → IsSorted (insert_keys m keys)
unfolding insert_keys
insert_keys-IsSorted [] keys s = s
insert_keys-IsSorted ((k, v) ∷ m) keys s =
    insert_key-IsSorted k (insert_keys m keys) (insert_keys-IsSorted m keys s)

ids_of-setups_of :
    (keys : List ℕ) (channels : Channels) → ids_of (setups_of whole keys channels) ≡ keys
unfolding setups_of
ids_of-setups_of [] channels = refl
ids_of-setups_of (k ∷ keys) channels = ap (◌∷◌ k) (ids_of-setups_of keys channels)

abbrev has_key : ℕ → List ℕ → Bool
has_key j [] = false
has_key j (k ∷ keys) = (k == j) || has_key j keys

abbrev pub is_some : {V : Type 0} → Option V → Bool
is_some none = false
is_some (some v) = true

has_key-insert_key :
    (j k : ℕ) (keys : List ℕ) → has_key j (insert_key k keys) ≡ ((k == j) || has_key j keys)
unfolding insert_key
has_key-insert_key j k [] = refl
has_key-insert_key j k (i ∷ keys) = ground (arith, has_key-insert_key j k keys)

has_key-insert_keys :
    {V : Type 0} (j : ℕ) (m : List (ℕ × V)) (keys : List ℕ)
    → has_key j (insert_keys m keys) ≡ (is_some (lookup j m) || has_key j keys)
unfolding insert_keys
has_key-insert_keys j [] keys = refl
has_key-insert_keys j ((k, v) ∷ m) keys =
    has_key-insert_key j k (insert_keys m keys) ∙ ground (arith, has_key-insert_keys j m keys)

-- The entry of a channel.
abbrev pub find_setup : ℕ → List InputPortSetup → Option InputPortSetup
find_setup k [] = none
find_setup k (s ∷ setups) = if s.channel_id == k then some s else find_setup k setups

-- What the answer should hold for a channel: nothing, or its port and its group.
abbrev pub setup_of : ℕ → Channels → Option InputPortSetup
setup_of k channels =
    if is_some (lookup k channels.groups) || is_some (lookup k channels.ports)
    then some (record {
      channel_id = k;
      port = lookup k channels.ports;
      group_channel_id = lookup k channels.groups;
    })
    else none

find_setup-setups_of :
    (k : ℕ) (keys : List ℕ) (channels : Channels)
    → find_setup k (setups_of whole keys channels) ≡ (
        if has_key k keys
        then some (record {
          channel_id = k;
          port = lookup k channels.ports;
          group_channel_id = lookup k channels.groups;
        })
        else none)
unfolding setups_of
find_setup-setups_of k [] channels = refl
find_setup-setups_of k (j ∷ keys) channels = ground (arith, find_setup-setups_of k keys channels)

sorted_keys : Channels → List ℕ
sorted_keys channels = insert_keys channels.groups (insert_keys channels.ports [])

find_setup-sorted_keys :
    (k : ℕ) (channels : Channels)
    → find_setup k (setups_of whole (sorted_keys channels) channels) ≡ setup_of k channels
unfolding sorted_keys
find_setup-sorted_keys k channels =
    find_setup-setups_of k (sorted_keys channels) channels
    ∙ ground (
      arith,
      has_key-insert_keys k channels.groups (insert_keys channels.ports []),
      has_key-insert_keys k channels.ports [],
    )

sorted_keys-IsSorted : (channels : Channels) → IsSorted (sorted_keys channels)
unfolding sorted_keys
sorted_keys-IsSorted channels =
    insert_keys-IsSorted channels.groups (insert_keys channels.ports [])
      (insert_keys-IsSorted channels.ports [] tt)

insert_key-small :
    (k : ℕ) (keys : List ℕ)
    → k < 2 ^ 31
    → All (λ j. j < 2 ^ 31) keys
    → All (λ j. j < 2 ^ 31) (insert_key k keys)
unfolding insert_key
insert_key-small k [] h small = (h, tt)
insert_key-small k (j ∷ keys) h small = elim (Bool-cases (k == j)) [
  | inl same ↦ rw same small
  | inr other ↦ elim (Bool-cases (ltb k j)) [
    | inl less ↦ rw (other, less) (h, small)
    | inr more ↦ rw (other, more) (small.0, insert_key-small k keys h small.1)
  ]
]

insert_keys-small :
    {V : Type 0} (m : List (ℕ × V)) (keys : List ℕ)
    → All (λ e. e.0 < 2 ^ 31) m
    → All (λ j. j < 2 ^ 31) keys
    → All (λ j. j < 2 ^ 31) (insert_keys m keys)
unfolding insert_keys
insert_keys-small [] keys h small = small
insert_keys-small ((k, v) ∷ m) keys h small =
    insert_key-small k (insert_keys m keys) h.0 (insert_keys-small m keys h.1 small)

-- The answer that is made of small numbers lists the channels in ascending order, each with its
-- port and its group.
pub setups_of-IsSorted :
    (field : ResponseField) (channels : Channels) (k : ℕ)
    → All (λ e. e.0 < 2 ^ 31) channels.ports
    → All (λ e. e.0 < 2 ^ 31) channels.groups
    → IsSmall channels.groups
    → IsSorted (
        ids_of
          (setups_of field (insert_keys channels.groups (insert_keys channels.ports [])) channels))
      × (find_setup k
            (setups_of field (insert_keys channels.groups (insert_keys channels.ports [])) channels)
          ≡ setup_of k channels)
setups_of-IsSorted field channels k ports groups values =
    let small =
      insert_keys-small channels.groups (insert_keys channels.ports []) groups
        (insert_keys-small channels.ports [] ports tt) in
    let keys = sorted_keys channels in
    rw (setups_of-whole field _ channels small values) (
      rw (ids_of-setups_of _ channels) (unfold sorted_keys in sorted_keys-IsSorted channels),
      unfold sorted_keys in find_setup-sorted_keys k channels,
    )
