-- ===== src/Grpc/Keys.antt =====
-- The numbers of the channels as include/grpc/GrpcService.h collects them, when they come from a
-- configuration: each once, and in order.
use pmx.Base.{
  ℕ, zero, suc, ◌==◌, ltb, Bool-cases, ◌+◌, ◌<◌, ◌≡◌, refl, arith, List, [], ◌∷◌, ◌++◌, Option,
  none, some, Text, length, inl, inr, All, All-append,
}
use pmx.Grpc.{insert_key, insert_keys}

-- The channels from `index` on that have a port, and the groups of the channels.
abbrev pub ports_from : ℕ → List (Option Text) → List (ℕ × Text)
ports_from index [] = []
ports_from index (none ∷ ports) = ports_from (index + 1) ports
ports_from index (some port ∷ ports) = (index, port) ∷ ports_from (index + 1) ports

abbrev pub groups_from : ℕ → List ℕ → List (ℕ × ℕ)
groups_from index [] = []
groups_from index (group ∷ groups) = (index, group) ∷ groups_from (index + 1) groups

pub All-weaken :
    {V : Type 0} (j k : ℕ) (m : List (ℕ × V)) → j < k → All (λ e. e.0 < j) m → All (λ e. e.0 < k) m
All-weaken j k [] h below = tt
All-weaken j k ((i, v) ∷ m) h below =
    let first : i < j = below.0 in (omega (arith, first), All-weaken j k m h below.1)

pub All-snoc :
    {V : Type 0} (k : ℕ) (v : V) (m : List (ℕ × V))
    → All (λ e. e.0 < k) m
    → All (λ e. e.0 < k + 1) (m ++ (k, v) ∷ [])
All-snoc k v m below =
    All-append (λ e. e.0 < k + 1) m ((k, v) ∷ []) (All-weaken k (k + 1) m (omega arith) below)
      (omega arith, tt)

pub All-ports_from :
    (j index : ℕ) (ports : List (Option Text))
    → j < index
    → All (λ e. j < e.0) (ports_from index ports)
All-ports_from j index [] h = tt
All-ports_from j index (none ∷ ports) h = All-ports_from j (index + 1) ports (omega arith)
All-ports_from j index (some port ∷ ports) h = (h, All-ports_from j (index + 1) ports (omega arith))

pub All-groups_from :
    (j index : ℕ) (groups : List ℕ) → j < index → All (λ e. j < e.0) (groups_from index groups)
All-groups_from j index [] h = tt
All-groups_from j index (group ∷ groups) h = (h, All-groups_from j (index + 1) groups (omega arith))

unfoldable pub range : ℕ → ℕ → List ℕ
range index zero = []
range index (suc n) = index ∷ range (index + 1) n

insert_key-below : (k : ℕ) (keys : List ℕ) → All (λ j. k < j) keys → insert_key k keys ≡ k ∷ keys
unfolding insert_key
insert_key-below k [] above = refl
insert_key-below k (j ∷ keys) above = ground (arith, above.0)

insert_key-above :
    (k j : ℕ) (keys : List ℕ) → j < k → insert_key k (j ∷ keys) ≡ j ∷ insert_key k keys
unfolding insert_key
insert_key-above k j keys h = ground arith

insert_keys-above :
    {V : Type 0} (j : ℕ) (m : List (ℕ × V)) (keys : List ℕ)
    → All (λ e. j < e.0) m
    → insert_keys m (j ∷ keys) ≡ j ∷ insert_keys m keys
unfolding insert_keys
insert_keys-above j [] keys above = refl
insert_keys-above j ((k, v) ∷ m) keys above =
    rw (insert_keys-above j m keys above.1) (insert_key-above k j (insert_keys m keys) above.0)

All-insert_key :
    (j k : ℕ) (keys : List ℕ) → j < k → All (λ i. j < i) keys → All (λ i. j < i) (insert_key k keys)
unfolding insert_key
All-insert_key j k [] h above = (h, tt)
All-insert_key j k (i ∷ keys) h above = elim (Bool-cases (k == i)) [
  | inl same ↦ rw same above
  | inr other ↦ elim (Bool-cases (ltb k i)) [
    | inl less ↦ rw (other, less) (h, above)
    | inr more ↦ rw (other, more) (above.0, All-insert_key j k keys h above.1)
  ]
]

All-insert_keys :
    {V : Type 0} (j : ℕ) (m : List (ℕ × V)) (keys : List ℕ)
    → All (λ e. j < e.0) m
    → All (λ i. j < i) keys
    → All (λ i. j < i) (insert_keys m keys)
unfolding insert_keys
All-insert_keys j [] keys above more = more
All-insert_keys j ((k, v) ∷ m) keys above more =
    All-insert_key j k (insert_keys m keys) above.0 (All-insert_keys j m keys above.1 more)

All-range : (j index n : ℕ) → j < index → All (λ i. j < i) (range index n)
unfolding range
All-range j index zero h = tt
All-range j index (suc n) h = (h, All-range j (index + 1) n (omega arith))

insert_key_same : (k : ℕ) (keys : List ℕ) → insert_key k (k ∷ keys) ≡ k ∷ keys
unfolding insert_key
insert_key_same k keys = ground arith

-- The sorted keys are all numbers of channels.
pub insert_keys-range :
    (index : ℕ) (ports : List (Option Text)) (groups : List ℕ)
    → length ports ≡ length groups
    → insert_keys (groups_from index groups) (insert_keys (ports_from index ports) [])
      ≡ range index (length groups)
unfolding insert_keys range
insert_keys-range index [] [] h = refl
insert_keys-range index [] (g ∷ groups) h = absurd (omega arith)
insert_keys-range index (p ∷ ports) [] h = absurd (omega arith)
insert_keys-range index (none ∷ ports) (g ∷ groups) h =
    rw (insert_keys-range (index + 1) ports groups (omega arith)) (
      insert_key-below index (range (index + 1) (length groups))
        (All-range index (index + 1) (length groups) (omega arith)))
insert_keys-range index (some p ∷ ports) (g ∷ groups) h =
    let rest : List ℕ = insert_keys (ports_from (index + 1) ports) [] in
    let above : All (λ i. index < i) rest =
      All-insert_keys index (ports_from (index + 1) ports) []
        (All-ports_from index (index + 1) ports (omega arith)) tt in
    rw
      (
        insert_key-below index rest above,
        insert_keys-above index (groups_from (index + 1) groups) rest
            (All-groups_from index (index + 1) groups (omega arith)),
        insert_keys-range (index + 1) ports groups (omega arith),
      )
      (insert_key_same index (range (index + 1) (length groups)))
