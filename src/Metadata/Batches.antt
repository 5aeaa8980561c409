-- ===== src/Metadata/Batches.antt =====
-- How batches of events are put together and taken apart.
use pmx.Base.{
  ◌>>=◌, refl, ◌≡◌, ◌∙◌, arith, Bool, false, ◌||◌, inl, inr, List, [], ◌∷◌, ◌++◌, Run-cases,
  returns,
}
use pmx.Metadata.{Config, MetadataEvent, deletion, update, handle_event, handle_batch}

pub handle_batch-append :
    (config : Config) (xs ys : List MetadataEvent)
    → handle_batch config (xs ++ ys)
      ≡ (handle_batch config xs >>= λ r. handle_batch r.0 ys >>= λ q. returns (q.0, r.1 || q.1))
unfolding handle_batch
handle_batch-append config [] ys = elim (Run-cases (handle_batch config ys)) [
  | inl (r, e) ↦ rw e refl
  | inr (fault, e) ↦ rw e refl
]
handle_batch-append config (x ∷ xs) ys = elim (Run-cases (handle_event config x)) [
  | inl ((mid, now), g) ↦ ground (arith, g, handle_batch-append mid xs ys)
  | inr (fault, g) ↦ rw g refl
]

pub handle_batch-append_returns :
    (config mid last : Config) (xs ys : List MetadataEvent) (a b : Bool)
    → handle_batch config xs ≡ returns (mid, a)
    → handle_batch mid ys ≡ returns (last, b)
    → handle_batch config (xs ++ ys) ≡ returns (last, a || b)
handle_batch-append_returns config mid last xs ys a b h k =
    rw (handle_batch-append config xs ys, h, k) refl

-- An event that is not reported as a change leaves the configuration as it was.
handle_event-unchanged :
    (config after : Config) (event : MetadataEvent)
    → handle_event config event ≡ returns (after, false)
    → after ≡ config
unfolding handle_event
handle_event-unchanged config after (deletion key) h = ground arith
handle_event-unchanged config after (update key value) h = ground arith

pub handle_batch-unchanged :
    (config after : Config) (xs : List MetadataEvent)
    → handle_batch config xs ≡ returns (after, false)
    → after ≡ config
unfolding handle_batch
handle_batch-unchanged config after [] h = ground arith
handle_batch-unchanged config after (x ∷ xs) h = elim (Run-cases (handle_event config x)) [
  | inr (e, thrown) ↦ absurd (ground (arith, thrown))
  | inl ((one, now), first) ↦ elim (Run-cases (handle_batch one xs)) [
    | inr (e, thrown) ↦ absurd (ground (arith, first, thrown))
    | inl ((two, later), rest) ↦
        ground (
          arith,
          first,
          rest,
          handle_event-unchanged config one x,
          handle_batch-unchanged one two xs,
        )
  ]
]

pub handle_batch-rest :
    (config mid last : Config) (xs ys : List MetadataEvent) (a b : Bool)
    → handle_batch config xs ≡ returns (mid, a)
    → handle_batch config (xs ++ ys) ≡ returns (last, b)
    → (c : Bool) × (handle_batch mid ys ≡ returns (last, c))
handle_batch-rest config mid last xs ys a b h k = elim (Run-cases (handle_batch mid ys)) [
  | inr (e, thrown) ↦ absurd (ground (arith, h, k, thrown, handle_batch-append config xs ys))
  | inl ((l, c), rest) ↦ (c, rest ∙ ground (arith, h, k, rest, handle_batch-append config xs ys))
]
