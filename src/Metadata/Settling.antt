-- ===== src/Metadata/Settling.antt =====
-- src/applications/metadata_manager.cpp: the thread that writes the configuration comes to rest.
use mathlib.Core.List.{append_assoc, append-nil}
use pmx.Base.{
  ℕ, zero, suc, ◌<◌, ◌⊎◌, Fault, faults, length, List-cases, ◌≡◌, refl, sym, ap, ◌∙◌, arith, Bool,
  true, false, inl, inr, List, [], ◌∷◌, ◌++◌, Run-cases, Run, returns, ◌>>=◌,
}
use pmx.Metadata.Batches.{handle_batch-unchanged, handle_batch-rest}
use pmx.Metadata.{Config, MetadataEvent, handle_batch}
use pmx.Metadata.Writer.{
  WriterState, pop_update, flush, round, rounds, Reach, events, start_of, Reach-events,
}

-- At rest the writer only waits.
rounds-start_of :
    (written : Run Bool) (n : ℕ) (last : Config)
    → rounds written n (start_of last) ≡ returns (start_of last)
unfolding rounds round
rounds-start_of written zero last = refl
rounds-start_of written (suc n) last = rounds-start_of written n last

-- The writer comes to rest, or `write_config` throws.
abbrev pub Settles : Run Bool → Config → Run WriterState → Type 0
Settles written last m =
    (m ≡ returns (start_of last)) ⊎ ((e : Fault) × (written ≡ faults e) × (m ≡ faults e))

handle_batch-empty :
    (config last : Config) (c : Bool) → handle_batch config [] ≡ returns (last, c) → config ≡ last
unfolding handle_batch
handle_batch-empty config last c h = ground arith

-- The batch is not empty.
flush-Settles :
    (written : Run Bool) (n : ℕ) (w : WriterState) (last : Config) (c : Bool)
    → w.queue ≡ []
    → handle_batch w.config w.batch ≡ returns (last, c)
    → w.file ≡ w.config
    → Settles written last (flush written w >>= rounds written n)
unfolding flush
flush-Settles written n w last true empty handled same = elim (Run-cases written) [
  | inr (e, failed) ↦ inr (e, failed, rw (handled, failed) refl)
  | inl (done, stored) ↦ inl (rw (handled, stored, empty) (rounds-start_of (returns done) n last))
]
flush-Settles written n w last false empty handled same =
    let kept : last ≡ w.config = handle_batch-unchanged w.config last w.batch handled in
    inl (rw (handled, empty, same) (rw (← kept) (rounds-start_of written n last)))

round-pops :
    (written : Run Bool) (w : WriterState) (event : MetadataEvent) (rest : List MetadataEvent)
    → w.queue ≡ event ∷ rest
    → round written w ≡ returns (record w { queue = rest; batch = w.batch ++ event ∷ [] })
unfolding round pop_update
round-pops written w event rest e = ground (arith, e)

round-rests :
    (written : Run Bool) (w : WriterState)
    → w.queue ≡ []
    → w.batch ≡ []
    → round written w ≡ returns w
unfolding round
round-rests written w e f = ground (arith, e, f)

round-flushes :
    (written : Run Bool) (w : WriterState) (event : MetadataEvent) (batch : List MetadataEvent)
    → w.queue ≡ []
    → w.batch ≡ event ∷ batch
    → round written w ≡ flush written w
unfolding round
round-flushes written w event batch e f = ground (arith, e, f)

-- The queue is empty.
round-Settles :
    (written : Run Bool) (n : ℕ) (w : WriterState) (last : Config) (c : Bool)
    → w.queue ≡ []
    → handle_batch w.config w.batch ≡ returns (last, c)
    → w.file ≡ w.config
    → Settles written last (rounds written (suc n) w)
unfolding rounds
round-Settles written n w last c empty handled same = elim (List-cases w.batch) [
  | inl none_left ↦
      let kept : w.config ≡ last =
        handle_batch-empty w.config last c (ap (handle_batch w.config) (sym none_left) ∙ handled) in
      let filed : w.file ≡ last = same ∙ kept in
      let at_rest : w ≡ start_of last =
        λ i. record { queue = empty i; batch = none_left i; config = kept i; file = filed i } in
      inl (
        rw (round-rests written w empty none_left)
          (ap (rounds written n) at_rest ∙ rounds-start_of written n last))
  | inr (event, batch, some_left) ↦
      rw (round-flushes written w event batch empty some_left)
        (flush-Settles written n w last c empty handled same)
]

-- Each round takes out one event of the queue, and then the batch is handled.
rounds-Settles :
    (written : Run Bool) (n : ℕ) (queue : List MetadataEvent) (w : WriterState) (last : Config)
    (c : Bool)
    → w.queue ≡ queue
    → handle_batch w.config (w.batch ++ queue) ≡ returns (last, c)
    → w.file ≡ w.config
    → length queue < n
    → Settles written last (rounds written n w)
unfolding rounds
rounds-Settles written zero queue w last c e handled same enough = absurd (omega arith)
rounds-Settles written (suc n) [] w last c e handled same enough =
    round-Settles written n w last c e
      (ap (handle_batch w.config) (sym (append-nil w.batch)) ∙ handled) same
rounds-Settles written (suc n) (event ∷ rest) w last c e handled same enough =
    rw (round-pops written w event rest e) (
      rounds-Settles written n rest (record w { queue = rest; batch = w.batch ++ event ∷ [] }) last
        c refl (ap (handle_batch w.config) (append_assoc w.batch (event ∷ []) rest) ∙ handled) same
        (omega arith))

-- From every state that the two threads can reach, if no event of the run throws, the writer alone
-- comes to rest within as many rounds of its loop as the queue has events, and one, and stays there:
-- the queue and the batch are empty, and the file and the configuration are what one batch of all the
-- events makes of the first configuration. Only if `write_config` throws does it end with this fault.
pub Reach_settled :
    (config last : Config) {t : WriterState} (r : Reach (start_of config) t) (b : Bool)
    (written : Run Bool) (n : ℕ)
    → handle_batch config (events r) ≡ returns (last, b)
    → length t.queue < n
    → Settles written last (rounds written n t)
Reach_settled config last {t} r b written n h enough =
    let (done, changed, split, handled, same) = Reach-events config r in
    let whole = ap (handle_batch config) (sym split) ∙ h in
    let (c, left) =
      handle_batch-rest config t.config last done (t.batch ++ t.queue) changed b handled whole in
    rounds-Settles written n t.queue t last c refl left same enough
