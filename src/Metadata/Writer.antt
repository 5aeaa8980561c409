-- ===== src/Metadata/Writer.antt =====
-- The two threads of src/applications/metadata_manager.cpp: the main loop pushes what changes into the
-- queue of include/metadata/metadata_watcher.h, and the writer takes the events out one by one,
-- handles them as a batch once the queue is empty, and writes the file if anything has changed.
-- The functions of the queue hold its lock, so that each is one step.
use mathlib.Core.List.{append_assoc}
use pmx.Base.{
  ℕ, zero, suc, ◌≡◌, refl, sym, ap, ◌∙◌, arith, Bool, true, false, ◌||◌, inl, inr, List, [], ◌∷◌,
  ◌++◌, Option, none, some, Text, Run-cases, if◌then◌else◌, Run, returns, ◌>>=◌,
}
use pmx.Metadata.Batches.{handle_batch-append_returns, handle_batch-unchanged}
use pmx.Metadata.{Config, MetadataEvent, deletion, update, handle_batch, metadata_changed}

pub record WriterState : Type 0 where
  pub queue : List MetadataEvent
  pub batch : List MetadataEvent
  pub config : Config
  -- what the file holds
  pub file : Config

-- `has_metadata_updates`, and `pop_metadata_update` into the batch. The writer is the only thread
-- that pops.
unfoldable pub pop_update : WriterState → WriterState
pop_update w = elim w.queue [
  | [] ↦ w
  | event ∷ rest ↦ record w { queue = rest; batch = w.batch ++ event ∷ [] }
]

-- A batch that is not empty is handled and cleared. `written` is what `write_config` comes to, which
-- throws where the file cannot be opened.
unfoldable pub flush : Run Bool → WriterState → Run WriterState
flush written w = do
  (next, changed) ← handle_batch w.config w.batch
  if changed
      then (do done ← written; returns (record w { batch = []; config = next; file = next }))
      else returns (record w { batch = []; config = next })

-- One round of the loop of the writer. A wait of a second changes nothing.
unfoldable pub round : Run Bool → WriterState → Run WriterState
unfolding pop_update flush
round written w = elim w.queue [
  | event ∷ rest ↦ returns (pop_update w)
  | [] ↦ elim w.batch [ [] ↦ returns w | event ∷ batch ↦ flush written w ]
]

unfoldable pub rounds : Run Bool → ℕ → WriterState → Run WriterState
rounds written zero w = returns w
rounds written (suc n) w = do next ← round written w; rounds written n next

-- The steps of the two threads.
pub data Step : WriterState → WriterState → Type 0 where
  changes :
      (w : WriterState) (key : Text) (value : Option Text)
      → Step w (record w { queue = metadata_changed key value w.queue })
  pops :
      (w : WriterState) (event : MetadataEvent) (rest : List MetadataEvent)
      → w.queue ≡ event ∷ rest
      → Step w (pop_update w)
  flushes :
      (written : Run Bool) (w v : WriterState)
      → w.queue ≡ []
      → flush written w ≡ returns v
      → Step w v

pub data Reach (s : WriterState) : WriterState → Type 0 where
  here : Reach s s
  next : {t u : WriterState} → Reach s t → Step t u → Reach s u

abbrev event_of : Text → Option Text → MetadataEvent
event_of key none = deletion key
event_of key (some value) = update key value

-- The events of a run, in the order in which they came.
abbrev pub events : {s t : WriterState} → Reach s t → List MetadataEvent
events here = []
events (next r (changes w key value)) = events r ++ event_of key value ∷ []
events (next r (pops w event rest e)) = events r
events (next r (flushes written w v e f)) = events r

metadata_changed-event_of :
    (key : Text) (value : Option Text) (queue : List MetadataEvent)
    → metadata_changed key value queue ≡ queue ++ event_of key value ∷ []
unfolding metadata_changed
metadata_changed-event_of key none queue = refl
metadata_changed-event_of key (some value) queue = refl

flush-outcome :
    (written : Run Bool) (w v : WriterState)
    → flush written w ≡ returns v
    → w.file ≡ w.config
    → (changed : Bool) × (handle_batch w.config w.batch ≡ returns (v.config, changed))
      × (v.queue ≡ w.queue)
      × (v.batch ≡ [])
      × (v.file ≡ v.config)
unfolding flush
flush-outcome written w v f same = elim (Run-cases (handle_batch w.config w.batch)) [
  | inr (e, thrown) ↦ absurd (ground (arith, thrown))
  | inl ((after, true), handled) ↦ elim (Run-cases written) [
    | inr (e, failed) ↦ absurd (ground (arith, handled, failed))
    | inl (done, stored) ↦ (
      true,
      ground (arith, handled, stored),
      ground (arith, handled, stored),
      ground (arith, handled, stored),
      ground (arith, handled, stored),
    )
  ]
  | inl ((after, false), handled) ↦ (
    false,
    ground (arith, handled),
    ground (arith, handled),
    ground (arith, handled),
    ground (arith, handled, same, handle_batch-unchanged w.config after w.batch handled),
  )
]

pop_update-append :
    (w : WriterState) (event : MetadataEvent) (rest : List MetadataEvent)
    → w.queue ≡ event ∷ rest
    → ((pop_update w).batch ++ (pop_update w).queue ≡ w.batch ++ w.queue)
      × ((pop_update w).config ≡ w.config)
      × ((pop_update w).file ≡ w.file)
unfolding pop_update
pop_update-append w event rest e = (
  ground (arith, e, append_assoc w.batch (event ∷ []) rest),
  ground (arith, e),
  ground (arith, e),
)

-- Before anything has come in: the file holds the configuration.
abbrev pub start_of : Config → WriterState
start_of config = record { queue = []; batch = []; config = config; file = config }

-- In every interleaving the events are handled in the order in which they came, each once: those
-- handled, those of the batch and those of the queue make up the run; the configuration is what one
-- batch of the handled ones makes of the first configuration; and the file holds the configuration.
pub Reach-events :
    (config : Config) {t : WriterState} (r : Reach (start_of config) t)
    → (done : List MetadataEvent) × (changed : Bool) × (events r ≡ done ++ (t.batch ++ t.queue))
      × (handle_batch config done ≡ returns (t.config, changed))
      × (t.file ≡ t.config)
unfolding handle_batch
Reach-events config here = ([], false, refl, refl, refl)
Reach-events config (next r (changes w key value)) =
    let (done, changed, split, handled, same) = Reach-events config r in
    (
      done,
      changed,
      ap (λ es. es ++ event_of key value ∷ []) split
          ∙ append_assoc done (w.batch ++ w.queue) (event_of key value ∷ [])
          ∙ ap (◌++◌ done) (append_assoc w.batch w.queue (event_of key value ∷ []))
          ∙ ap (λ q. done ++ (w.batch ++ q)) (sym (metadata_changed-event_of key value w.queue)),
      handled,
      same,
    )
Reach-events config (next r (pops w event rest e)) =
    let (done, changed, split, handled, same) = Reach-events config r in
    let (kept, one, two) = pop_update-append w event rest e in
    (
      done,
      changed,
      split ∙ ap (◌++◌ done) (sym kept),
      handled ∙ ap (λ c. returns (c, changed)) (sym one),
      two ∙ same ∙ sym one,
    )
Reach-events config (next r (flushes written w v e f)) =
    let (done, changed, split, handled, same) = Reach-events config r in
    let (now, batched, queued, cleared, filed) = flush-outcome written w v f same in
    (
      done ++ w.batch,
      changed || now,
      split
          ∙ sym (append_assoc done w.batch w.queue)
          ∙ ap (◌++◌ (done ++ w.batch)) (sym queued ∙ ap (λ b. b ++ v.queue) (sym cleared)),
      handle_batch-append_returns config w.config v.config done w.batch changed now handled batched,
      filed,
    )
