-- ===== src/SynchronizedQueue.antt =====
-- include/utils/synchronized_queue.h: a queue between threads. `push` and `pop` hold the lock, and
-- `pop` waits, with a predicate, until there is an item: a step of `pop` is one that has found it.
use mathlib.Core.List.{append_assoc, append-nil}
use pmx.Base.{◌≡◌, refl, sym, ap, ◌∙◌, List, [], ◌∷◌, ◌++◌, Option, none, some}

module _ {A : Type 0} where
  unfoldable pub push : A → List A → List A
  push value queue = queue ++ value ∷ []

  -- `none` is a thread that goes on waiting.
  unfoldable pub pop : List A → Option (A × List A)
  pop [] = none
  pop (item ∷ queue) = some (item, queue)

  -- What any number of threads do.
  pub data Step : List A → List A → Type 0 where
    pushes : (queue : List A) (value : A) → Step queue (push value queue)
    pops :
        (queue : List A) (item : A) (rest : List A)
        → pop queue ≡ some (item, rest)
        → Step queue rest

  pub data Reach (s : List A) : List A → Type 0 where
    here : Reach s s
    next : {t u : List A} → Reach s t → Step t u → Reach s u

  -- The items that went in and those that came out, in the order of the steps.
  abbrev pub pushed : {s t : List A} → Reach s t → List A
  pushed here = []
  pushed (next r (pushes queue value)) = pushed r ++ value ∷ []
  pushed (next r (pops queue item rest e)) = pushed r

  abbrev pub popped : {s t : List A} → Reach s t → List A
  popped here = []
  popped (next r (pushes queue value)) = popped r
  popped (next r (pops queue item rest e)) = popped r ++ item ∷ []

  pop_lem :
      (queue : List A) (item : A) (rest : List A)
      → pop queue ≡ some (item, rest)
      → queue ≡ item ∷ rest
  unfolding pop
  pop_lem [] item rest e = cc
  pop_lem (x ∷ queue) item rest e = cc

  -- In every interleaving, what has come out, followed by what is in the queue, is what was there at
  -- the start, followed by what went in: nothing is lost, made up or overtaken.
  pub Reach-popped : (s : List A) {t : List A} (r : Reach s t) → popped r ++ t ≡ s ++ pushed r
  unfolding push
  Reach-popped s here = sym (append-nil s)
  Reach-popped s (next r (pushes queue value)) =
      sym (append_assoc (popped r) queue (value ∷ []))
      ∙ ap (λ q. q ++ value ∷ []) (Reach-popped s r)
      ∙ append_assoc s (pushed r) (value ∷ [])
  Reach-popped s (next r (pops queue item rest e)) =
      append_assoc (popped r) (item ∷ []) rest
      ∙ ap (◌++◌ (popped r)) (sym (pop_lem queue item rest e))
      ∙ Reach-popped s r

  -- From a queue of any length, that many steps of `pop` empty it, and each takes the next item.
  pub Reach_emptied :
      (s queue : List A) (r : Reach s queue)
      → (q : Reach s []) × (popped q ≡ popped r ++ queue) × (pushed q ≡ pushed r)
  unfolding pop
  Reach_emptied s [] r = (r, sym (append-nil (popped r)), refl)
  Reach_emptied s (item ∷ queue) r =
      let (q, out, into) = Reach_emptied s queue (next r (pops (item ∷ queue) item queue refl)) in
      (q, out ∙ append_assoc (popped r) (item ∷ []) queue, into)
