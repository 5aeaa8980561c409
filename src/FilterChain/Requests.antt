-- ===== src/FilterChain/Requests.antt =====
-- The requests that the signal processor of src/applications/filter_chain_ctrl.cpp queues.
use mathlib.Core.List.{append-nil, append_assoc}
use pmx.Base.{
  Run-cases, take-nil, ltb→lt, ◌>>=◌, ℕ, suc, ◌+◌, ◌-◌, ◌≤◌, ◌<◌, ◌≡◌, refl, sym, ap, ◌∙◌, arith,
  Bool, true, false, ◌||◌, List, [], ◌∷◌, ◌++◌, Option, none, some, take, length, length-append,
  Run, returns, faults, ok, err, ltb, Bool-cases, inl, inr,
}
use pmx.Pod.{ArgReader, Packet}
use pmx.Properties.{Property}
use pmx.Osc.{parse_osc_path}
use pmx.FilterChain.{
  Request, push, find_filter_chain_id, get_filter_chain_id_and_add_to_queue, node_parameter_name,
  process_message, process_packets,
}

abbrev pub is_some_request : {R : Type 0} → List (Request R) → Bool
is_some_request [] = false
is_some_request (r ∷ rs) = true

module _ {R : Type 0} (reader : ArgReader R) where
  -- What a message asks for.
  unfoldable pub request_of : List (Property R) → Packet R → Run (List (Request R))
  unfolding find_filter_chain_id
  request_of ps m = do
    parsed ← parse_osc_path m.address
    elim parsed [
      | err e ↦ returns []
      | ok path ↦ elim (node_parameter_name path.channel_type path.layer) [
        | none ↦ returns []
        | some name ↦ do
          filter_chain_id ← find_filter_chain_id name ps
          elim filter_chain_id [
            | none ↦ returns []
            | some id ↦ do
              (x, arguments) ← reader.float32 m.arguments
              returns (record { path = path; filter_chain_id = id; value = x } ∷ [])
          ]
      ]
    ]

  -- What the messages of a cycle ask for, in their order.
  abbrev pub requests_of : List (Property R) → List (Option (Packet R)) → Run (List (Request R))
  requests_of ps [] = returns []
  requests_of ps (none ∷ packets) = requests_of ps packets
  requests_of ps (some m ∷ packets) = do
    first ← request_of ps m
    rest ← requests_of ps packets
    returns (first ++ rest)

  abbrev push_all : List (Request R) → List (Request R) → List (Request R)
  push_all queue [] = queue
  push_all queue (r ∷ rs) = push_all (push queue r) rs

  push_all-append :
      (queue xs ys : List (Request R)) → push_all queue (xs ++ ys) ≡ push_all (push_all queue xs) ys
  push_all-append queue [] ys = refl
  push_all-append queue (x ∷ xs) ys = push_all-append (push queue x) xs ys

  take_room :
      (r : Request R) (rs : List (Request R)) (n : ℕ)
      → n < 128
      → take (128 - n) (r ∷ rs) ≡ r ∷ take (128 - (n + 1)) rs
  take_room r rs n h =
      let e : 128 - n ≡ suc (128 - (n + 1)) = omega arith in ap (λ k. take k (r ∷ rs)) e

  take_full : (rs : List (Request R)) (n : ℕ) → 128 ≤ n → take (128 - n) rs ≡ []
  take_full rs n h = let e : 128 - n ≡ 0 = omega arith in ap (λ k. take k rs) e

  -- The queue takes what fits into its 128 places, and drops the rest.
  push_all-eq-take :
      (queue rs : List (Request R))
      → length queue ≤ 128
      → push_all queue rs ≡ queue ++ take (128 - length queue) rs
  push_all-eq-take queue [] h = rw (take-nil (128 - length queue)) (sym (append-nil queue))
  push_all-eq-take queue (r ∷ rs) h = elim (Bool-cases (ltb (length queue) 128)) [
    | inl room ↦
        rw
          (
            room,
            push_all-eq-take (queue ++ r ∷ []) rs (ground (arith, length-append queue (r ∷ []))),
            length-append queue (r ∷ []),
            take_room r rs (length queue) (ltb→lt (length queue) 128 room),
          )
          (append_assoc queue (r ∷ []) (take (128 - (length queue + 1)) rs))
    | inr full ↦
        rw
          (
            full,
            push_all-eq-take queue rs h,
            take_full rs (length queue) (ground arith),
            take_full (r ∷ rs) (length queue) (ground arith),
          )
          refl
  ]

  -- What the loop comes to, from what the messages ask for.
  abbrev queued : List (Request R) → Run (List (Request R)) → Run (List (Request R) × Bool)
  queued queue (returns rs) = returns (push_all queue rs, is_some_request rs)
  queued queue (faults e) = faults e

  process_message-eq-queued :
      (ps : List (Property R)) (m : Packet R) (queue : List (Request R))
      → process_message reader ps m queue ≡ queued queue (request_of ps m)
  unfolding process_message get_filter_chain_id_and_add_to_queue request_of
  process_message-eq-queued ps m queue = ground arith

  is_some_request-append :
      (xs ys : List (Request R))
      → is_some_request (xs ++ ys) ≡ is_some_request xs || is_some_request ys
  is_some_request-append [] ys = refl
  is_some_request-append (x ∷ xs) ys = refl

  process_packets-eq-queued :
      (ps : List (Property R)) (packets : List (Option (Packet R))) (queue : List (Request R))
      → process_packets reader ps packets queue ≡ queued queue (requests_of ps packets)
  unfolding process_packets
  process_packets-eq-queued ps [] queue = refl
  process_packets-eq-queued ps (none ∷ packets) queue = process_packets-eq-queued ps packets queue
  process_packets-eq-queued ps (some m ∷ packets) queue = elim (Run-cases (request_of ps m)) [
    | inl (first, e) ↦ elim (Run-cases (requests_of ps packets)) [
      | inl (rest, f) ↦
          rw
            (
              process_message-eq-queued ps m queue,
              e,
              process_packets-eq-queued ps packets (push_all queue first),
              f,
              push_all-append queue first rest,
              is_some_request-append first rest,
            )
            refl
      | inr (fault, f) ↦
          rw
            (
              process_message-eq-queued ps m queue,
              e,
              process_packets-eq-queued ps packets (push_all queue first),
              f,
            )
            refl
    ]
    | inr (fault, e) ↦ rw (process_message-eq-queued ps m queue, e) refl
  ]

  -- The processor faults as soon as reading one of the messages does. Else it appends the requests of
  -- the messages to the queue in their order, as far as they fit into its 128 places, and wakes the
  -- thread if there was any request, also one that did not fit.
  pub process_packets-queue :
      (ps : List (Property R)) (packets : List (Option (Packet R))) (queue : List (Request R))
      → length queue ≤ 128
      → process_packets reader ps packets queue ≡ (
          requests_of ps packets >>= λ rs.
          returns (queue ++ take (128 - length queue) rs, is_some_request rs))
  process_packets-queue ps packets queue h = elim (Run-cases (requests_of ps packets)) [
    | inl (rs, e) ↦
        process_packets-eq-queued ps packets queue ∙ rw (e, push_all-eq-take queue rs h) refl
    | inr (fault, e) ↦ process_packets-eq-queued ps packets queue ∙ rw e refl
  ]
