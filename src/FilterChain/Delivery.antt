-- ===== src/FilterChain/Delivery.antt =====
-- What the thread of src/applications/filter_chain_ctrl.cpp sets in the nodes.
use pmx.Base.{
  ℕ, ◌==◌, ◌≡◌, refl, ◌∙◌, arith, List, [], ◌∷◌, ◌++◌, Option, none, some, if◌then◌else◌, ℤ,
  uint32_of_int, Option-cases, inl, inr,
}
use pmx.ProxyWatcher.{find_proxy, Proxy, Watcher, get_proxy, client}
use pmx.FilterChain.{
  Request, SetPropsParam, parameter_name, set_proxy, find_client, set_for, process_request,
  process_queue,
}

module _ {R : Type 0} (bind : ℕ → Option ℕ) where
  abbrev client_in : ℕ → List (Proxy R) → Option ℕ
  client_in id ps = elim (find_proxy id ps) [ none ↦ none | some p ↦ (client bind p).0 ]

  -- The client that belongs to a node's id.
  unfoldable pub client_of : ℤ → Watcher R → Option ℕ
  client_of z w = client_in (uint32_of_int z) w.proxies

  -- What one request sets.
  unfoldable pub delivery : Watcher R → Request R → List (SetPropsParam R)
  unfolding client_of
  delivery w request = elim (parameter_name request.path) [
    | none ↦ []
    | some name ↦ set_for (client_of request.filter_chain_id w) name request.value
  ]

  abbrev pub deliveries : Watcher R → List (Request R) → List (SetPropsParam R)
  deliveries w [] = []
  deliveries w (request ∷ queue) = delivery w request ++ deliveries w queue

  find_proxy-id :
      (id : ℕ) (ps : List (Proxy R)) (p : Proxy R) → find_proxy id ps ≡ some p → p.id ≡ id
  find_proxy-id id [] p h = cc
  find_proxy-id id (q ∷ ps) p h = ground (arith, find_proxy-id id ps p)

  find_proxy-set_proxy :
      (id j : ℕ) (p old : Proxy R) (ps : List (Proxy R))
      → find_proxy id ps ≡ some old
      → p.id ≡ id
      → find_proxy j (set_proxy id p ps) ≡ (if id == j then some p else find_proxy j ps)
  find_proxy-set_proxy id j p old [] h k = cc
  find_proxy-set_proxy id j p old (q ∷ ps) h k = ground (arith, find_proxy-set_proxy id j p old ps)

  client_again : (p : Proxy R) → (client bind (client bind p).1).0 ≡ (client bind p).0
  unfolding client
  client_again p = ground arith

  client_id : (p : Proxy R) → (client bind p).1.id ≡ p.id
  unfolding client
  client_id p = ground arith

  client_in-set_proxy :
      (id j : ℕ) (p : Proxy R) (ps : List (Proxy R))
      → find_proxy id ps ≡ some p
      → client_in j (set_proxy id (client bind p).1 ps) ≡ client_in j ps
  client_in-set_proxy id j p ps h = ground (
    arith,
    client_again p,
    find_proxy-set_proxy id j (client bind p).1 p ps h (client_id p ∙ find_proxy-id id ps p h),
  )

  client_of-find_client :
      (y z : ℤ) (w : Watcher R) → client_of y (find_client bind z w).1 ≡ client_of y w
  unfolding client_of find_client get_proxy
  client_of-find_client y z w = elim (Option-cases (find_proxy (uint32_of_int z) w.proxies)) [
    | inl n ↦ ground arith
    | inr (p, e) ↦
        ground (arith, client_in-set_proxy (uint32_of_int z) (uint32_of_int y) p w.proxies e)
  ]

  find_client-client_of : (z : ℤ) (w : Watcher R) → (find_client bind z w).0 ≡ client_of z w
  unfolding client_of find_client get_proxy
  find_client-client_of z w = ground arith

  deliveries-same :
      (v w : Watcher R) (queue : List (Request R))
      → ((z : ℤ) → client_of z v ≡ client_of z w)
      → deliveries v queue ≡ deliveries w queue
  unfolding delivery
  deliveries-same v w [] same = refl
  deliveries-same v w (request ∷ queue) same =
      ground (arith, same request.filter_chain_id, deliveries-same v w queue same)

  process_request-delivery :
      (request : Request R) (w : Watcher R)
      → (process_request bind request w).0 ≡ delivery w request
  unfolding delivery process_request
  process_request-delivery request w =
      ground (arith, find_client-client_of request.filter_chain_id w)

  client_of-process_request :
      (request : Request R) (w : Watcher R) (z : ℤ)
      → client_of z (process_request bind request w).1 ≡ client_of z w
  unfolding process_request
  client_of-process_request request w z =
      ground (arith, client_of-find_client z request.filter_chain_id w)

  -- Keeping clients in the proxies is not seen from outside: what the thread sets for the requests of
  -- the queue is what each of them sets in the watcher as it was, in their order.
  pub process_queue-eq-deliveries :
      (queue : List (Request R)) (w : Watcher R)
      → (process_queue bind queue w).0 ≡ deliveries w queue
  unfolding process_queue
  process_queue-eq-deliveries [] w = refl
  process_queue-eq-deliveries (request ∷ queue) w =
      rw
        (
          process_request-delivery request w,
          process_queue-eq-deliveries queue (process_request bind request w).1,
          deliveries-same (process_request bind request w).1 w queue
              (client_of-process_request request w),
        )
        refl
