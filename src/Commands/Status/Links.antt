-- ===== src/Commands/Status/Links.antt =====
-- src/commands/status.cpp: when the check of the OSC connections is silent.
use pmx.Base.{
  All, Run, ◌>>=◌, filter, ap, ◌∙◌, ◌≡◌, ◌↔◌, refl, arith, inl, inr, List, [], ◌∷◌, ◌++◌, none,
  some, Text, codes, Run-cases, returns,
}
use pmx.Constants.{pmx_osc_producer_node_names, pmx_osc_consumer_node_names}
use pmx.Collections.{Link, WpProxy}
use pmx.Commands.Status.Wiring.{
  is_producer, is_consumer, osc_nodes-filter, FirstPort, find_osc_port-FirstPort,
  FirstPort-find_osc_port, Joined, is_linked-Joined, Joined-is_linked,
}
use pmx.Commands.Status.{
  missing_lines, find_osc_port, link_lines_of, consumer_lines, producer_lines,
  check_osc_connections,
}
use pmx.Commands.Status.Naming.{Named, missing_lines-Named, Named-missing_lines}

-- Both ends have an OSC port, and a link joins the two.
abbrev pub Linked : List WpProxy → List Link → WpProxy → WpProxy → Type 0
Linked proxies links producer consumer =
    (o : WpProxy) × (i : WpProxy) × FirstPort proxies producer.object_id o
    × FirstPort proxies consumer.object_id i
    × Joined links o.object_id i.object_id

link_lines_of-Linked :
    (proxies : List WpProxy) (links : List Link) (producer consumer : WpProxy)
    → link_lines_of proxies links producer consumer ≡ returns []
    → Linked proxies links producer consumer
unfolding link_lines_of
link_lines_of-Linked proxies links producer consumer h =
    elim (Run-cases (find_osc_port producer.object_id proxies)) [
      | inr (e, thrown) ↦ absurd (ground (arith, thrown))
      | inl (none, closed) ↦ absurd (ground (arith, closed))
      | inl (some o, out) ↦ elim (Run-cases (find_osc_port consumer.object_id proxies)) [
        | inr (e, thrown) ↦ absurd (ground (arith, out, thrown))
        | inl (none, closed) ↦ absurd (ground (arith, out, closed))
        | inl (some i, into) ↦ (
          o,
          i,
          find_osc_port-FirstPort proxies producer.object_id o out,
          find_osc_port-FirstPort proxies consumer.object_id i into,
          is_linked-Joined links o.object_id i.object_id (ground (arith, out, into)),
        )
      ]
    ]

Linked-link_lines_of :
    (proxies : List WpProxy) (links : List Link) (producer consumer : WpProxy)
    → Linked proxies links producer consumer
    → link_lines_of proxies links producer consumer ≡ returns []
unfolding link_lines_of
Linked-link_lines_of proxies links producer consumer (o, i, out, into, linked) =
    rw
      (
        FirstPort-find_osc_port proxies producer.object_id o out,
        FirstPort-find_osc_port proxies consumer.object_id i into,
        Joined-is_linked links o.object_id i.object_id linked,
      )
      refl

append-nil_left : {A : Type 0} (xs ys : List A) → xs ++ ys ≡ [] → xs ≡ []
append-nil_left [] ys h = refl
append-nil_left (x ∷ xs) ys h = cc

append-nil_right : {A : Type 0} (xs ys : List A) → xs ++ ys ≡ [] → ys ≡ []
append-nil_right [] ys h = h
append-nil_right (x ∷ xs) ys h = cc

-- Every consumer is linked to the producer, and every producer to every consumer.
abbrev pub LinkedTo : List WpProxy → List Link → WpProxy → List WpProxy → Type 0
LinkedTo proxies links producer [] = Unit
LinkedTo proxies links producer (consumer ∷ consumers) =
    Linked proxies links producer consumer × LinkedTo proxies links producer consumers

abbrev pub AllLinked : List WpProxy → List Link → List WpProxy → List WpProxy → Type 0
AllLinked proxies links [] consumers = Unit
AllLinked proxies links (producer ∷ producers) consumers =
    LinkedTo proxies links producer consumers × AllLinked proxies links producers consumers

consumer_lines-LinkedTo :
    (proxies : List WpProxy) (links : List Link) (producer : WpProxy) (consumers : List WpProxy)
    → consumer_lines proxies links producer consumers ≡ returns []
    → LinkedTo proxies links producer consumers
unfolding consumer_lines
consumer_lines-LinkedTo proxies links producer [] h = tt
consumer_lines-LinkedTo proxies links producer (consumer ∷ consumers) h =
    elim (Run-cases (link_lines_of proxies links producer consumer)) [
      | inr (e, thrown) ↦ absurd (ground (arith, thrown))
      | inl (lines, first) ↦ elim (Run-cases (consumer_lines proxies links producer consumers)) [
        | inr (e, thrown) ↦ absurd (ground (arith, first, thrown))
        | inl (more, rest) ↦
            let both : lines ++ more ≡ [] = ground (arith, first, rest) in
            (
              link_lines_of-Linked proxies links producer consumer
                  (first ∙ ap returns (append-nil_left lines more both)),
              consumer_lines-LinkedTo proxies links producer consumers
                  (rest ∙ ap returns (append-nil_right lines more both)),
            )
      ]
    ]

producer_lines-AllLinked :
    (proxies : List WpProxy) (links : List Link) (producers consumers : List WpProxy)
    → producer_lines proxies links producers consumers ≡ returns []
    → AllLinked proxies links producers consumers
unfolding producer_lines
producer_lines-AllLinked proxies links [] consumers h = tt
producer_lines-AllLinked proxies links (producer ∷ producers) consumers h =
    elim (Run-cases (consumer_lines proxies links producer consumers)) [
      | inr (e, thrown) ↦ absurd (ground (arith, thrown))
      | inl (lines, first) ↦ elim (Run-cases (producer_lines proxies links producers consumers)) [
        | inr (e, thrown) ↦ absurd (ground (arith, first, thrown))
        | inl (more, rest) ↦
            let both : lines ++ more ≡ [] = ground (arith, first, rest) in
            (
              consumer_lines-LinkedTo proxies links producer consumers
                  (first ∙ ap returns (append-nil_left lines more both)),
              producer_lines-AllLinked proxies links producers consumers
                  (rest ∙ ap returns (append-nil_right lines more both)),
            )
      ]
    ]

LinkedTo-consumer_lines :
    (proxies : List WpProxy) (links : List Link) (producer : WpProxy) (consumers : List WpProxy)
    → LinkedTo proxies links producer consumers
    → consumer_lines proxies links producer consumers ≡ returns []
unfolding consumer_lines
LinkedTo-consumer_lines proxies links producer [] h = refl
LinkedTo-consumer_lines proxies links producer (consumer ∷ consumers) h =
    rw
      (
        Linked-link_lines_of proxies links producer consumer h.0,
        LinkedTo-consumer_lines proxies links producer consumers h.1,
      )
      refl

AllLinked-producer_lines :
    (proxies : List WpProxy) (links : List Link) (producers consumers : List WpProxy)
    → AllLinked proxies links producers consumers
    → producer_lines proxies links producers consumers ≡ returns []
unfolding producer_lines
AllLinked-producer_lines proxies links [] consumers h = refl
AllLinked-producer_lines proxies links (producer ∷ producers) consumers h =
    rw
      (
        LinkedTo-consumer_lines proxies links producer consumers h.0,
        AllLinked-producer_lines proxies links producers consumers h.1,
      )
      refl

-- All is wired: each name has its node, and all producers are linked to all consumers.
abbrev pub IsWired : List WpProxy → List Link → Type 0
IsWired proxies links =
    All (Named (filter is_producer proxies)) pmx_osc_producer_node_names
    × All (Named (filter is_consumer proxies)) pmx_osc_consumer_node_names
    × AllLinked proxies links (filter is_producer proxies) (filter is_consumer proxies)

-- The check of the connections prints nothing exactly when there is a node for every producer's and
-- every consumer's name, and from every such producer's first OSC port to every such consumer's first
-- OSC port there is a link. A node with a producer's name is no consumer.
pub check_osc_connections-IsWired :
    (proxies : List WpProxy) (links : List Link)
    → (check_osc_connections proxies links ≡ returns []) ↔ IsWired proxies links
unfolding check_osc_connections
check_osc_connections-IsWired proxies links = rw (osc_nodes-filter proxies) (silent, λ h. spoken h)
  where
    producers : List WpProxy
    producers = filter is_producer proxies

    consumers : List WpProxy
    consumers = filter is_consumer proxies

    report : Run (List Text)
    report = do
      lines ← producer_lines proxies links producers consumers
      returns (
          missing_lines (codes "producer ") pmx_osc_producer_node_names producers
          ++ (missing_lines (codes "consumer ") pmx_osc_consumer_node_names consumers ++ lines))

    spoken : IsWired proxies links → report ≡ returns []
    spoken h =
        rw
          (
            AllLinked-producer_lines proxies links producers consumers h.2,
            Named-missing_lines (codes "producer ") pmx_osc_producer_node_names producers h.0,
            Named-missing_lines (codes "consumer ") pmx_osc_consumer_node_names consumers h.1,
          )
          refl

    silent : report ≡ returns [] → IsWired proxies links
    silent h = elim (Run-cases (producer_lines proxies links producers consumers)) [
      | inr (e, thrown) ↦ absurd (ground (arith, h, thrown))
      | inl (lines, all) ↦
          let one = missing_lines (codes "producer ") pmx_osc_producer_node_names producers in
          let two = missing_lines (codes "consumer ") pmx_osc_consumer_node_names consumers in
          let whole : one ++ (two ++ lines) ≡ [] = ground (arith, h, all) in
          let back = append-nil_right one (two ++ lines) whole in
          (
            missing_lines-Named (codes "producer ") pmx_osc_producer_node_names producers
                (append-nil_left one (two ++ lines) whole),
            missing_lines-Named (codes "consumer ") pmx_osc_consumer_node_names consumers
                (append-nil_left two lines back),
            producer_lines-AllLinked proxies links producers consumers
                (all ∙ ap returns (append-nil_right two lines back)),
          )
    ]
