-- ===== src/Commands/Status/Safety.antt =====
-- src/commands/status.cpp: the check of the OSC connections does not throw.
use pmx.Base.{
  Fault, ◌≡◌, refl, arith, List, [], ◌∷◌, ◌++◌, Text, codes, ℤ, All, Run, returns, faults,
}
use pmx.Constants.{pmx_osc_producer_node_names, pmx_osc_consumer_node_names}
use pmx.Collections.{WpObject, Link, WpProxy}
use pmx.Collections.Results.{NodeFits, proxies_of, proxies_of-NodeFits}
use pmx.Commands.Status.{
  osc_nodes, missing_lines, find_osc_port, link_lines_of, consumer_lines, producer_lines,
  check_osc_connections,
}

abbrev Returns : {A : Type 0} → Run A → Type 0
Returns {A} m = (a : A) × (m ≡ returns a)

Run-Returns : {A : Type 0} (m : Run A) → ((e : Fault) → m ≡ faults e → ⊥) → Returns m
Run-Returns (returns a) h = (a, refl)
Run-Returns (faults e) h = absurd (h e refl)

find_osc_port-ne-faults :
    (node_id : ℤ) (proxies : List WpProxy) (e : Fault)
    → All NodeFits proxies
    → find_osc_port node_id proxies ≡ faults e
    → ⊥
unfolding find_osc_port
find_osc_port-ne-faults node_id [] e h k = cc
find_osc_port-ne-faults node_id (p ∷ proxies) e h k =
    ground (arith, h.0, find_osc_port-ne-faults node_id proxies e h.1)

link_lines_of-ne-faults :
    (proxies : List WpProxy) (links : List Link) (producer consumer : WpProxy) (e : Fault)
    → All NodeFits proxies
    → link_lines_of proxies links producer consumer ≡ faults e
    → ⊥
unfolding link_lines_of
link_lines_of-ne-faults proxies links producer consumer e h k =
    let (o, out) =
      Run-Returns (find_osc_port producer.object_id proxies)
        (λ fault. λ thrown. find_osc_port-ne-faults producer.object_id proxies fault h thrown) in
    let (i, into) =
      Run-Returns (find_osc_port consumer.object_id proxies)
        (λ fault. λ thrown. find_osc_port-ne-faults consumer.object_id proxies fault h thrown) in
    ground (arith, out, into)

link_lines_of-Returns :
    (proxies : List WpProxy) (links : List Link) (producer consumer : WpProxy)
    → All NodeFits proxies
    → Returns (link_lines_of proxies links producer consumer)
link_lines_of-Returns proxies links producer consumer h =
    Run-Returns (link_lines_of proxies links producer consumer)
      (λ fault. λ thrown. link_lines_of-ne-faults proxies links producer consumer fault h thrown)

consumer_lines-Returns :
    (proxies : List WpProxy) (links : List Link) (producer : WpProxy) (consumers : List WpProxy)
    → All NodeFits proxies
    → Returns (consumer_lines proxies links producer consumers)
unfolding consumer_lines
consumer_lines-Returns proxies links producer [] h = ([], refl)
consumer_lines-Returns proxies links producer (consumer ∷ consumers) h =
    let (lines, first) = link_lines_of-Returns proxies links producer consumer h in
    let (more, rest) = consumer_lines-Returns proxies links producer consumers h in
    (lines ++ more, rw (first, rest) refl)

producer_lines-Returns :
    (proxies : List WpProxy) (links : List Link) (producers consumers : List WpProxy)
    → All NodeFits proxies
    → Returns (producer_lines proxies links producers consumers)
unfolding producer_lines
producer_lines-Returns proxies links [] consumers h = ([], refl)
producer_lines-Returns proxies links (producer ∷ producers) consumers h =
    let (lines, first) = consumer_lines-Returns proxies links producer consumers h in
    let (more, rest) = producer_lines-Returns proxies links producers consumers h in
    (lines ++ more, rw (first, rest) refl)

-- Over the proxies that WirePlumber has announced, in any order and of any kind, the check of the
-- connections returns its report: it never asks a port without a node for its node.
pub check_osc_connections-proxies_of :
    (objects : List WpObject) (proxies : List WpProxy) (links : List Link)
    → proxies_of objects [] ≡ returns proxies
    → (lines : List Text) × (check_osc_connections proxies links ≡ returns lines)
unfolding check_osc_connections
check_osc_connections-proxies_of objects proxies links h =
    let fits = proxies_of-NodeFits objects [] proxies tt h in
    let (lines, printed) =
      producer_lines-Returns proxies links (osc_nodes proxies).0 (osc_nodes proxies).1 fits in
    (
      missing_lines (codes "producer ") pmx_osc_producer_node_names (osc_nodes proxies).0
          ++ (missing_lines (codes "consumer ") pmx_osc_consumer_node_names (osc_nodes proxies).1
              ++ lines),
      rw printed refl,
    )
