-- ===== src/Commands/Status/Wiring.antt =====
-- src/commands/status.cpp: which nodes are to be linked, by which ports, and when they are.
use pmx.Base.{
  ℕ, zero, suc, ◌≡◌, refl, sym, ap, ◌∙◌, arith, Bool, true, false, not, ◌&&◌, ◌||◌, inl, inr, List,
  [], ◌∷◌, ◌++◌, none, some, Text, codes, text_eq, filter, ℤ, pos, negsuc, eq_ℤ, All, Bool-cases,
  Option-cases, get_elem?, if◌then◌else◌, returns,
}
use pmx.Constants.{pmx_osc_producer_node_names, pmx_osc_consumer_node_names}
use pmx.Collections.{Link, WpProxy, ProxyType, port_proxy, node_proxy, unknown_proxy}
use pmx.Commands.Status.{osc_nodes, has_name, is_node, is_port, find_osc_port, is_linked, joins}

abbrev pub node_type : ProxyType → Bool
node_type node_proxy = true
node_type port_proxy = false
node_type unknown_proxy = false

abbrev pub port_type : ProxyType → Bool
port_type port_proxy = true
port_type node_proxy = false
port_type unknown_proxy = false

abbrev pub named_in : List Text → Text → Bool
named_in [] name = false
named_in (n ∷ names) name = text_eq n name || named_in names name

-- The nodes that send OSC, and those that receive it and do not send it.
abbrev pub is_producer : WpProxy → Bool
is_producer p = node_type p.type && named_in pmx_osc_producer_node_names p.name

abbrev pub is_consumer : WpProxy → Bool
is_consumer p =
    node_type p.type
    && (named_in pmx_osc_consumer_node_names p.name
        && not (named_in pmx_osc_producer_node_names p.name))

is_node-node_type : (type : ProxyType) → is_node type ≡ node_type type
is_node-node_type node_proxy = refl
is_node-node_type port_proxy = refl
is_node-node_type unknown_proxy = refl

has_name-named_in : (names : List Text) (name : Text) → has_name names name ≡ named_in names name
has_name-named_in [] name = refl
has_name-named_in (n ∷ names) name = ground (arith, has_name-named_in names name)

-- The two tests of the loop, one after the other, and the two that are each for itself.
sorted_in :
    (a a2 b b2 t t2 : Bool) (p : WpProxy) (xs ys : List WpProxy)
    → a ≡ a2
    → b ≡ b2
    → t ≡ t2
    → ◌≡◌ {A = List WpProxy × List WpProxy}
        (if a && t then (p ∷ xs, ys) else if b && t then (xs, p ∷ ys) else (xs, ys))
        (if t2 && a2 then p ∷ xs else xs, if t2 && (b2 && not a2) then p ∷ ys else ys)
sorted_in a a2 b b2 t t2 p xs ys e f g = ground (arith, e, f, g)

pub osc_nodes-filter :
    (proxies : List WpProxy)
    → osc_nodes proxies ≡ (filter is_producer proxies, filter is_consumer proxies)
unfolding osc_nodes
osc_nodes-filter [] = refl
osc_nodes-filter (p ∷ proxies) = rw (osc_nodes-filter proxies) (
    sorted_in (has_name pmx_osc_producer_node_names p.name)
      (named_in pmx_osc_producer_node_names p.name) (has_name pmx_osc_consumer_node_names p.name)
      (named_in pmx_osc_consumer_node_names p.name) (is_node p.type) (node_type p.type) p
      (filter is_producer proxies) (filter is_consumer proxies)
      (has_name-named_in pmx_osc_producer_node_names p.name)
      (has_name-named_in pmx_osc_consumer_node_names p.name) (is_node-node_type p.type))

is_port-port_type : (type : ProxyType) → is_port type ≡ port_type type
is_port-port_type port_proxy = refl
is_port-port_type node_proxy = refl
is_port-port_type unknown_proxy = refl

-- A port of a node for OSC; another proxy is no port, has another name, or belongs to another node.
abbrev pub is_osc_port_of : ℤ → WpProxy → Bool
is_osc_port_of node_id p =
    port_type p.type
    && (text_eq p.name (codes "pmx-osc")
        && elim p.node_id [ none ↦ false | some n ↦ eq_ℤ n node_id ])

abbrev pub is_other : ℤ → WpProxy → Bool
is_other node_id p =
    not (port_type p.type && text_eq p.name (codes "pmx-osc"))
    || elim p.node_id [ none ↦ false | some n ↦ not (eq_ℤ n node_id) ]

-- The first OSC port of a node.
pub record FirstPort (proxies : List WpProxy) (node_id : ℤ) (port : WpProxy) : Type 0 where
  pub front : List WpProxy
  pub back : List WpProxy
  pub split : proxies ≡ front ++ port ∷ back
  pub others : All (λ p. is_other node_id p ≡ true) front
  pub fits : is_osc_port_of node_id port ≡ true

FirstPort-behind :
    (p : WpProxy) (proxies : List WpProxy) (node_id : ℤ) (port : WpProxy)
    → is_other node_id p ≡ true
    → FirstPort proxies node_id port
    → FirstPort (p ∷ proxies) node_id port
FirstPort-behind p proxies node_id port other first = record {
  front = p ∷ first.front;
  back = first.back;
  split = ap (◌∷◌ p) first.split;
  others = (other, first.others);
  fits = first.fits;
}

pub find_osc_port-FirstPort :
    (proxies : List WpProxy) (node_id : ℤ) (port : WpProxy)
    → find_osc_port node_id proxies ≡ returns (some port)
    → FirstPort proxies node_id port
unfolding find_osc_port
find_osc_port-FirstPort [] node_id port h = cc
find_osc_port-FirstPort (p ∷ proxies) node_id port h =
    let kind = is_port-port_type p.type in
    let behind : is_other node_id p ≡ true
        → find_osc_port node_id proxies ≡ returns (some port)
        → FirstPort (p ∷ proxies) node_id port =
      λ other rest.
        FirstPort-behind p proxies node_id port other
          (find_osc_port-FirstPort proxies node_id port rest) in
    elim (Bool-cases (is_port p.type && text_eq p.name (codes "pmx-osc"))) [
      | inr unnamed ↦ behind (ground (arith, kind, unnamed)) (ground (arith, unnamed, h))
      | inl named ↦ elim (Option-cases p.node_id) [
        | inl free ↦ absurd (ground (arith, named, free, h))
        | inr (n, owned) ↦ elim (Bool-cases (eq_ℤ n node_id)) [
          | inr foreign ↦
              behind (ground (arith, kind, named, owned, foreign))
                (ground (arith, named, owned, foreign, h))
          | inl mine ↦
              let same : p ≡ port = ground (arith, named, owned, mine, h) in
              record {
                front = [];
                back = proxies;
                split = ap (λ q. q ∷ proxies) same;
                others = tt;
                fits = rw (← same) (ground (arith, kind, named, owned, mine));
              }
        ]
      ]
    ]

found_behind :
    (front back : List WpProxy) (node_id : ℤ) (port : WpProxy)
    → All (λ p. is_other node_id p ≡ true) front
    → is_osc_port_of node_id port ≡ true
    → find_osc_port node_id (front ++ port ∷ back) ≡ returns (some port)
unfolding find_osc_port
found_behind [] back node_id port others fits = elim (Option-cases port.node_id) [
  | inl free ↦ absurd (ground (arith, fits, free))
  | inr (n, owned) ↦ ground (arith, is_port-port_type port.type, fits, owned)
]
found_behind (p ∷ front) back node_id port others fits =
    let rest = found_behind front back node_id port others.1 fits in
    let other : is_other node_id p ≡ true = others.0 in
    elim (Option-cases p.node_id) [
      | inl free ↦ ground (arith, is_port-port_type p.type, other, free, rest)
      | inr (n, owned) ↦ ground (arith, is_port-port_type p.type, other, owned, rest)
    ]

pub FirstPort-find_osc_port :
    (proxies : List WpProxy) (node_id : ℤ) (port : WpProxy)
    → FirstPort proxies node_id port
    → find_osc_port node_id proxies ≡ returns (some port)
FirstPort-find_osc_port proxies node_id port first =
    ap (find_osc_port node_id) first.split
    ∙ found_behind first.front first.back node_id port first.others first.fits

eq_ℤ-sound : (a b : ℤ) → eq_ℤ a b ≡ true → a ≡ b
eq_ℤ-sound (pos m) (pos n) h = ap pos (ground arith)
eq_ℤ-sound (pos m) (negsuc n) h = absurd (ground arith)
eq_ℤ-sound (negsuc m) (pos n) h = absurd (ground arith)
eq_ℤ-sound (negsuc m) (negsuc n) h = ap negsuc (ground arith)

eq_ℤ_refl : (a : ℤ) → eq_ℤ a a ≡ true
eq_ℤ_refl (pos m) = ground arith
eq_ℤ_refl (negsuc m) = ground arith

-- A link from one port to another is among the links.
pub record Joined (links : List Link) (output input : ℤ) : Type 0 where
  pub place : ℕ
  pub link : Link
  pub there : get_elem? links place ≡ some link
  pub starts : link.output_port_id ≡ output
  pub ends : link.input_port_id ≡ input

pub is_linked-Joined :
    (links : List Link) (output input : ℤ)
    → is_linked output input links ≡ true
    → Joined links output input
is_linked-Joined [] output input h = cc
is_linked-Joined (l ∷ links) output input h = elim (Bool-cases (joins output input l)) [
  | inl here ↦ record {
    place = 0;
    link = l;
    there = refl;
    starts = eq_ℤ-sound l.output_port_id output (ground (arith, here));
    ends = eq_ℤ-sound l.input_port_id input (ground (arith, here));
  }
  | inr other ↦
      let rest = is_linked-Joined links output input (ground (arith, other)) in
      record {
        place = suc rest.place;
        link = rest.link;
        there = rest.there;
        starts = rest.starts;
        ends = rest.ends;
      }
]

linked_at :
    (links : List Link) (place : ℕ) (l : Link)
    → get_elem? links place ≡ some l
    → is_linked l.output_port_id l.input_port_id links ≡ true
linked_at [] place l h = cc
linked_at (k ∷ links) zero l h =
    let same : k ≡ l = ground (arith, h) in
    let joined : joins l.output_port_id l.input_port_id l ≡ true =
      rw (eq_ℤ_refl l.output_port_id, eq_ℤ_refl l.input_port_id) refl in
    rw same (rw joined refl)
linked_at (k ∷ links) (suc place) l h = ground (arith, linked_at links place l h)

pub Joined-is_linked :
    (links : List Link) (output input : ℤ)
    → Joined links output input
    → is_linked output input links ≡ true
Joined-is_linked links output input j =
    ap (λ o. is_linked o input links) (sym j.starts)
    ∙ ap (λ i. is_linked j.link.output_port_id i links) (sym j.ends)
    ∙ linked_at links j.place j.link j.there
