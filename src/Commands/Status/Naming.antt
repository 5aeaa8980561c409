-- ===== src/Commands/Status/Naming.antt =====
-- src/commands/status.cpp: which names of nodes are reported as missing.
use pmx.Base.{
  All, ℕ, zero, suc, sym, get_elem?, text_eq, text_eq_sound, text_eq_refl, ap, ◌∙◌, ◌≡◌, refl,
  arith, true, inl, inr, List, [], ◌∷◌, some, Text, Bool-cases,
}
use pmx.Collections.{WpProxy}
use pmx.Commands.Status.{is_named, missing_lines}

-- A node with a name is among the nodes.
pub record Named (nodes : List WpProxy) (name : Text) : Type 0 where
  pub place : ℕ
  pub node : WpProxy
  pub there : get_elem? nodes place ≡ some node
  pub called : node.name ≡ name

is_named-Named :
    (nodes : List WpProxy) (name : Text) → is_named name nodes ≡ true → Named nodes name
is_named-Named [] name h = cc
is_named-Named (p ∷ nodes) name h = elim (Bool-cases (text_eq p.name name)) [
  | inl same ↦ record { place = 0; node = p; there = refl; called = text_eq_sound p.name name same }
  | inr other ↦
      let rest = is_named-Named nodes name (ground (arith, other)) in
      record { place = suc rest.place; node = rest.node; there = rest.there; called = rest.called }
]

is_named_at :
    (nodes : List WpProxy) (place : ℕ) (p : WpProxy)
    → get_elem? nodes place ≡ some p
    → is_named p.name nodes ≡ true
is_named_at [] place p h = cc
is_named_at (q ∷ nodes) zero p h =
    let same : q ≡ p = ground (arith, h) in rw same (rw (text_eq_refl p.name) refl)
is_named_at (q ∷ nodes) (suc place) p h = ground (arith, is_named_at nodes place p h)

Named-is_named :
    (nodes : List WpProxy) (name : Text) → Named nodes name → is_named name nodes ≡ true
Named-is_named nodes name n =
    ap (λ t. is_named t nodes) (sym n.called) ∙ is_named_at nodes n.place n.node n.there

pub missing_lines-Named :
    (kind : Text) (names : List Text) (nodes : List WpProxy)
    → missing_lines kind names nodes ≡ []
    → All (Named nodes) names
unfolding missing_lines
missing_lines-Named kind [] nodes h = tt
missing_lines-Named kind (name ∷ names) nodes h = elim (Bool-cases (is_named name nodes)) [
  | inl there ↦ (
    is_named-Named nodes name there,
    missing_lines-Named kind names nodes (ground (arith, there)),
  )
  | inr gone ↦ absurd (ground (arith, gone))
]

pub Named-missing_lines :
    (kind : Text) (names : List Text) (nodes : List WpProxy)
    → All (Named nodes) names
    → missing_lines kind names nodes ≡ []
unfolding missing_lines
Named-missing_lines kind [] nodes h = refl
Named-missing_lines kind (name ∷ names) nodes h =
    rw (Named-is_named nodes name h.0, Named-missing_lines kind names nodes h.1) refl
