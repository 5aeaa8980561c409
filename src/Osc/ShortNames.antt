-- ===== src/Osc/ShortNames.antt =====
-- src/parameters.cpp: the length of the short names, on which the parser depends.
use pmx.Base.{
  ℕ, ◌<◌, ◌≡◌, refl, arith, Bool, true, false, ◌||◌, ◌&&◌, List, [], ◌∷◌, Text, leb, All,
  All-get_elem?,
}
use pmx.Parameters.{Parameter, all_parameters}
use pmx.Parameters.Laws.{IsKnown}

abbrev pub IsShort : Text → Type 0
IsShort s = (a : ℕ) × (b : ℕ) × (c : ℕ) × (s ≡ a ∷ b ∷ c ∷ [])

abbrev is_short : Text → Bool
is_short (a ∷ b ∷ c ∷ []) = true
is_short _ = false

is_short-IsShort : (s : Text) → is_short s ≡ true → IsShort s
is_short-IsShort [] h = cc
is_short-IsShort (a ∷ []) h = cc
is_short-IsShort (a ∷ b ∷ []) h = cc
is_short-IsShort (a ∷ b ∷ c ∷ []) h = (a, b, c, refl)
is_short-IsShort (a ∷ b ∷ c ∷ d ∷ s) h = cc

abbrev all_short : List Parameter → Bool
all_short [] = true
all_short (p ∷ ps) = (leb p.id 0 || is_short p.device_short_name) && all_short ps

all_short-IsShort :
    (ps : List Parameter)
    → all_short ps ≡ true
    → All (λ q. 0 < q.id → IsShort q.device_short_name) ps
all_short-IsShort [] h = tt
all_short-IsShort (p ∷ ps) h = (
  λ mapped. is_short-IsShort p.device_short_name (ground arith),
  all_short-IsShort ps (ground arith),
)

-- The short name of every parameter but `none` has three bytes.
pub IsKnown-IsShort : (p : Parameter) → IsKnown p → 0 < p.id → IsShort p.device_short_name
IsKnown-IsShort p h =
    All-get_elem? (λ q. 0 < q.id → IsShort q.device_short_name) all_parameters p.id
      (all_short-IsShort all_parameters refl) h
