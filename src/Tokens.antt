-- ===== src/Tokens.antt =====
-- `stream >> token` of a `std::istringstream` and a `std::string`: the next word of a text.
use pmx.Base.{
  ℕ, ◌==◌, Bool, true, false, ◌&&◌, ◌||◌, leb, [], ◌∷◌, ◌++◌, Option, none, some, Text, codes,
  is_digit, if◌then◌else◌, ◌≡◌, refl, arith,
}

abbrev pub is_space : ℕ → Bool
is_space c = c == 32 || leb 9 c && leb c 13

-- A word that has begun, and what follows it.
word : Text → Text × Text
word [] = ([], [])
word (c ∷ s) = let rest = word s in if is_space c then ([], c ∷ s) else (c ∷ rest.0, rest.1)

-- `none` if there is nothing but white space.
unfoldable pub next_token : Text → Option (Text × Text)
unfolding word
next_token [] = none
next_token (c ∷ s) =
    let rest = next_token s in if is_space c then rest else some (c ∷ (word s).0, (word s).1)

-- `std::all_of` with `isdigit`.
abbrev pub all_digits : Text → Bool
all_digits [] = true
all_digits (c ∷ s) = is_digit c && all_digits s

next_token_test : next_token (codes "  osc /path f") ≡ some (codes "osc", codes " /path f")
unfolding next_token
next_token_test = refl

-- A word without white space that stands before white space is what is read, after any space.
pub AllWord : Text → Type 0
AllWord [] = Unit
AllWord (c ∷ s) = (is_space c ≡ false) × AllWord s

word-AllWord : (s rest : Text) → AllWord s → word (s ++ b' ' ∷ rest) ≡ (s, b' ' ∷ rest)
unfolding word AllWord
word-AllWord [] rest h = refl
word-AllWord (c ∷ s) rest h = ground (arith, word-AllWord s rest h.1)

pub next_token-AllWord :
    (c : ℕ) (s rest : Text)
    → AllWord (c ∷ s)
    → next_token (b' ' ∷ c ∷ s ++ b' ' ∷ rest) ≡ some (c ∷ s, b' ' ∷ rest)
unfolding next_token AllWord
next_token-AllWord c s rest h = ground (arith, word-AllWord s rest h.1)
