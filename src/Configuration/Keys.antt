-- ===== src/Configuration/Keys.antt =====
-- The keys of the channels in the configuration file and in the metadata are told apart.
use pmx.Base.{
  ℕ, ◌==◌, ==_iff, ◌<◌, ◌^◌, ◌≡◌, refl, ap, sym, ◌∙◌, arith, false, inl, inr, [], ◌∷◌, ◌++◌, Text,
  text_eq, text_eq_iff, Bool-cases, to_string, stoi, stoi-to_string,
}

text_eq-append : (p s t : Text) → text_eq (p ++ s) (p ++ t) ≡ text_eq s t
text_eq-append [] s t = refl
text_eq-append (c ∷ p) s t = ground (arith, text_eq-append p s t)

to_string_inj : (i j : ℕ) → i < 2 ^ 31 → j < 2 ^ 31 → to_string i ≡ to_string j → i ≡ j
to_string_inj i j small_i small_j e =
    ground (arith, sym (stoi-to_string i small_i) ∙ ap stoi e ∙ stoi-to_string j small_j)

-- The keys of two channels are the same text only for the same channel.
pub text_eq-to_string :
    (p : Text) (i j : ℕ)
    → i < 2 ^ 31
    → j < 2 ^ 31
    → text_eq (p ++ to_string i) (p ++ to_string j) ≡ (i == j)
text_eq-to_string p i j small_i small_j = elim (Bool-cases (text_eq (to_string i) (to_string j))) [
  | inl same ↦
      text_eq-append p (to_string i) (to_string j)
      ∙ same
      ∙ sym (
          (==_iff i j).1
            (to_string_inj i j small_i small_j ((text_eq_iff (to_string i) (to_string j)).0 same)))
  | inr other ↦ text_eq-append p (to_string i) (to_string j) ∙ other ∙ differ other
]
  where
    differ : text_eq (to_string i) (to_string j) ≡ false → false ≡ (i == j)
    differ other = elim (Bool-cases (i == j)) [
      | inl e ↦ absurd (
          ground (
            arith,
            other,
            (text_eq_iff (to_string i) (to_string j)).1 (ap to_string ((==_iff i j).0 e)),
          ))
      | inr e ↦ sym e
    ]
