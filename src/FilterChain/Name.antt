-- ===== src/FilterChain/Name.antt =====
-- The names under which src/applications/filter_chain_ctrl.cpp sets a filter chain's parameters.
use pmx.Base.{
  ℕ, ◌+◌, ◌≤◌, ◌<◌, ◌≡◌, refl, sym, ap, ◌∙◌, arith, [], ◌∷◌, ◌++◌, Text, codes, to_string, stoi,
  stoi-to_string, pos, Run, returns, length, drop, drop-length_append, length-append,
}
use pmx.Parameters.{Parameter}
use pmx.Osc.{OscPath, Layer, input, a_layer, b_layer}
use pmx.FilterChain.{parameter_name, device_number}

abbrev pub input_path : Layer → ℕ → Parameter → OscPath
input_path l n p = record { channel_id = n; channel_type = input; layer = l; parameter = p }

append-injective_left : (s t u : Text) → s ++ t ≡ s ++ u → t ≡ u
append-injective_left s t u h =
    sym (drop-length_append s t) ∙ (ap (drop (length s)) h ∙ drop-length_append s u)

append-injective_right : (s t u : Text) → s ++ u ≡ t ++ u → s ≡ t
append-injective_right [] [] u h = refl
append-injective_right [] (b ∷ t) u h = absurd (omega (arith, ap length h, length-append (b ∷ t) u))
append-injective_right (a ∷ s) [] u h = absurd (omega (arith, ap length h, length-append (a ∷ s) u))
append-injective_right (a ∷ s) (b ∷ t) u h =
    let heads : a ≡ b = cc in
    let tails : s ++ u ≡ t ++ u = cc in rw (heads, append-injective_right s t u tails) refl

to_string-injective : (m n : ℕ) → m < 256 → n < 256 → to_string m ≡ to_string n → m ≡ n
to_string-injective m n h k e =
    let same : Run.returns (pos m) ≡ returns (pos n) =
      sym (stoi-to_string m (omega arith)) ∙ (ap stoi e ∙ stoi-to_string n (omega arith)) in
    cc

device_number-injective :
    (l k : Layer) (m n : ℕ)
    → 1 ≤ m
    → m ≤ 16
    → 1 ≤ n
    → n ≤ 16
    → device_number l m ≡ device_number k n
    → (l ≡ k) × (m ≡ n)
device_number-injective a_layer a_layer m n h1 h2 h3 h4 e = (refl, omega arith)
device_number-injective a_layer b_layer m n h1 h2 h3 h4 e = absurd (omega arith)
device_number-injective b_layer a_layer m n h1 h2 h3 h4 e = absurd (omega arith)
device_number-injective b_layer b_layer m n h1 h2 h3 h4 e = (refl, omega arith)

small : (l : Layer) (n : ℕ) → device_number l n < 256
small a_layer n = omega arith
small b_layer n = omega arith

-- For channels from 1 to 16, the name that is set for a parameter tells the layer and the channel
-- apart.
pub parameter_name-injective :
    (l k : Layer) (m n : ℕ) (p : Parameter)
    → 1 ≤ m
    → m ≤ 16
    → 1 ≤ n
    → n ≤ 16
    → parameter_name (input_path l m p) ≡ parameter_name (input_path k n p)
    → (l ≡ k) × (m ≡ n)
unfolding parameter_name
parameter_name-injective l k m n p h1 h2 h3 h4 e =
    let t : Text = codes ":" ++ p.name in
    let names : p.device_name ++ (codes "-" ++ (to_string (device_number l m) ++ t))
        ≡ p.device_name ++ (codes "-" ++ (to_string (device_number k n) ++ t)) =
      cc in
    let numbers =
      append-injective_right (to_string (device_number l m)) (to_string (device_number k n)) t
        (append-injective_left (codes "-") _ _ (append-injective_left p.device_name _ _ names)) in
    device_number-injective l k m n h1 h2 h3 h4
      (to_string-injective (device_number l m) (device_number k n) (small l m) (small k n) numbers)

-- Channel n of layer B and channel 16 + n of layer A are set under the same name.
pub parameter_name-collision :
    (n : ℕ) (p : Parameter)
    → parameter_name (input_path b_layer n p) ≡ parameter_name (input_path a_layer (16 + n) p)
unfolding parameter_name
parameter_name-collision n p = refl
