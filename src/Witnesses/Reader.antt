-- ===== src/Witnesses/Reader.antt =====
-- A reader of OSC arguments that meets `ArgReader`, for the runs in the modules beside this one.
use pmx.Base.{◌≡◌, refl, List, [], ◌∷◌, Text, ℤ, Run, returns, faults, Fault, runtime_error}
use pmx.Pod.{Argument, ArgReader, int_argument, float_argument, string_argument}

module _ {R : Type 0} where
  abbrev read_int : List (Argument R) → Run (ℤ × List (Argument R))
  read_int (int_argument n ∷ rest) = returns (n, rest)
  read_int _ = faults runtime_error

  abbrev read_string : List (Argument R) → Run (Text × List (Argument R))
  read_string (string_argument s ∷ rest) = returns (s, rest)
  read_string _ = faults runtime_error

  abbrev read_float : List (Argument R) → Run (R × List (Argument R))
  read_float (float_argument x ∷ rest) = returns (x, rest)
  read_float _ = faults runtime_error

  pub read_int_only :
      (arguments : List (Argument R)) (n : ℤ) (rest : List (Argument R))
      → read_int arguments ≡ returns (n, rest)
      → arguments ≡ int_argument n ∷ rest
  read_int_only [] n rest h = cc
  read_int_only (int_argument m ∷ arguments) n rest h = cc
  read_int_only (float_argument x ∷ arguments) n rest h = cc
  read_int_only (string_argument s ∷ arguments) n rest h = cc

  pub read_int_fault :
      (arguments : List (Argument R)) (e : Fault)
      → read_int arguments ≡ faults e
      → e ≡ runtime_error
  read_int_fault [] e h = cc
  read_int_fault (int_argument m ∷ arguments) e h = cc
  read_int_fault (float_argument x ∷ arguments) e h = cc
  read_int_fault (string_argument s ∷ arguments) e h = cc

  pub read_string_fault :
      (arguments : List (Argument R)) (e : Fault)
      → read_string arguments ≡ faults e
      → e ≡ runtime_error
  read_string_fault [] e h = cc
  read_string_fault (int_argument m ∷ arguments) e h = cc
  read_string_fault (float_argument x ∷ arguments) e h = cc
  read_string_fault (string_argument s ∷ arguments) e h = cc

  pub read_float_fault :
      (arguments : List (Argument R)) (e : Fault)
      → read_float arguments ≡ faults e
      → e ≡ runtime_error
  read_float_fault [] e h = cc
  read_float_fault (int_argument m ∷ arguments) e h = cc
  read_float_fault (float_argument x ∷ arguments) e h = cc
  read_float_fault (string_argument s ∷ arguments) e h = cc

abbrev pub typed_reader : (R : Type 0) → ArgReader R
typed_reader R = record {
  int32 = read_int;
  string = read_string;
  float32 = read_float;
  int32_at = λ n rest. refl;
  string_at = λ s rest. refl;
  float32_at = λ x rest. refl;
  int32_only = read_int_only;
  int32_fault = read_int_fault;
  string_fault = read_string_fault;
  float32_fault = read_float_fault;
}
