-- ===== src/Pod.antt =====
-- What the filters read from and write into a PipeWire sequence, and the OSC packets in it.
-- `spa_pod_builder_control` and `spa_pod_builder_bytes` are calls of libspa: a builder is the list of
-- the calls made on it. An OSC packet is what OSCPP is told to write, or finds: the address and the
-- arguments. `R` is the type of the floating point numbers.
use pmx.Base.{
  ℕ, ◌≡◌, Bool, true, false, List, [], ◌∷◌, ◌++◌, Text, ℤ, Run, returns, faults, Fault,
  runtime_error, bad_optional_access, undefined,
}

-- `SPA_CONTROL_OSC`, `SPA_CONTROL_UMP`, and the other types.
pub data ControlType : Type 0 where
  osc_control ump_control other_control : ControlType

pub data Argument (R : Type 0) : Type 0 where
  float_argument : R → Argument R
  int_argument : ℤ → Argument R
  string_argument : Text → Argument R

pub record Packet (R : Type 0) : Type 0 where
  pub address : Text
  pub arguments : List (Argument R)

-- How the OSC library reads the next argument, an argument of the model. Its `ParseError`, a
-- `std::runtime_error`, is thrown if there is none or if it has another type.
pub record ArgReader (R : Type 0) : Type 0 where
  pub int32 : List (Argument R) → Run (ℤ × List (Argument R))
  pub string : List (Argument R) → Run (Text × List (Argument R))
  pub float32 : List (Argument R) → Run (R × List (Argument R))
  pub int32_at :
      (n : ℤ) (rest : List (Argument R)) → int32 (int_argument n ∷ rest) ≡ returns (n, rest)
  pub string_at :
      (s : Text) (rest : List (Argument R)) → string (string_argument s ∷ rest) ≡ returns (s, rest)
  pub float32_at :
      (x : R) (rest : List (Argument R)) → float32 (float_argument x ∷ rest) ≡ returns (x, rest)
  pub int32_only :
      (arguments : List (Argument R)) (n : ℤ) (rest : List (Argument R))
      → int32 arguments ≡ returns (n, rest)
      → arguments ≡ int_argument n ∷ rest
  pub int32_fault :
      (arguments : List (Argument R)) (e : Fault) → int32 arguments ≡ faults e → e ≡ runtime_error
  pub string_fault :
      (arguments : List (Argument R)) (e : Fault) → string arguments ≡ faults e → e ≡ runtime_error
  pub float32_fault :
      (arguments : List (Argument R)) (e : Fault) → float32 arguments ≡ faults e → e ≡ runtime_error

-- A body is an OSC packet, or a list of 32-bit words.
pub data Body (R : Type 0) : Type 0 where
  packet : Packet R → Body R
  words : List ℕ → Body R

pub data BuilderCall (R : Type 0) : Type 0 where
  control : ControlType → BuilderCall R
  bytes : Body R → BuilderCall R

-- One control and its body.
abbrev pub entry : {R : Type 0} → ControlType → Body R → List (BuilderCall R)
entry t b = control t ∷ bytes b ∷ []

-- Each control is followed by its one body, as the layout of a sequence demands.
abbrev pub is_sequence : {R : Type 0} → List (BuilderCall R) → Bool
is_sequence [] = true
is_sequence (bytes b ∷ rest) = false
is_sequence (control t ∷ []) = false
is_sequence (control t ∷ control u ∷ rest) = false
is_sequence (control t ∷ bytes b ∷ rest) = is_sequence rest

pub is_sequence-append :
    {R : Type 0} (xs ys : List (BuilderCall R))
    → is_sequence xs ≡ true
    → is_sequence ys ≡ true
    → is_sequence (xs ++ ys) ≡ true
is_sequence-append [] ys h k = k
is_sequence-append (bytes b ∷ rest) ys h k = cc
is_sequence-append (control t ∷ []) ys h k = cc
is_sequence-append (control t ∷ control u ∷ rest) ys h k = cc
is_sequence-append (control t ∷ bytes b ∷ rest) ys h k = is_sequence-append rest ys h k

-- What holds of the address of every packet that is written.
abbrev pub AllAddresses : {R : Type 0} → (Text → Type 0) → List (BuilderCall R) → Type 0
AllAddresses P [] = Unit
AllAddresses P (control t ∷ rest) = AllAddresses P rest
AllAddresses P (bytes (packet p) ∷ rest) = P p.address × AllAddresses P rest
AllAddresses P (bytes (words w) ∷ rest) = AllAddresses P rest

pub AllAddresses-append :
    {R : Type 0} (P : Text → Type 0) (xs ys : List (BuilderCall R))
    → AllAddresses P xs
    → AllAddresses P ys
    → AllAddresses P (xs ++ ys)
AllAddresses-append P [] ys h k = k
AllAddresses-append P (control t ∷ rest) ys h k = AllAddresses-append P rest ys h k
AllAddresses-append P (bytes (packet p) ∷ rest) ys h k = (h.0, AllAddresses-append P rest ys h.1 k)
AllAddresses-append P (bytes (words w) ∷ rest) ys h k = AllAddresses-append P rest ys h k

pub AllAddresses-mono :
    {R : Type 0} (P Q : Text → Type 0) (xs : List (BuilderCall R))
    → ((a : Text) → P a → Q a)
    → AllAddresses P xs
    → AllAddresses Q xs
AllAddresses-mono P Q [] f h = tt
AllAddresses-mono P Q (control t ∷ rest) f h = AllAddresses-mono P Q rest f h
AllAddresses-mono P Q (bytes (packet p) ∷ rest) f h =
    (f p.address h.0, AllAddresses-mono P Q rest f h.1)
AllAddresses-mono P Q (bytes (words w) ∷ rest) f h = AllAddresses-mono P Q rest f h

-- What an input port holds in a cycle: no buffer, a buffer without a pod, a pod that is no sequence,
-- or a sequence of controls.
pub data InputPod {ℓ} (C : Type ℓ) : Type ℓ where
  no_buffer no_pod other_pod : InputPod C
  sequence : List C → InputPod C

-- The controls that are read where `pod.value()` is neither tested nor asked whether it is a
-- sequence: an empty value throws, and another pod is read as what it is not.
abbrev pub untested_controls {ℓ} : {C : Type ℓ} → InputPod C → Run (List C)
untested_controls no_buffer = returns []
untested_controls no_pod = faults bad_optional_access
untested_controls other_pod = faults undefined
untested_controls (sequence controls) = returns controls
