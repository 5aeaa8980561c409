-- ===== src/Slp/Safety.antt =====
-- When the class of include/slp_ctrl/GroupChannelSooperLoopers.h stays inside its array.
use pmx.Base.{
  Run-cases, subst, ℕ, ◌≤◌, ◌<◌, ◌≡◌, refl, arith, List, [], ◌∷◌, Text, codes, text_eq, length, ℤ,
  pos, negsuc, Run, returns, faults, undefined, ◌>>=◌, length-set, get_elem?-beyond,
  get_elem?-within, runtime_error, inl, inr, Bool-cases,
}
use pmx.Pod.{
  Packet, ControlType, osc_control, ump_control, other_control, Argument, int_argument,
  string_argument, float_argument,
}
use pmx.Slp.{State, Libraries, SooperLooperState, translate_state}
use pmx.Slp.Loopers.{
  Body, not_bytes, malformed, osc_message, GroupLoopers, set_state_at, update_state, update_states,
}

-- What holds of a result; a fault is one of the reader of the arguments.
abbrev pub Holds : {A : Type 0} → (A → Type 0) → Run A → Type 0
Holds P (returns a) = P a
Holds P (faults e) = e ≡ runtime_error

Holds->>= :
    {A B : Type 0} (P : A → Type 0) (Q : B → Type 0) (m : Run A) (k : A → Run B)
    → Holds P m
    → ((a : A) → P a → Holds Q (k a))
    → Holds Q (m >>= k)
Holds->>= P Q (returns a) k h f = f a h
Holds->>= P Q (faults e) k h f = h

module _ (N : Libraries) where
  open N use {Real}

  -- If the arguments begin with a number, it is the index of one of eight loopers.
  abbrev pub InRange : List (Argument Real) → Type 0
  InRange (int_argument (pos i) ∷ rest) = i < 8
  InRange (int_argument (negsuc n) ∷ rest) = ⊥
  InRange _ = Unit

  -- An OSC control holds bytes, and the message in them is in range.
  abbrev pub Fits : ControlType → Body N → Type 0
  Fits osc_control not_bytes = ⊥
  Fits osc_control (osc_message message) = InRange message.arguments
  Fits _ _ = Unit

  abbrev pub AllInRange : List (ControlType × Body N) → Type 0
  AllInRange [] = Unit
  AllInRange ((t, body) ∷ controls) = Fits t body × AllInRange controls

  abbrev HasEight : GroupLoopers Real → Type 0
  HasEight g = length g.loopers ≡ 8

  -- Eight loopers are left, or the arguments had the wrong types.
  abbrev pub Safe : Run (GroupLoopers Real) → Type 0
  Safe m = Holds HasEight m

  set_state_at-Holds :
      (loopers : List SooperLooperState) (z : ℤ) (state : State)
      → (i : ℕ) × (z ≡ pos i) × (i < 8)
      → length loopers ≡ 8
      → Holds (λ after. length after ≡ 8) (set_state_at loopers z state)
  unfolding set_state_at
  set_state_at-Holds loopers z state (i, e, k) h = rw e (
      let (looper, f) = get_elem?-within loopers i (omega arith) in
      ground (arith, f, length-set loopers i (record looper { state = state })))

  int32-Holds :
      (arguments : List (Argument Real))
      → InRange arguments
      → Holds (λ p. (i : ℕ) × (p.0 ≡ pos i) × (i < 8)) (N.reader.int32 arguments)
  int32-Holds arguments r = elim (Run-cases (N.reader.int32 arguments)) [
    | inl ((z, rest), e) ↦
        rw e (index z rest (subst InRange (N.reader.int32_only arguments z rest e) r))
    | inr (fault, e) ↦ rw e (N.reader.int32_fault arguments fault e)
  ]
    where
      index :
          (z : ℤ) (rest : List (Argument Real))
          → InRange (int_argument z ∷ rest)
          → (i : ℕ) × (z ≡ pos i) × (i < 8)
      index (pos i) rest r = (i, refl, r)
      index (negsuc n) rest r = absurd r

  string-Holds : (arguments : List (Argument Real)) → Holds (λ _. Unit) (N.reader.string arguments)
  string-Holds arguments = elim (Run-cases (N.reader.string arguments)) [
    | inl (p, e) ↦ rw e tt
    | inr (fault, e) ↦ rw e (N.reader.string_fault arguments fault e)
  ]

  float32-Holds :
      (arguments : List (Argument Real)) → Holds (λ _. Unit) (N.reader.float32 arguments)
  float32-Holds arguments = elim (Run-cases (N.reader.float32 arguments)) [
    | inl (p, e) ↦ rw e tt
    | inr (fault, e) ↦ rw e (N.reader.float32_fault arguments fault e)
  ]

  -- The three arguments are read, and then `k` goes on.
  read-Safe :
      (message : Packet Real) (k : ℤ → Text → Real → Run (GroupLoopers Real))
      → InRange message.arguments
      → ((z : ℤ) (s : Text) (x : Real) → (i : ℕ) × (z ≡ pos i) × (i < 8) → Safe (k z s x))
      → Safe (do
        (loop_index, after_int) ← N.reader.int32 message.arguments
        (parameter_name, after_string) ← N.reader.string after_int
        (value, rest) ← N.reader.float32 after_string
        k loop_index parameter_name value)
  read-Safe message k r h =
      Holds->>= _ HasEight (N.reader.int32 message.arguments) _ (int32-Holds message.arguments r)
        (λ p inside. Holds->>= _ HasEight (N.reader.string p.1) _ (string-Holds p.1) (λ q _.
          Holds->>= _ HasEight (N.reader.float32 q.1) _ (float32-Holds q.1)
            (λ x _. h p.0 q.0 x.0 inside)))

  update_state-Safe :
      (message : Packet Real) (g : GroupLoopers Real)
      → InRange message.arguments
      → HasEight g
      → Safe (update_state N message g)
  unfolding update_state
  update_state-Safe message g r h =
      elim (Bool-cases (text_eq message.address (codes "/sl/global"))) [
        | inl global ↦ rw global (read-Safe message _ r (λ z s x inside. ground arith))
        | inr other ↦ elim (Bool-cases (text_eq message.address (codes "/sl/loops"))) [
          | inl loops ↦
              rw (other, loops)
                (read-Safe message _ r (λ z s x inside.
                  elim (Bool-cases (text_eq s (codes "state"))) [
                    | inl state ↦ rw state (
                        Holds->>= _ HasEight (set_state_at g.loopers z (translate_state N x)) _
                          (set_state_at-Holds g.loopers z (translate_state N x) inside h)
                          (λ after e. e))
                    | inr silent ↦ rw silent h
                  ]))
          | inr neither ↦ rw (other, neither) h
        ]
      ]

  -- From eight loopers, if every OSC control holds bytes, and every message that begins with a number
  -- begins with one from 0 to 7, the function leaves eight loopers or throws, at bytes that are no
  -- message or at an argument of the wrong type. Nothing is undefined.
  pub update_states-Safe :
      (controls : List (ControlType × Body N)) (g : GroupLoopers Real)
      → AllInRange controls
      → length g.loopers ≡ 8
      → Safe (update_states N controls g)
  unfolding update_states
  update_states-Safe [] g r h = h
  update_states-Safe ((osc_control, not_bytes) ∷ controls) g r h = absurd r.0
  update_states-Safe ((osc_control, malformed) ∷ controls) g r h = refl
  update_states-Safe ((osc_control, osc_message message) ∷ controls) g r h =
      Holds->>= HasEight HasEight (update_state N message g) _ (update_state-Safe message g r.0 h)
        (λ next k. update_states-Safe controls next r.1 k)
  update_states-Safe ((ump_control, message) ∷ controls) g r h = update_states-Safe controls g r.1 h
  update_states-Safe ((other_control, message) ∷ controls) g r h =
      update_states-Safe controls g r.1 h

  -- With eight loopers, a message that sets the state of a looper at an index of 8 or more is
  -- undefined behaviour: the index is not tested.
  pub update_states-undefined :
      (i : ℕ) (x : Real) (rest : List (Argument Real)) (controls : List (ControlType × Body N))
      (g : GroupLoopers Real)
      → length g.loopers ≡ 8
      → 8 ≤ i
      → update_states N
          ((
            osc_control,
            osc_message (record {
              address = codes "/sl/loops";
              arguments =
                  int_argument (pos i) ∷ string_argument (codes "state") ∷ float_argument x ∷ rest;
            }),
          )
            ∷ controls)
          g
        ≡ faults undefined
  unfolding update_states update_state set_state_at
  update_states-undefined i x rest controls g h k = ground (
    arith,
    get_elem?-beyond g.loopers i (omega arith),
    N.reader.int32_at (pos i) (string_argument (codes "state") ∷ float_argument x ∷ rest),
    N.reader.string_at (codes "state") (float_argument x ∷ rest),
    N.reader.float32_at x rest,
  )
