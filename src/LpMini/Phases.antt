-- ===== src/LpMini/Phases.antt =====
-- The order in which src/applications/lp_mini_init.cpp goes through its tasks.
use pmx.Base.{
  Run-cases, ◌⊎◌, Fault, faults, undefined, List-cases, ℕ, ◌≡◌, refl, arith, true, false, List, [],
  ◌∷◌, Option, none, some, returns, Bool-cases, inl, inr, if◌then◌else◌,
}
use pmx.Pod.{BuilderCall, ControlType, untested_controls}
use pmx.LpMini.{
  Setup, Cycle, hand_shake, enable_session_mode, setup_initial_session_state, unsent, read_response,
  is_due, device_id_request, session_state, process_signal,
}

-- Where the setup stands: what is left of the response and when the request was sent, or when the
-- session state was sent.
pub data Phase : Type 0 where
  shaking : ℕ → List ℕ → Option ℕ → Phase
  enabling : Phase
  setting : Option ℕ → Phase

-- The variables of the program in a phase.
abbrev pub setup_of : Phase → Setup
setup_of (shaking r response last) = record {
  tasks =
      record { type = hand_shake; last_send_time = last }
      ∷ unsent enable_session_mode
      ∷ unsent setup_initial_session_state
      ∷ [];
  handshake_response = r ∷ response;
}
setup_of enabling = record {
  tasks = unsent enable_session_mode ∷ unsent setup_initial_session_state ∷ [];
  handshake_response = [];
}
setup_of (setting last) = record {
  tasks = record { type = setup_initial_session_state; last_send_time = last } ∷ [];
  handshake_response = [];
}

-- What a cycle may do in each phase, with what it writes.
pub data Moves (R : Type 0) (c : Cycle)
    : Phase → Phase → Option (List (BuilderCall R)) → Type 0 where
  -- The response is still incomplete; the request is sent again once the timeout is over.
  waits :
      (controls : List (ControlType × List ℕ)) (r q : ℕ) (response left : List ℕ) (last : Option ℕ)
      → untested_controls c.in_buffer ≡ returns controls
      → read_response controls (r ∷ response) ≡ q ∷ left
      → is_due last c.now ≡ false
      → Moves R c
          (shaking r response last)
          (shaking q left last)
          (if c.out_buffer then some [] else none)
  asks :
      (controls : List (ControlType × List ℕ)) (r q : ℕ) (response left : List ℕ) (last : Option ℕ)
      → untested_controls c.in_buffer ≡ returns controls
      → read_response controls (r ∷ response) ≡ q ∷ left
      → is_due last c.now ≡ true
      → c.out_buffer ≡ true
      → Moves R c
          (shaking r response last)
          (shaking q left (some c.sent))
          (some (device_id_request R))
  cannot_ask :
      (controls : List (ControlType × List ℕ)) (r q : ℕ) (response left : List ℕ) (last : Option ℕ)
      → untested_controls c.in_buffer ≡ returns controls
      → read_response controls (r ∷ response) ≡ q ∷ left
      → c.out_buffer ≡ false
      → Moves R c (shaking r response last) (shaking q left last) none
  -- The response is complete.
  shaken :
      (controls : List (ControlType × List ℕ)) (r : ℕ) (response : List ℕ) (last : Option ℕ)
      → untested_controls c.in_buffer ≡ returns controls
      → read_response controls (r ∷ response) ≡ []
      → Moves R c (shaking r response last) enabling (if c.out_buffer then some [] else none)
  holds : c.out_buffer ≡ false → Moves R c enabling enabling none
  sets :
      c.out_buffer ≡ true
      → Moves R c (setting none) (setting (some c.sent)) (some (session_state R))
  rests :
      (t : ℕ)
      → Moves R c (setting (some t)) (setting (some t)) (if c.out_buffer then some [] else none)
  postpones : c.out_buffer ≡ false → Moves R c (setting none) (setting none) none

-- How a cycle may end otherwise: in the handshake the pod cannot be read, and the write that enables
-- the session mode reads behind its array.
pub data Fails (c : Cycle) : Phase → Fault → Type 0 where
  unreadable :
      (r : ℕ) (response : List ℕ) (last : Option ℕ) (e : Fault)
      → untested_controls c.in_buffer ≡ faults e
      → Fails c (shaking r response last) e
  reads_behind : c.out_buffer ≡ true → Fails c enabling undefined

-- A cycle of the handshake whose controls could be read.
pub hand_shake_step-Moves :
    (R : Type 0) (c : Cycle) (controls : List (ControlType × List ℕ)) (r : ℕ) (response : List ℕ)
    (last : Option ℕ)
    → untested_controls c.in_buffer ≡ returns controls
    → (q : Phase) × (calls : Option (List (BuilderCall R))) × (process_signal R c
          (setup_of (shaking r response last))
        ≡ returns (calls, setup_of q))
      × Moves R c (shaking r response last) q calls
unfolding process_signal
hand_shake_step-Moves R c controls r response last read =
    elim (List-cases (read_response controls (r ∷ response))) [
      | inl e ↦ (
        enabling,
        if c.out_buffer then some [] else none,
        ground (arith, read, e),
        shaken controls r response last read e,
      )
      | inr (q, left, e) ↦ elim (Bool-cases (is_due last c.now)) [
        | inl due ↦ elim (Bool-cases c.out_buffer) [
          | inl there ↦ (
            shaking q left (some c.sent),
            some (device_id_request R),
            ground (arith, read, e, due, there),
            asks controls r q response left last read e due there,
          )
          | inr missing ↦ (
            shaking q left last,
            none,
            ground (arith, read, e, due, missing),
            cannot_ask controls r q response left last read e missing,
          )
        ]
        | inr early ↦ (
          shaking q left last,
          if c.out_buffer then some [] else none,
          ground (arith, read, e, early),
          waits controls r q response left last read e early,
        )
      ]
    ]

-- In every phase a cycle does what the phase allows, and then the queue of tasks is not empty, or it
-- fails in one of the ways of the phase.
pub process_signal-Moves :
    (R : Type 0) (c : Cycle) (p : Phase)
    → ((q : Phase) × (calls : Option (List (BuilderCall R))) × (process_signal R c (setup_of p)
          ≡ returns (calls, setup_of q))
        × Moves R c p q calls)
      ⊎ ((e : Fault) × (process_signal R c (setup_of p) ≡ faults e) × Fails c p e)
unfolding process_signal
process_signal-Moves R c enabling = elim (Bool-cases c.out_buffer) [
  | inl there ↦ inr (undefined, rw there refl, reads_behind there)
  | inr missing ↦ inl (enabling, none, rw missing refl, holds missing)
]
process_signal-Moves R c (setting none) = inl (elim (Bool-cases c.out_buffer) [
  | inl there ↦ (setting (some c.sent), some (session_state R), rw there refl, sets there)
  | inr missing ↦ (setting none, none, rw missing refl, postpones missing)
])
process_signal-Moves R c (setting (some t)) = inl (
  setting (some t),
  if c.out_buffer then some [] else none,
  elim (Bool-cases c.out_buffer) [ inl there ↦ rw there refl | inr missing ↦ rw missing refl ],
  rests t,
)
process_signal-Moves R c (shaking r response last) =
    elim (Run-cases (untested_controls c.in_buffer)) [
      | inr (e, unread) ↦ inr (e, rw unread refl, unreadable r response last e unread)
      | inl (controls, read) ↦ inl (hand_shake_step-Moves R c controls r response last read)
    ]
