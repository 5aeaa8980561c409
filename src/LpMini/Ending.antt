-- ===== src/LpMini/Ending.antt =====
-- src/applications/lp_mini_init.cpp: where the setup of the Launchpad leads.
use pmx.Base.{
  ℕ, ◌≡◌, refl, arith, Bool, true, false, ◌||◌, ◌&&◌, List, [], ◌∷◌, ◌++◌, Option, none, some, Run,
  returns, faults, undefined, Bool-cases, List-cases, inl, inr, if◌then◌else◌, ◌>>=◌,
}
use pmx.Pod.{ControlType, BuilderCall, untested_controls}
use pmx.LpMini.{is_due, device_id_request, Setup, Cycle, initial, read_response, process_signal}
use pmx.LpMini.Phases.{shaking, enabling, setup_of}

-- Cycles one after the other, with what each writes.
abbrev pub run :
    (R : Type 0) → List Cycle → Setup → Run (List (Option (List (BuilderCall R))) × Setup)
run R [] s = returns ([], s)
run R (c ∷ cycles) s = do
  (calls, next) ← process_signal R c s
  (more, last) ← run R cycles next
  returns (calls ∷ more, last)

-- The controls of the cycles can be read, and leave so much of a response.
abbrev pub Hears : List Cycle → List ℕ → List ℕ → Type 0
Hears [] response left = response ≡ left
Hears (c ∷ cycles) response left =
    (controls : List (ControlType × List ℕ)) × (untested_controls c.in_buffer ≡ returns controls)
    × Hears cycles (read_response controls response) left

abbrev pub has_buffer : List Cycle → Bool
has_buffer [] = false
has_buffer (c ∷ cycles) = c.out_buffer || has_buffer cycles

has_buffer-append : (xs ys : List Cycle) → has_buffer ys ≡ true → has_buffer (xs ++ ys) ≡ true
has_buffer-append [] ys h = h
has_buffer-append (x ∷ xs) ys h = ground (arith, has_buffer-append xs ys h)

-- Behind the handshake, the first buffer is the end.
run-enabling :
    (R : Type 0) (cycles : List Cycle)
    → has_buffer cycles ≡ true
    → run R cycles (setup_of enabling) ≡ faults undefined
unfolding process_signal
run-enabling R [] h = cc
run-enabling R (c ∷ cycles) h = elim (Bool-cases c.out_buffer) [
  | inl there ↦ rw there refl
  | inr missing ↦ rw (missing, run-enabling R cycles (ground (arith, missing))) refl
]

-- A cycle of the handshake, once the response is complete, and before.
hand_shake_over :
    (R : Type 0) (c : Cycle) (controls : List (ControlType × List ℕ)) (r : ℕ) (response : List ℕ)
    (last : Option ℕ)
    → untested_controls c.in_buffer ≡ returns controls
    → read_response controls (r ∷ response) ≡ []
    → process_signal R c (setup_of (shaking r response last))
      ≡ returns (if c.out_buffer then some [] else none, setup_of enabling)
unfolding process_signal
hand_shake_over R c controls r response last read e = ground (arith, read, e)

hand_shake_on :
    (R : Type 0) (c : Cycle) (controls : List (ControlType × List ℕ)) (r q : ℕ)
    (response left : List ℕ) (last : Option ℕ)
    → untested_controls c.in_buffer ≡ returns controls
    → read_response controls (r ∷ response) ≡ q ∷ left
    → (calls : Option (List (BuilderCall R))) × (sent : Option ℕ) × (process_signal R c
          (setup_of (shaking r response last))
        ≡ returns (calls, setup_of (shaking q left sent)))
unfolding process_signal
hand_shake_on R c controls r q response left last read e =
    elim (Bool-cases (c.out_buffer && is_due last c.now)) [
      | inl sends ↦ (some (device_id_request R), some c.sent, ground (arith, read, e, sends))
      | inr silent ↦ (if c.out_buffer then some [] else none, last, ground (arith, read, e, silent))
    ]

run-shaking :
    (R : Type 0) (front back : List Cycle) (r : ℕ) (response : List ℕ) (last : Option ℕ)
    → Hears front (r ∷ response) []
    → has_buffer back ≡ true
    → run R (front ++ back) (setup_of (shaking r response last)) ≡ faults undefined
run-shaking R [] back r response last h k = cc
run-shaking R (c ∷ front) back r response last (controls, read, h) k =
    elim (List-cases (read_response controls (r ∷ response))) [
      | inl e ↦
          rw
            (
              hand_shake_over R c controls r response last read e,
              run-enabling R (front ++ back) (has_buffer-append front back k),
            )
            refl
      | inr (q, left, e) ↦
          let (calls, sent, done) = hand_shake_on R c controls r q response left last read e in
          rw (done, run-shaking R front back q left sent (rw e at h) k) refl
    ]

-- The setup of the Launchpad cannot come to its end: after any cycles whose controls could be read
-- and in which the three words of the response have been heard, and any further ones of which one
-- has an output buffer, the run has read behind an array, which is undefined.
pub run-undefined :
    (R : Type 0) (front back : List Cycle)
    → Hears front initial.handshake_response []
    → has_buffer back ≡ true
    → run R (front ++ back) initial ≡ faults undefined
run-undefined R front back h k =
    run-shaking R front back 806780416 (807807251 ∷ 808649734 ∷ []) none h k
