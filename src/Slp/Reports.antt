-- ===== src/Slp/Reports.antt =====
-- The variables of src/applications/slp_ctrl.cpp after a cycle.
use pmx.Base.{
  returns, ℕ, zero, suc, ◌+◌, ◌%◌, ◌^◌, ◌==◌, ◌<◌, ◌≡◌, refl, ◌∙◌, arith, false, List, [], ◌∷◌,
  ◌++◌, some, ltb, if◌then◌else◌, length, get_elem?, replicate, Bool-cases, inl, inr, get_elem?-lt,
}
use pmx.Pod.{ump_control, osc_control, other_control}
use pmx.Slp.{State, SooperLooperState}
use pmx.Slp.Input.{StateUpdate, apply_updates, update_at, Control, read_clock}

-- The state that the last update of an index gives, if there is one.
abbrev pub last_state : ℕ → List StateUpdate → State → State
last_state i [] state = state
last_state i (u ∷ updates) state =
    last_state i updates (if u.loop_index == i then u.state else state)

-- A looper with the state of an update, if it is at the place of it.
abbrev updated : ℕ → ℕ → State → SooperLooperState → SooperLooperState
updated i j state looper = record looper { state = if j == i then state else looper.state }

update_at-updated :
    (loopers : List SooperLooperState) (j : ℕ) (state : State)
    → j < length loopers
    → (after : List SooperLooperState) × (update_at loopers j state ≡ returns after)
      × (length after ≡ length loopers)
      × ((i : ℕ) (looper : SooperLooperState)
          → get_elem? loopers i ≡ some looper
          → get_elem? after i ≡ some (updated i j state looper))
update_at-updated [] j state h = absurd (omega arith)
update_at-updated (l ∷ loopers) zero state h = (_, refl, refl, at)
  where
    at :
        (i : ℕ) (looper : SooperLooperState)
        → get_elem? (l ∷ loopers) i ≡ some looper
        → get_elem? (record l { state = state } ∷ loopers) i ≡ some (updated i zero state looper)
    at zero looper e = ground arith
    at (suc i) looper e = ground arith
update_at-updated (l ∷ loopers) (suc j) state h =
    let (after, done, same, kept) = update_at-updated loopers j state (omega arith) in
    (l ∷ after, rw done refl, omega (arith, same), at after kept)
  where
    at :
        (after : List SooperLooperState)
        → ((i : ℕ) (looper : SooperLooperState)
            → get_elem? loopers i ≡ some looper
            → get_elem? after i ≡ some (updated i j state looper))
        → (i : ℕ) (looper : SooperLooperState) → get_elem? (l ∷ loopers) i ≡ some looper
        → get_elem? (l ∷ after) i ≡ some (updated i (suc j) state looper)
    at after kept zero looper e = ground arith
    at after kept (suc i) looper e = ground (arith, kept i looper e)

-- After the updates of a cycle there still are eight loopers: no place outside the array is written.
-- Each has its index and the state that the last update of its place gave, or its old state if there
-- was none; updates of places beyond the eight change nothing.
pub apply_updates-last_state :
    (i : ℕ) (updates : List StateUpdate) (loopers : List SooperLooperState)
    (looper : SooperLooperState)
    → length loopers ≡ 8
    → get_elem? loopers i ≡ some looper
    → (after : List SooperLooperState) × (apply_updates updates loopers ≡ returns after)
      × (length after ≡ 8)
      × (get_elem? after i ≡ some (record looper { state = last_state i updates looper.state }))
unfolding apply_updates
apply_updates-last_state i [] loopers looper eight e = (loopers, refl, eight, e)
apply_updates-last_state i (u ∷ updates) loopers looper eight e =
    elim (Bool-cases (ltb u.loop_index 8)) [
      | inl inside ↦
          let (next, done, same, kept) =
            update_at-updated loopers u.loop_index u.state (ground arith) in
          let (after, all_done, still, found) =
            apply_updates-last_state i updates next (updated i u.loop_index u.state looper)
              (same ∙ eight) (kept i looper e) in
          (after, rw (inside, done) all_done, still, found)
      | inr outside ↦
          let beyond : i < 8 = omega (arith, get_elem?-lt loopers i looper e, eight) in
          let other : (u.loop_index == i) ≡ false = ground arith in
          let (after, all_done, still, found) =
            apply_updates-last_state i updates loopers looper eight e in
          (after, rw outside all_done, still, rw other found)
    ]

-- The words of a start and of a pulse of the clock.
abbrev pub start : Control
start = (ump_control, 284884992 ∷ [])

abbrev pub pulse : Control
pulse = (ump_control, 284688384 ∷ [])

read_clock-append :
    (xs ys : List Control) (n : ℕ) → read_clock (xs ++ ys) n ≡ read_clock ys (read_clock xs n)
unfolding read_clock
read_clock-append [] ys n = refl
read_clock-append ((ump_control, []) ∷ xs) ys n = read_clock-append xs ys n
read_clock-append ((ump_control, w ∷ []) ∷ xs) ys n = read_clock-append xs ys _
read_clock-append ((ump_control, w ∷ v ∷ ws) ∷ xs) ys n = read_clock-append xs ys n
read_clock-append ((osc_control, ws) ∷ xs) ys n = read_clock-append xs ys n
read_clock-append ((other_control, ws) ∷ xs) ys n = read_clock-append xs ys n

read_clock-pulses : (k n : ℕ) → n < 2 ^ 64 → read_clock (replicate k pulse) n ≡ (n + k) % 2 ^ 64
unfolding read_clock
read_clock-pulses zero n h = omega arith
read_clock-pulses (suc k) n h = omega (arith, read_clock-pulses k ((n + 1) % 2 ^ 64) (omega arith))

-- Whatever came before, after a start and k pulses the count is k, as a 64-bit number.
pub read_clock-start :
    (before : List Control) (k n : ℕ)
    → read_clock (before ++ start ∷ replicate k pulse) n ≡ k % 2 ^ 64
unfolding read_clock
read_clock-start before k n =
    let shifted : read_clock (replicate k pulse) 0 ≡ k % 2 ^ 64 =
      omega (arith, read_clock-pulses k 0 (omega arith)) in
    read_clock-append before (start ∷ replicate k pulse) n ∙ shifted
