-- ===== src/Units/Reading.antt =====
-- src/units.cpp: the loops that read an answer end.
use pmx.Base.{
  Option-cases, ℕ, zero, suc, ◌≤◌, ◌<◌, ◌≡◌, ◌≢◌, ap, arith, inl, inr, List, [], ◌∷◌, ◌++◌, none,
  some, Text, Bool-cases, Run-cases, ℤ, returns, faults, ok, err,
}
use pmx.Units.{Reader, is_positive, read_one, read_structs, read_arrays, list_reply}

module _ {A : Type 0} (reader : Reader A) (strerror : ℤ → Text) where
  open reader use {
    Message, enter_array, at_end, enter_struct, read_struct, exit_container, remaining,
  }

  -- A round that reads a structure leaves less to read.
  read_one_forward :
      (m next : Message) (unit : A)
      → read_one reader strerror m ≡ returns (ok (unit, next))
      → remaining next < remaining m
  unfolding read_one
  read_one_forward m next unit h = elim (Bool-cases (is_positive (enter_struct m).0)) [
    | inr closed ↦ absurd (ground (arith, closed))
    | inl entered ↦ elim (Bool-cases (is_positive (read_struct (enter_struct m).1).0)) [
      | inr empty ↦ absurd (ground (arith, entered, empty))
      | inl got ↦
          let same : exit_container (read_struct (enter_struct m).1).2 ≡ next =
            ground (arith, entered, got) in
          omega (
            arith,
            reader.enter_struct_forward m,
            reader.read_struct_forward (enter_struct m).1 got,
            reader.exit_container_forward (read_struct (enter_struct m).1).2,
            ap remaining same,
          )
    ]
  ]

  -- With enough fuel the inner loop ends.
  read_structs-ne-none :
      (fuel : ℕ) (m : Message) (units : List A)
      → remaining m < fuel
      → read_structs reader strerror fuel m units ≢ none
  unfolding read_structs
  read_structs-ne-none zero m units h = absurd (omega arith)
  read_structs-ne-none (suc fuel) m units h = elim (Run-cases (read_one reader strerror m)) [
    | inr (e, thrown) ↦ ground (arith, thrown)
    | inl (err e, failed) ↦ ground (arith, failed)
    | inl (ok (unit, next), one) ↦ ground (
      arith,
      one,
      read_one_forward m next unit one,
      read_structs-ne-none fuel next (units ++ unit ∷ []),
    )
  ]

  -- The inner loop leaves no more than there was.
  read_structs_forward :
      (fuel : ℕ) (m next : Message) (units more : List A)
      → read_structs reader strerror fuel m units ≡ some (returns (ok (more, next)))
      → remaining next ≤ remaining m
  unfolding read_structs
  read_structs_forward zero m next units more h = cc
  read_structs_forward (suc fuel) m next units more h =
      elim (Run-cases (read_one reader strerror m)) [
        | inr (e, thrown) ↦ ground (arith, thrown)
        | inl (err e, failed) ↦ ground (arith, failed)
        | inl (ok (unit, after), one) ↦ ground (
          arith,
          one,
          read_one_forward m after unit one,
          read_structs_forward fuel after next (units ++ unit ∷ []) more,
        )
      ]

  read_arrays-ne-none :
      (fuel inner : ℕ) (m : Message) (units : List A)
      → remaining m < fuel
      → remaining m < inner
      → read_arrays reader strerror fuel inner m units ≢ none
  unfolding read_arrays
  read_arrays-ne-none zero inner m units h k = absurd (omega arith)
  read_arrays-ne-none (suc fuel) inner m units h k =
      elim (Bool-cases (is_positive (enter_array m).0)) [
        | inr closed ↦ ground (arith, closed)
        | inl entered ↦
            let less = reader.enter_array_forward m entered in
            elim (Option-cases (read_structs reader strerror inner (enter_array m).1 units)) [
              | inl out ↦
                  absurd (read_structs-ne-none inner (enter_array m).1 units (omega arith) out)
              | inr (faults e, thrown) ↦ ground (arith, entered, thrown)
              | inr (returns (err e), failed) ↦ ground (arith, entered, failed)
              | inr (returns (ok (more, next)), read) ↦
                  let left = read_structs_forward inner (enter_array m).1 next units more read in
                  ground (
                    arith,
                    entered,
                    read,
                    read_arrays-ne-none fuel inner next more (omega arith) (omega arith),
                  )
            ]
      ]

  -- Whatever the bus answers, the loops of `list_units` and `list_unit_files` end: with more rounds
  -- than there is to read, a result is reached.
  pub list_reply-ne-none :
      (fuel : ℕ) (result : ℤ) (reply : Message)
      → remaining reply < fuel
      → list_reply reader strerror fuel (result, reply) ≢ none
  unfolding list_reply
  list_reply-ne-none fuel result reply h = ground (arith, read_arrays-ne-none fuel fuel reply [])
