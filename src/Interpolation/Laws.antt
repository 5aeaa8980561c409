-- ===== src/Interpolation/Laws.antt =====
-- src/interpolation.cpp over the parameters of src/parameters.cpp.
use pmx.Base.{ℕ, ◌≤◌, ◌≡◌, ap, ◌∙◌, arith, All-get_elem?, ◌≤ℤ◌}
use pmx.Parameters.{Parameter, all_parameters}
use pmx.Parameters.Laws.{IsKnown}
use pmx.Interpolation.{Double, interpolate, max_u32}

-- No parameter of the table has its bounds the wrong way round.
pub known-min-le-max : (p : Parameter) → IsKnown p → p.min ≤ℤ p.max
known-min-le-max p h = All-get_elem? (λ q. q.min ≤ℤ q.max) all_parameters p.id (omega arith) h

module _ (D : Double) (p : Parameter) (known : IsKnown p) where
  open D use {Real, literal, of_unsigned, sub, le}

  width_nonneg : le (of_unsigned 0) (sub (literal p.max) (literal p.min))
  width_nonneg =
      D.sub_nonneg (literal p.min) (literal p.max)
        (D.literal_mono p.min p.max (known-min-le-max p known))

  -- The lowest controller value gives the least value of the parameter.
  pub interpolate-zero : interpolate D p 0 ≡ literal p.min
  unfolding interpolate
  interpolate-zero =
      ap (λ t. D.add (literal p.min) (D.div t (of_unsigned max_u32))) (D.mul-zero _ width_nonneg)
      ∙ ap (D.add (literal p.min)) (D.zero-div max_u32 (omega arith))
      ∙ D.add-zero (literal p.min)

  -- For a parameter of the table, a higher controller value never gives a lower value.
  pub interpolate_mono : (m n : ℕ) → m ≤ n → le (interpolate D p m) (interpolate D p n)
  unfolding interpolate
  interpolate_mono m n h = D.add_mono _ _ _ (
      D.div_mono _ _ max_u32 (omega arith)
        (D.mul_mono _ _ _ width_nonneg (D.of_unsigned_mono m n h)))

  -- For a parameter of the table, no controller value gives less than its least value.
  pub min-le-interpolate : (n : ℕ) → le (literal p.min) (interpolate D p n)
  min-le-interpolate n = rw interpolate-zero at (interpolate_mono 0 n (omega arith))
