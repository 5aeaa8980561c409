-- ===== src/Parameters/Laws.antt =====
-- Facts about the tables of src/parameters.cpp and include/parameters/parameters.h.
use pmx.Base.{
  ℕ, zero, suc, ◌+◌, ◌-◌, ◌/◌, ◌%◌, ◌≤◌, ◌<◌, ◌≡◌, refl, Option, none, some, arith, Bool, ltb, leb,
  if◌then◌else◌, get_elem?, All, All-get_elem?, ◌&&◌, Text, text_eq, find,
}
use mathlib.Core.Option
use pmx.Parameters.{
  Parameter, none_parameter, equalizer_low, equalizer_mid, equalizer_high, equalizer_master,
  all_parameters,
}
use pmx.Parameters.Find.{
  RoutingTableTargetParameter, find_target_parameter_for_group_channels,
  find_target_parameter_for_input_mix_channels, find_target_parameter_for_input_channels,
}

-- The four knobs of a strip of the mix controller, from the top.
abbrev pub knob : ℕ → Parameter
knob zero = equalizer_high
knob (suc zero) = equalizer_mid
knob (suc (suc zero)) = equalizer_low
knob (suc (suc (suc n))) = equalizer_master

-- The mix controller's strips as arithmetic: two blocks of sixteen controllers, four to a strip.
abbrev pub mix_strip : ℕ → ℕ × Parameter
mix_strip cc_number =
    if ltb cc_number 16
    then (0, none_parameter)
    else if ltb cc_number 32
    then ((cc_number - 16) / 4 + 1, knob ((cc_number - 16) % 4))
    else if ltb cc_number 46
    then (0, none_parameter)
    else if ltb cc_number 62
    then ((cc_number - 46) / 4 + 5, knob ((cc_number - 46) % 4))
    else (0, none_parameter)

-- The table of the mix controllers has, for every controller, the strip and the parameter that this
-- arithmetic gives: the controllers 16 to 31 and 46 to 61, four to a strip, and no others.
pub find_mix-eq-mix_strip :
    (cc_number : ℕ) → find_target_parameter_for_input_mix_channels cc_number ≡ mix_strip cc_number
unfolding find_target_parameter_for_input_mix_channels
find_mix-eq-mix_strip cc_number = ground arith

-- The router's group table as arithmetic: a row of four controllers for each knob.
abbrev pub group_row : ℕ → Option (ℕ × Parameter)
group_row cc_number =
    if ltb cc_number 10
    then none
    else if ltb cc_number 22
    then some ((cc_number - 10) % 4 + 1, knob ((cc_number - 10) / 4))
    else if leb 48 cc_number && ltb cc_number 52
    then some (cc_number - 47, equalizer_master)
    else none

-- A parameter of the table, at the place that its id names.
abbrev pub IsKnown : Parameter → Type 0
IsKnown p = get_elem? all_parameters p.id ≡ some p

abbrev pub as_pair : RoutingTableTargetParameter → ℕ × Parameter
as_pair t = (t.group_id, t.parameter)

-- The table of the group controllers has, for every controller, the group and the parameter that this
-- arithmetic gives: the controllers 10 to 21 and 48 to 51, a row of four groups for each knob.
pub find_group-eq-group_row :
    (cc_number : ℕ)
    → Option.map as_pair (find_target_parameter_for_group_channels cc_number) ≡ group_row cc_number
unfolding find_target_parameter_for_group_channels
find_group-eq-group_row cc_number = ground arith

-- The group of a routed controller is one of the four, and its parameter is in the table and is not `none`.
pub find_group-IsKnown :
    (cc_number : ℕ) (t : RoutingTableTargetParameter)
    → find_target_parameter_for_group_channels cc_number ≡ some t
    → (1 ≤ t.group_id) × (t.group_id ≤ 4) × IsKnown t.parameter × (0 < t.parameter.id)
unfolding find_target_parameter_for_group_channels
find_group-IsKnown cc_number t h = ground arith

pub find_mix-IsKnown :
    (cc_number : ℕ)
    → ((find_target_parameter_for_input_mix_channels cc_number).0 ≤ 8)
      × IsKnown (find_target_parameter_for_input_mix_channels cc_number).1
unfolding find_target_parameter_for_input_mix_channels
find_mix-IsKnown cc_number = ground arith

-- The controllers 1 to 11 move the parameters with these ids, the controllers 13 to 18 those with the
-- ids 12 to 17, and every other controller moves `none`, whose id is 0.
pub find_input-id :
    (cc_number : ℕ)
    → (find_target_parameter_for_input_channels cc_number).id ≡ (
        if ltb cc_number 12
        then cc_number
        else if ltb cc_number 13
        then 0
        else if ltb cc_number 19
        then cc_number - 1
        else 0)
unfolding find_target_parameter_for_input_channels
find_input-id cc_number = ground arith

pub find_input-IsKnown :
    (cc_number : ℕ) → IsKnown (find_target_parameter_for_input_channels cc_number)
unfolding find_target_parameter_for_input_channels
find_input-IsKnown cc_number = ground arith

-- The pair of short name and name determines the parameter.
abbrev pub named : Text → Text → Parameter → Bool
named device_short_name name p =
    text_eq p.device_short_name device_short_name && text_eq p.name name

pub find-named :
    (p : Parameter) → IsKnown p → find (named p.device_short_name p.name) all_parameters ≡ some p
find-named p h =
    All-get_elem? (λ q. find (named q.device_short_name q.name) all_parameters ≡ some q)
      all_parameters p.id each h
  where
    each : All (λ q. find (named q.device_short_name q.name) all_parameters ≡ some q) all_parameters
    each = (
      refl,
      (
        refl,
        (
          refl,
          (
            refl,
            (
              refl,
              (
                refl,
                (
                  refl,
                  (
                    refl,
                    (
                      refl,
                      (refl, (refl, (refl, (refl, (refl, (refl, (refl, (refl, (refl, tt))))))))),
                    ),
                  ),
                ),
              ),
            ),
          ),
        ),
      ),
    )
