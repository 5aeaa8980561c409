-- ===== src/Parameters/Find.antt =====
-- The tables of include/parameters/parameters.h from controller numbers to parameters.
use pmx.Base.{ℕ, ◌-◌, Option, none, some, ◌&&◌, ltb, leb, ◌==◌, if◌then◌else◌}
use pmx.Parameters.{
  Parameter, none_parameter, saturator_level_in, saturator_drive, saturator_blend,
  saturator_level_out, compressor_threshold, compressor_ratio, compressor_attack,
  compressor_release, compressor_makeup, compressor_knee, compressor_mix, equalizer_low,
  equalizer_mid, equalizer_high, equalizer_master, equalizer_low_mid, equalizer_mid_high,
}

pub record RoutingTableTargetParameter : Type 0 where
  pub group_id : ℕ
  pub parameter : Parameter

abbrev target : ℕ → Parameter → Option RoutingTableTargetParameter
target group_id parameter = some (record { group_id = group_id; parameter = parameter })

unfoldable pub find_target_parameter_for_group_channels : ℕ → Option RoutingTableTargetParameter
find_target_parameter_for_group_channels cc_number =
    if leb 10 cc_number && ltb cc_number 14
    then target (cc_number - 9) equalizer_high
    else if leb 14 cc_number && ltb cc_number 18
    then target (cc_number - 13) equalizer_mid
    else if leb 18 cc_number && ltb cc_number 22
    then target (cc_number - 17) equalizer_low
    else if leb 48 cc_number && ltb cc_number 52
    then target (cc_number - 47) equalizer_master
    else none

unfoldable pub find_target_parameter_for_input_mix_channels : ℕ → ℕ × Parameter
find_target_parameter_for_input_mix_channels cc_number =
    if cc_number == 16
    then (1, equalizer_high)
    else if cc_number == 17
    then (1, equalizer_mid)
    else if cc_number == 18
    then (1, equalizer_low)
    else if cc_number == 19
    then (1, equalizer_master)
    else if cc_number == 20
    then (2, equalizer_high)
    else if cc_number == 21
    then (2, equalizer_mid)
    else if cc_number == 22
    then (2, equalizer_low)
    else if cc_number == 23
    then (2, equalizer_master)
    else if cc_number == 24
    then (3, equalizer_high)
    else if cc_number == 25
    then (3, equalizer_mid)
    else if cc_number == 26
    then (3, equalizer_low)
    else if cc_number == 27
    then (3, equalizer_master)
    else if cc_number == 28
    then (4, equalizer_high)
    else if cc_number == 29
    then (4, equalizer_mid)
    else if cc_number == 30
    then (4, equalizer_low)
    else if cc_number == 31
    then (4, equalizer_master)
    else if cc_number == 46
    then (5, equalizer_high)
    else if cc_number == 47
    then (5, equalizer_mid)
    else if cc_number == 48
    then (5, equalizer_low)
    else if cc_number == 49
    then (5, equalizer_master)
    else if cc_number == 50
    then (6, equalizer_high)
    else if cc_number == 51
    then (6, equalizer_mid)
    else if cc_number == 52
    then (6, equalizer_low)
    else if cc_number == 53
    then (6, equalizer_master)
    else if cc_number == 54
    then (7, equalizer_high)
    else if cc_number == 55
    then (7, equalizer_mid)
    else if cc_number == 56
    then (7, equalizer_low)
    else if cc_number == 57
    then (7, equalizer_master)
    else if cc_number == 58
    then (8, equalizer_high)
    else if cc_number == 59
    then (8, equalizer_mid)
    else if cc_number == 60
    then (8, equalizer_low)
    else if cc_number == 61
    then (8, equalizer_master)
    else (0, none_parameter)

unfoldable pub find_target_parameter_for_input_channels : ℕ → Parameter
find_target_parameter_for_input_channels cc_number =
    if cc_number == 0
    then none_parameter
    else if cc_number == 1
    then saturator_level_in
    else if cc_number == 2
    then saturator_drive
    else if cc_number == 3
    then saturator_blend
    else if cc_number == 4
    then saturator_level_out
    else if cc_number == 5
    then compressor_threshold
    else if cc_number == 6
    then compressor_ratio
    else if cc_number == 7
    then compressor_attack
    else if cc_number == 8
    then compressor_release
    else if cc_number == 9
    then compressor_makeup
    else if cc_number == 10
    then compressor_knee
    else if cc_number == 11
    then compressor_mix
    else if cc_number == 12
    then none_parameter
    else if cc_number == 13
    then equalizer_low
    else if cc_number == 14
    then equalizer_mid
    else if cc_number == 15
    then equalizer_high
    else if cc_number == 16
    then equalizer_master
    else if cc_number == 17
    then equalizer_low_mid
    else if cc_number == 18
    then equalizer_mid_high
    else none_parameter
