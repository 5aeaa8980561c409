-- ===== src/Witnesses/Paths.antt =====
-- Paths, parameters and values: src/parse_osc_path.cpp, src/processing.cpp, src/interpolation.cpp and
-- include/parameters/parameters.h at concrete inputs.

use pmx.Base.{◌≡◌, refl, arith, codes, returns, ok, Text, ◌<◌, ◌+◌, length, ◌≤◌}
use pmx.Parameters.{equalizer_low}
use pmx.Parameters.Laws.{IsKnown}
use pmx.Osc.{OscPath, b_layer, input, parse_osc_path, build_input_channel_osc_path}
use pmx.Osc.RoundTrip.{layer_text, parse-build_input}
use pmx.Osc.Results.{HasHead, consumed_at, parse_sound}

abbrev low_on_seven : OscPath
low_on_seven = record {
  channel_id = 7;
  channel_type = input;
  layer = b_layer;
  parameter = equalizer_low;
}

parse-build_input_example :
    parse_osc_path (build_input_channel_osc_path 7 equalizer_low (layer_text b_layer))
    ≡ returns (ok low_on_seven)
parse-build_input_example =
    parse-build_input 7 b_layer equalizer_low (omega arith) refl (omega arith)

abbrev cut_path : Text
cut_path = codes "/I/A/12/"

abbrev full_path : Text
full_path = build_input_channel_osc_path 7 equalizer_low (layer_text b_layer)

parse_sound_example :
    HasHead (build_input_channel_osc_path 7 equalizer_low (layer_text b_layer))
    × (7 < 100)
    × IsKnown equalizer_low
    × (consumed_at (build_input_channel_osc_path 7 equalizer_low (layer_text b_layer)) + 4
        ≤ length (build_input_channel_osc_path 7 equalizer_low (layer_text b_layer)))
parse_sound_example =
    parse_sound (build_input_channel_osc_path 7 equalizer_low (layer_text b_layer)) low_on_seven
      (parse-build_input 7 b_layer equalizer_low (omega arith) refl (omega arith))
