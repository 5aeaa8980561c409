-- ===== src/Commands/Describe.antt =====
-- src/commands/describe.cpp. How the stream shows floating point numbers is an argument.
use pmx.Base.{
  true, false, List, [], ◌∷◌, ◌++◌, map, Option, none, some, Text, codes, stoi, ℤ, eq_ℤ,
  uint32_of_int, if◌then◌else◌, Run, returns, ◌>>=◌,
}
use pmx.Tokens.{next_token, all_digits}
use pmx.Errors.{invalid_argument}
use pmx.Properties.{
  Property, PropertyValue, int_value, long_value, float_value, double_value, string_value,
  bool_value, null_value,
}
use pmx.Collections.{Link, WpProxy}
use pmx.ProxyWatcher.{Proxy, Watcher, get_proxy}
use pmx.Commands.{Outcome, fails, prints, int_text, link_text, find_object}

-- `std::copy_if` by the node at one end, and `std::find_if` by the id.
abbrev pub links_from : ℤ → List Link → List Link
links_from id [] = []
links_from id (l ∷ links) =
    let rest = links_from id links in if eq_ℤ l.output_node_id id then l ∷ rest else rest

abbrev pub links_to : ℤ → List Link → List Link
links_to id [] = []
links_to id (l ∷ links) =
    let rest = links_to id links in if eq_ℤ l.input_node_id id then l ∷ rest else rest

abbrev pub find_link : ℤ → List Link → Option Link
find_link id [] = none
find_link id (l ∷ links) = if eq_ℤ l.object_id id then some l else find_link id links

abbrev pub source_line : Link → Text
source_line l = codes "-->" ++ link_text l

abbrev pub sink_line : Link → Text
sink_line l = codes "<--" ++ link_text l

-- The part below "Links:".
unfoldable pub link_lines : ℤ → List WpProxy → List Link → List Text
link_lines id proxies links =
    elim (find_object id proxies) [
      | none ↦ []
      | some p ↦
          p.name ∷ (map source_line (links_from id links) ++ map sink_line (links_to id links))
    ]
    ++ elim (find_link id links) [ none ↦ [] | some l ↦ link_text l ∷ [] ]

module _ {R : Type 0} (real_text : R → Text) where
  abbrev pub value_text : PropertyValue R → Text
  value_text (string_value s) = s
  value_text (int_value n) = int_text n
  value_text (float_value x) = real_text x
  value_text (double_value x) = real_text x
  value_text (long_value n) = codes "unknown type"
  value_text (bool_value b) = codes "unknown type"
  value_text null_value = codes "unknown type"

  abbrev pub parameter_line : Property R → Text
  parameter_line p = p.0 ++ (codes ": " ++ value_text p.1)

  unfoldable pub parameter_lines : Option (Proxy R) → List Text
  parameter_lines none = []
  parameter_lines (some p) = p.name ∷ [] ∷ codes "Parameters:" ∷ map parameter_line p.parameters

  unfoldable pub describe_command : Text → List WpProxy → Watcher R → List Link → Run Outcome
  unfolding parameter_lines link_lines
  describe_command stream proxies w links = elim (next_token stream) [
    | none ↦ returns (fails (invalid_argument (codes "missing object id")))
    | some (object, rest) ↦ elim (all_digits object) [
      | false ↦ returns (fails (invalid_argument (codes "id is not a valid number: " ++ object)))
      | true ↦ do
        id ← stoi object
        returns (
            prints (
              parameter_lines (get_proxy (uint32_of_int id) w)
              ++ ([] ∷ codes "Links:" ∷ link_lines id proxies links)))
    ]
  ]
