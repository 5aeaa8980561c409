-- ===== src/Commands.antt =====
-- src/commands: what the commands of the console do with the rest of their line. A command prints
-- lines, changes the state it is given, and returns nothing or an error.
-- `R` is the type of the floating point numbers.
pub mod Simple
pub mod Describe
pub mod Setup
pub mod Send
pub mod Start
pub mod Status
pub mod Results
pub mod SetupDelivery
pub mod Order
use pmx.Base.{
  List, [], ◌∷◌, ◌++◌, Option, none, some, Text, codes, text_eq, to_string, ℤ, pos, negsuc, Result,
  ok, err, Bool, if◌then◌else◌, eq_ℤ, ◌+◌,
}
use pmx.Errors.{Error}
use pmx.Collections.{Link, WpProxy}

-- `std::expected<void, error::error>`.
abbrev pub Done : Type 0
Done = Result Error (Unit {0})

pub record Outcome : Type 0 where
  pub printed : List Text
  pub result : Done

-- Nothing is printed and an error returned.
abbrev pub fails : Error → Outcome
fails e = record { printed = []; result = err e }

abbrev pub prints : List Text → Outcome
prints lines = record { printed = lines; result = ok tt }

-- `<<` of an `int`.
abbrev pub int_text : ℤ → Text
int_text (pos n) = to_string n
int_text (negsuc n) = codes "-" ++ to_string (n + 1)

-- `operator<<` of include/wpcpp/link_collection.h.
abbrev pub link_text : Link → Text
link_text l =
    codes "link: "
    ++ (int_text l.object_id
        ++ (codes " ("
            ++ (int_text l.output_node_id
                ++ (codes ", "
                    ++ (int_text l.output_port_id
                        ++ (codes ") -> ("
                            ++ (int_text l.input_node_id
                                ++ (codes ", " ++ (int_text l.input_port_id ++ codes ")")))))))))

abbrev pub proxy_line : WpProxy → Text
proxy_line p = p.name ++ (codes ": " ++ int_text p.object_id)

-- `std::find_if` by the name, and by the id.
abbrev pub find_named : Text → List WpProxy → Option WpProxy
find_named name [] = none
find_named name (p ∷ proxies) = if text_eq p.name name then some p else find_named name proxies

abbrev pub find_object : ℤ → List WpProxy → Option WpProxy
find_object id [] = none
find_object id (p ∷ proxies) = if eq_ℤ p.object_id id then some p else find_object id proxies
