-- ===== src/Witnesses/Settings.antt =====
-- src/config.cpp over a small YAML library and a file system of two lists.
use pmx.Base.{
  ◌≡◌, refl, arith, Bool, true, false, ◌||◌, List, [], ◌∷◌, Option, none, some, Text, codes,
  text_eq, text_eq_refl, if◌then◌else◌, ℤ, Run, returns, faults, runtime_error,
}
use pmx.Configuration.RoundTrip.{read_config-write_config}
use pmx.Configuration.{Yaml, FileSystem, get_config_directory, read_config, write_config}
use pmx.Witnesses.Publishing.{two_ports, ones_below}

mutual
  data Value : Type 0 where
    undefined_value null_value : Value
    text_value : Text → Value
    int_value : ℤ → Value
    table : Entries → Value

  data Entries : Type 0 where
    end : Entries
    item : Text → Value → Entries → Entries

abbrev entries_of : Value → Entries
entries_of (table entries) = entries
entries_of _ = end

abbrev find_entry : Text → Entries → Option Value
find_entry key end = none
find_entry key (item k v entries) = if text_eq k key then some v else find_entry key entries

abbrev is_table : Value → Bool
is_table (table entries) = true
is_table _ = false

abbrev is_null_value : Value → Bool
is_null_value null_value = true
is_null_value _ = false

abbrev child_of : Value → Text → Run (Option Value)
child_of (table entries) key = returns (find_entry key entries)
child_of undefined_value key = returns none
child_of null_value key = returns none
child_of (text_value s) key = faults runtime_error
child_of (int_value n) key = faults runtime_error

abbrev text_of : Value → Run Text
text_of (text_value s) = returns s
text_of _ = faults runtime_error

abbrev int_of : Value → Run ℤ
int_of (int_value n) = returns n
int_of _ = faults runtime_error

child_of-item :
    (n : Value) (k j : Text) (v : Value)
    → is_table n ≡ true
    → child_of (table (item k v (entries_of n))) j
      ≡ (if text_eq k j then returns (some v) else child_of n j)
child_of-item (table entries) k j v h = ground arith
child_of-item undefined_value k j v h = cc
child_of-item null_value k j v h = cc
child_of-item (text_value s) k j v h = cc
child_of-item (int_value n) k j v h = cc

abbrev small_yaml : Yaml
small_yaml = record {
  Node = Value;
  Document = Value;
  undefined_node = undefined_value;
  map_node = table end;
  null_node = null_value;
  string_node = text_value;
  int_node = int_value;
  is_map = is_table;
  is_null = is_null_value;
  subscript = child_of;
  assign = λ n k v. table (item k v (entries_of n));
  as_string = text_of;
  as_int = int_of;
  literal = text_value;
  load = λ d. returns d;
  emit = λ n. n;
  is_map_of_map = refl;
  is_map-assign = λ n k v. refl;
  subscript_of_map = λ k. refl;
  subscript-assign = child_of-item;
  assign_to_undefined = λ k v. refl;
  is_null_of_null = refl;
  is_null_of_string = λ s. refl;
  is_null_of_int = λ n. refl;
  as_string_of_string = λ s. refl;
  as_int_of_int = λ n. refl;
  load-emit = λ n is_a_map. refl;
}

-- The directories, and the files with what they hold.
record Disk : Type 0 where
  directories : List Text
  files : List (Text × Value)

abbrev is_in : Text → List Text → Bool
is_in p [] = false
is_in p (d ∷ ds) = if text_eq d p then true else is_in p ds

abbrev find_file : Text → List (Text × Value) → Option Value
find_file p [] = none
find_file p ((f, v) ∷ files) = if text_eq f p then some v else find_file p files

abbrev is_there : Option Value → Bool
is_there none = false
is_there (some v) = true

abbrev on_disk : Text → Disk → Bool
on_disk p s = is_in p s.directories || is_there (find_file p s.files)

abbrev or_missing : Option Value → Run Value
or_missing none = faults runtime_error
or_missing (some v) = returns v

abbrev make_directory : Text → Disk → Run (Bool × Disk)
make_directory p s = returns (true, record s { directories = p ∷ s.directories })

abbrev store : Text → Value → Disk → Option Disk
store p d s = some (record s { files = (p, d) ∷ s.files })

on_disk-make_directory :
    (p : Text) (s t : Disk) (b : Bool) → make_directory p s ≡ returns (b, t) → on_disk p t ≡ true
on_disk-make_directory p s t b h = ground (arith, text_eq_refl p)

on_disk-store : (p : Text) (d : Value) (s t : Disk) → store p d s ≡ some t → on_disk p t ≡ true
on_disk-store p d s t h = ground (arith, text_eq_refl p)

on_disk-store_kept :
    (p q : Text) (d : Value) (s t : Disk)
    → store p d s ≡ some t
    → on_disk q s ≡ true
    → on_disk q t ≡ true
on_disk-store_kept p q d s t h k = ground arith

find_file-store :
    (p : Text) (d : Value) (s t : Disk)
    → store p d s ≡ some t
    → or_missing (find_file p t.files) ≡ returns d
find_file-store p d s t h = ground (arith, text_eq_refl p)

abbrev disk : FileSystem Value
disk = record {
  State = Disk;
  exists = on_disk;
  create_directory = make_directory;
  read_file = λ p s. or_missing (find_file p s.files);
  write_file = store;
  exists-create_directory = on_disk-make_directory;
  exists-write_file = on_disk-store;
  exists-write_file_kept = on_disk-store_kept;
  read_file-write_file = find_file-store;
}

abbrev home_only : Text → Option Text
home_only name = if text_eq name (codes "HOME") then some (codes "/home/pmx") else none

abbrev empty_disk : Disk
empty_disk = record { directories = []; files = [] }

wrote :
    (t : Disk) × (write_config small_yaml disk home_only (codes "pmx") two_ports empty_disk
      ≡ returns (true, t))
unfolding write_config get_config_directory
wrote = (_, refl)

read_config-write_config_example :
    read_config small_yaml disk home_only (codes "pmx") wrote.0 ≡ returns (two_ports, wrote.0)
read_config-write_config_example =
    read_config-write_config small_yaml disk home_only (codes "pmx") two_ports empty_disk wrote.0
      true refl refl (omega arith, (omega arith, (omega arith, ones_below 29))) wrote.1
