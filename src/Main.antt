-- ===== src/Main.antt =====
-- The arguments of src/main.cpp, and the struct `Options` of include/magicbox/appliance.hpp.
pub mod Accepted
use wirelab_experiments.Common.{
  ℕ, ◌≡◌, Bool, true, false, not, ◌&&◌, ◌||◌, List, [], ◌∷◌, ◌++◌, Option, none, some, Text, codes,
  text_eq, length, ltb, ◌==◌, if◌then◌else◌, from_chars, Outcome, returned, thrown,
}

pub record Options : Type 0 where
  pub listen : Text
  pub port : ℕ
  pub database : Text
  pub token_file : Text
  pub web_root : Text
  pub capture_interface : Text
  pub allow_network : Bool

abbrev pub default_options : Options
default_options = record {
  listen = codes "127.0.0.1";
  port = 8080;
  database = codes "magicbox.sqlite";
  token_file = [];
  web_root = codes "web";
  capture_interface = [];
  allow_network = false;
}

-- What `main` does: it prints the version or the usage, or starts the appliance.
pub data Action : Type 0 where
  print_version print_help : Action
  start_appliance : Options → Action

abbrev pub invalid_port : ℕ → Bool
invalid_port port = ltb port 1 || ltb 65535 port

-- `--port`: all of the value is a number in range.
unfoldable pub set_port : Text → Options → Outcome Text Options
set_port value o = elim (from_chars 10 value) [
  | none ↦ thrown (codes "Invalid port")
  | some (port, taken) ↦
      if not (taken == length value) || invalid_port port
      then thrown (codes "Invalid port")
      else returned (record o { port = port })
]

-- An option that takes a value.
unfoldable pub set_option : Text → Text → Options → Outcome Text Options
set_option arg value o =
    if text_eq arg (codes "--listen")
    then returned (record o { listen = value })
    else if text_eq arg (codes "--database")
    then returned (record o { database = value })
    else if text_eq arg (codes "--web-root")
    then returned (record o { web_root = value })
    else if text_eq arg (codes "--capture")
    then returned (record o { capture_interface = value })
    else if text_eq arg (codes "--token-file")
    then returned (record o { token_file = value })
    else if text_eq arg (codes "--port")
    then set_port value o
    else thrown (codes "Unknown option: " ++ arg)

-- The arguments that take no value: an end of the loop, a flag, or neither.
pub data Word : Type 0 where
  ends : Action → Word
  allows : Word
  takes_value : Word

unfoldable pub word : Text → Word
word arg =
    if text_eq arg (codes "--version")
    then ends print_version
    else if text_eq arg (codes "--help") || text_eq arg (codes "-h")
    then ends print_help
    else if text_eq arg (codes "--allow-network")
    then allows
    else takes_value

unfoldable pub finish_options : Options → Outcome Text Action
finish_options o =
    if length o.token_file == 0
    then thrown (codes "--token-file is required; use --help for usage")
    else returned (start_appliance o)

-- The loop over the arguments behind the program's name.
unfoldable pub parse_options : List Text → Options → Outcome Text Action
parse_options [] o = finish_options o
parse_options (arg ∷ []) o = elim (word arg) [
  | ends action ↦ returned action
  | allows ↦ finish_options (record o { allow_network = true })
  | takes_value ↦ thrown (codes "Missing value for " ++ arg)
]
parse_options (arg ∷ value ∷ rest) o = elim (word arg) [
  | ends action ↦ returned action
  | allows ↦ parse_options (value ∷ rest) (record o { allow_network = true })
  | takes_value ↦ elim (set_option arg value o) [
    | returned o' ↦ parse_options rest o'
    | thrown e ↦ thrown e
  ]
]
