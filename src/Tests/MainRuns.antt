-- ===== src/Tests/MainRuns.antt =====
-- A run of src/main.cpp.
use wirelab_experiments.Common.{
  ◌≡◌, ◌<◌, true, refl, List, [], ◌∷◌, Text, codes, length, text_eq, from_chars, scan, digit,
  returned,
}
use wirelab_experiments.Main.{
  Options, default_options, start_appliance, set_port, set_option, word, finish_options,
  parse_options,
}
use wirelab_experiments.Main.Accepted.{HasPort, parse_options-start_appliance}

abbrev arguments : List Text
arguments =
    codes "--port"
    ∷ codes "9000"
    ∷ codes "--allow-network"
    ∷ codes "--token-file"
    ∷ codes "token"
    ∷ []

abbrev chosen : Options
chosen = record default_options { port = 9000; token_file = codes "token"; allow_network = true }

arguments-parse_options :
    parse_options arguments default_options ≡ returned (start_appliance chosen)
unfolding parse_options word set_option set_port finish_options text_eq from_chars scan digit
arguments-parse_options = refl

parse_options-start_appliance_example : HasPort chosen × (0 < length chosen.token_file)
parse_options-start_appliance_example =
    parse_options-start_appliance arguments chosen arguments-parse_options
