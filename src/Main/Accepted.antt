-- ===== src/Main/Accepted.antt =====
-- With which options src/main.cpp starts the appliance.
use wirelab_experiments.Common.{
  ◌≡◌, ◌≤◌, ◌<◌, ◌≢◌, true, List, [], ◌∷◌, Text, length, Outcome-cases, inl, inr, returned, arith,
}
use wirelab_experiments.Main.{
  Options, default_options, start_appliance, ends, set_port, set_option, word, finish_options,
  parse_options,
}

abbrev pub HasPort : Options → Type 0
HasPort o = (1 ≤ o.port) × (o.port ≤ 65535)

set_port-HasPort : (value : Text) (o o' : Options) → set_port value o ≡ returned o' → HasPort o'
unfolding set_port
set_port-HasPort value o o' h = ground arith

set_option-HasPort :
    (arg value : Text) (o o' : Options)
    → HasPort o
    → set_option arg value o ≡ returned o'
    → HasPort o'
unfolding set_option
set_option-HasPort arg value o o' p h = ground (arith, set_port-HasPort value o o')

finish_options-HasPort :
    (o o' : Options)
    → HasPort o
    → finish_options o ≡ returned (start_appliance o')
    → HasPort o' × (0 < length o'.token_file)
unfolding finish_options
finish_options-HasPort o o' p h = ground arith

word-action : (arg : Text) (o : Options) → word arg ≢ ends (start_appliance o)
unfolding word
word-action arg o h = ground arith

parse_from :
    (args : List Text) (o o' : Options)
    → HasPort o
    → parse_options args o ≡ returned (start_appliance o')
    → HasPort o' × (0 < length o'.token_file)
unfolding parse_options
parse_from [] o o' p h = finish_options-HasPort o o' p h
parse_from (arg ∷ []) o o' p h =
    ground
      (arith, word-action arg o', finish_options-HasPort (record o { allow_network = true }) o')
parse_from (arg ∷ value ∷ rest) o o' p h = elim (Outcome-cases (set_option arg value o)) [
  | inl (o1, e) ↦ ground (
    arith,
    word-action arg o',
    parse_from (value ∷ rest) (record o { allow_network = true }) o',
    set_option-HasPort arg value o o1 p e,
    parse_from rest o1 o',
  )
  | inr (x, e) ↦
      ground (
        arith,
        word-action arg o',
        parse_from (value ∷ rest) (record o { allow_network = true }) o',
      )
]

-- Whatever the arguments are, if `main` starts the appliance, then with a port of 1 to 65535 and a
-- token file that is named.
pub parse_options-start_appliance :
    (args : List Text) (o : Options)
    → parse_options args default_options ≡ returned (start_appliance o)
    → HasPort o × (0 < length o.token_file)
parse_options-start_appliance args o h =
    parse_from args default_options o (omega arith, omega arith) h
