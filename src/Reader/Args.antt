-- ===== src/Reader/Args.antt =====
-- services/dual-reader/src/main.cpp: the arguments of the service.
use scylla_cluster_sync_cxx.Prelude.{
  ℕ, ◌||◌, Option, none, some, List, [], ◌∷◌, if◌then◌else◌, Text, codes, text_eq,
}
use scylla_cluster_sync_cxx.Prelude.Stoi.{stoi, to_u16}

pub record Args : Type 0 where
  pub config_path : Text
  pub port : ℕ

abbrev pub default_args : Args
default_args = record { config_path = codes "config/dual-reader.yaml"; port = 8082 }

-- The loop of parse_args; `none` stands for an exception of std::stoi. An option that stands last has
-- no value, and is ignored, as every other argument is.
unfoldable pub parse_from : Args → List Text → Option Args
unfolding to_u16
parse_from args [] = some args
parse_from args (a ∷ []) = some args
parse_from args (a ∷ v ∷ rest) =
    if text_eq a (codes "--config") || text_eq a (codes "-c")
    then parse_from (record args { config_path = v }) rest
    else if text_eq a (codes "--port") || text_eq a (codes "-p")
    then elim (stoi v) [ none ↦ none | some n ↦ parse_from (record args { port = to_u16 n }) rest ]
    else parse_from args (v ∷ rest)

unfoldable pub parse_args : List Text → Option Args
unfolding parse_from
parse_args arguments = parse_from default_args arguments
