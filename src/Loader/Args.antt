-- ===== src/Loader/Args.antt =====
-- services/sstable-loader/src/main.cpp: the arguments of the service.
use scylla_cluster_sync_cxx.Prelude.{
  ℕ, suc, ◌-◌, ◌^◌, ◌||◌, Bool, true, false, Option, none, some, List, [], ◌∷◌, if◌then◌else◌, Text,
  codes, text_eq,
}
use scylla_cluster_sync_cxx.Prelude.Int.{ℤ, pos, negsuc}
use scylla_cluster_sync_cxx.Prelude.Stoi.{stoi, to_u16}

pub record Args : Type 0 where
  pub config_path : Text
  pub indexes_path : Text
  pub filter_config_path : Text
  pub port : ℕ
  pub skip_indexes : Bool
  pub skip_filters : Bool
  pub index_parallelism : ℕ
  pub auto_start : Bool

abbrev pub default_args : Args
default_args = record {
  config_path = codes "config/sstable-loader.yaml";
  indexes_path = codes "config/indexes.yaml";
  filter_config_path = codes "config/filter-rules.yaml";
  port = 8081;
  skip_indexes = false;
  skip_filters = false;
  index_parallelism = 4;
  auto_start = false;
}

-- `static_cast<size_t>` of an int.
unfoldable pub to_size : ℤ → ℕ
to_size (pos n) = n
to_size (negsuc n) = 2 ^ 64 - suc n

-- An option that takes no value.
set_flag : Text → Args → Option Args
set_flag a args =
    if text_eq a (codes "--skip-indexes")
    then some (record args { skip_indexes = true })
    else if text_eq a (codes "--skip-filters")
    then some (record args { skip_filters = true })
    else if text_eq a (codes "--auto-start")
    then some (record args { auto_start = true })
    else none

flagged : Text → Args → Args
unfolding set_flag
flagged a args = elim (set_flag a args) [ none ↦ args | some set ↦ set ]

-- The loop of parse_args; `none` stands for an exception of std::stoi. An option that stands last
-- without its value is ignored, as every other argument is.
unfoldable pub parse_from : Args → List Text → Option Args
unfolding flagged to_u16 to_size
parse_from args [] = some args
parse_from args (a ∷ []) = some (flagged a args)
parse_from args (a ∷ v ∷ rest) =
    if text_eq a (codes "--config") || text_eq a (codes "-c")
    then parse_from (record args { config_path = v }) rest
    else if text_eq a (codes "--indexes") || text_eq a (codes "-i")
    then parse_from (record args { indexes_path = v }) rest
    else if text_eq a (codes "--filter-config") || text_eq a (codes "-f")
    then parse_from (record args { filter_config_path = v }) rest
    else if text_eq a (codes "--port") || text_eq a (codes "-p")
    then elim (stoi v) [ none ↦ none | some n ↦ parse_from (record args { port = to_u16 n }) rest ]
    else if text_eq a (codes "--index-parallelism")
    then elim (stoi v) [
      | none ↦ none
      | some n ↦ parse_from (record args { index_parallelism = to_size n }) rest
    ]
    else parse_from (flagged a args) (v ∷ rest)

unfoldable pub parse_args : List Text → Option Args
unfolding parse_from
parse_args arguments = parse_from default_args arguments
