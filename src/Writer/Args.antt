-- ===== src/Writer/Args.antt =====
-- services/dual-writer/src/main.cpp: the arguments of the service.
pub mod Laws
use scylla_cluster_sync_cxx.Prelude.{
  ℕ, ◌-◌, ◌^◌, ◌<◌, ◌≡◌, ◌||◌, Bool, true, false, Option, none, some, List, [], ◌∷◌, arith,
  if◌then◌else◌, Text, codes, text_eq, after_last, take, length, if_both,
}
use scylla_cluster_sync_cxx.Prelude.Stoi.{stoi, to_u16, to_u16_bound}

pub record Args : Type 0 where
  pub config_path : Text
  pub filter_config_path : Text
  pub bind_addr : Text
  pub bind_port : ℕ
  pub metrics_port : ℕ

abbrev pub default_args : Args
default_args = record {
  config_path = codes "config/dual-writer-scylla.yaml";
  filter_config_path = codes "config/filter-rules.yaml";
  bind_addr = codes "0.0.0.0";
  bind_port = 9042;
  metrics_port = 9090;
}

-- The value of --bind-addr, split at its last colon; `none` stands for an exception of std::stoi.
unfoldable pub bind_to : Text → Args → Option Args
unfolding to_u16
bind_to addr args = elim (after_last b':' addr) [
  | none ↦ some (record args { bind_addr = addr })
  | some port ↦ elim (stoi port) [
    | none ↦ none
    | some n ↦ some (record args {
      bind_addr = take (length addr - length port - 1) addr;
      bind_port = to_u16 n;
    })
  ]
]

unfoldable pub set_metrics_port : Text → Args → Option Args
unfolding to_u16
set_metrics_port text args = elim (stoi text) [
  | none ↦ none
  | some n ↦ some (record args { metrics_port = to_u16 n })
]

-- The loop of parse_args over the arguments behind the program's name. An option that stands last has
-- no value, and is ignored, as every other argument is.
unfoldable pub parse_from : Args → List Text → Option Args
unfolding bind_to set_metrics_port
parse_from args [] = some args
parse_from args (a ∷ []) = some args
parse_from args (a ∷ v ∷ rest) =
    if text_eq a (codes "--config") || text_eq a (codes "-c")
    then parse_from (record args { config_path = v }) rest
    else if text_eq a (codes "--filter-config")
    then parse_from (record args { filter_config_path = v }) rest
    else if text_eq a (codes "--bind-addr")
    then elim (bind_to v args) [ none ↦ none | some bound ↦ parse_from bound rest ]
    else if text_eq a (codes "--metrics-port")
    then elim (set_metrics_port v args) [ none ↦ none | some set ↦ parse_from set rest ]
    else parse_from args (v ∷ rest)

unfoldable pub parse_args : List Text → Option Args
unfolding parse_from
parse_args arguments = parse_from default_args arguments
