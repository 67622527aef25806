-- ===== src/Writer/Args/Laws.antt =====
-- The ports that the dual writer listens on (services/dual-writer/src/main.cpp).
use scylla_cluster_sync_cxx.Prelude.{
  ◌^◌, ◌<◌, ◌≡◌, ◌||◌, inl, inr, Option, none, some, List, [], ◌∷◌, arith, Text, codes, text_eq,
  Option-cases, after_last, if_both, Holds, Holds-some,
}
use scylla_cluster_sync_cxx.Prelude.Stoi.{stoi, to_u16_bound}
use scylla_cluster_sync_cxx.Writer.Args.{
  Args, default_args, bind_to, set_metrics_port, parse_from, parse_args,
}

abbrev HasPorts : Args → Type 0
HasPorts a = (a.bind_port < 2 ^ 16) × (a.metrics_port < 2 ^ 16)

bind_to-HasPorts : (addr : Text) (args : Args) → HasPorts args → Holds HasPorts (bind_to addr args)
unfolding bind_to
bind_to-HasPorts addr args h = elim (Option-cases (after_last b':' addr)) [
  | inl absent ↦ rw (absent, Holds, bind_to) h
  | inr (port, there) ↦ elim (Option-cases (stoi port)) [
    | inl refused ↦ rw (there, refused, Holds, bind_to) tt
    | inr (n, read) ↦ rw (there, read, Holds, bind_to) (to_u16_bound n, h.1)
  ]
]

set_metrics_port-HasPorts :
    (text : Text) (args : Args) → HasPorts args → Holds HasPorts (set_metrics_port text args)
unfolding set_metrics_port
set_metrics_port-HasPorts text args h = elim (Option-cases (stoi text)) [
  | inl refused ↦ rw (refused, Holds, set_metrics_port) tt
  | inr (n, read) ↦ rw (read, Holds, set_metrics_port) (h.0, to_u16_bound n)
]

-- A step of the loop: what is read, and then the rest.
then_rest :
    (o : Option Args) (rest : Args → Option Args)
    → Holds HasPorts o
    → ((a : Args) → HasPorts a → Holds HasPorts (rest a))
    → Holds HasPorts (elim o [ none ↦ none | some a ↦ rest a ])
then_rest none rest h k = tt
then_rest (some a) rest h k = k a h

parse_from-HasPorts :
    (args : Args) (as' : List Text) → HasPorts args → Holds HasPorts (parse_from args as')
unfolding parse_from
parse_from-HasPorts args [] h = h
parse_from-HasPorts args (a ∷ []) h = h
parse_from-HasPorts args (a ∷ v ∷ rest) h =
    let P : Option Args → Type 0 = Holds HasPorts in
    if_both P (text_eq a (codes "--config") || text_eq a (codes "-c")) _ _
      (parse_from-HasPorts (record args { config_path = v }) rest h)
      (if_both P (text_eq a (codes "--filter-config")) _ _
        (parse_from-HasPorts (record args { filter_config_path = v }) rest h)
        (if_both P (text_eq a (codes "--bind-addr")) _ _
          (then_rest (bind_to v args) (λ b. parse_from b rest) (bind_to-HasPorts v args h)
            (λ b k. parse_from-HasPorts b rest k))
          (if_both P (text_eq a (codes "--metrics-port")) _ _
            (then_rest (set_metrics_port v args) (λ b. parse_from b rest)
              (set_metrics_port-HasPorts v args h) (λ b k. parse_from-HasPorts b rest k))
            (parse_from-HasPorts args (v ∷ rest) h))))

-- Whatever the arguments are, the ports that parse_args gives fit 16 bits: a larger number in the
-- arguments is cut down to them.
pub parse_args_ports :
    (arguments : List Text) (args : Args)
    → parse_args arguments ≡ some args
    → (args.bind_port < 2 ^ 16) × (args.metrics_port < 2 ^ 16)
unfolding parse_args
parse_args_ports arguments args h =
    Holds-some HasPorts (parse_args arguments) args
      (parse_from-HasPorts default_args arguments (omega arith, omega arith)) h
