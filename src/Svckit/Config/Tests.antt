-- ===== src/Svckit/Config/Tests.antt =====
-- A concrete YAML library, whose nodes are trees; a raw tree is a node that is not defined.
use scylla_cluster_sync_cxx.Prelude.{
  ℕ, ◌^◌, ◌<◌, ◌≡◌, Bool, true, false, not, refl, arith, Option, none, some, List, [], ◌∷◌, ltb,
  if◌then◌else◌, Text, codes, text_eq,
}
use scylla_cluster_sync_cxx.Wire.Tests.{
  Tree, Items, no_item, item, no_field, field, raw, count, text, array, object, at_tree, count_of,
  flag_of, is_object_tree,
}
use scylla_cluster_sync_cxx.Svckit.Database.{DatabaseConfig}
use scylla_cluster_sync_cxx.Svckit.Config.{
  Yaml, is_section, read_or, texts, load_database_config, default_database,
}
use scylla_cluster_sync_cxx.Svckit.Config.Laws.{NumbersFit, IsUsable, load_database_config-IsUsable}

abbrev is_raw : Tree → Bool
is_raw (raw t) = true
is_raw other = false

abbrev is_array : Tree → Bool
is_array (array vs) = true
is_array other = false

abbrev list_of : Items → List Tree
list_of no_item = []
list_of (item v vs) = v ∷ list_of vs

abbrev items_of : Tree → List Tree
items_of (array vs) = list_of vs
items_of other = []

abbrev text_of : Tree → Option Text
text_of (text t) = some t
text_of other = none

abbrev field_of : Tree → Text → Tree
field_of n k = elim (at_tree k n) [ none ↦ raw [] | some v ↦ v ]

abbrev fitting : ℕ → Option ℕ → Option ℕ
fitting width none = none
fitting width (some n) = if ltb n (2 ^ width) then some n else none

abbrev pub nodes : Yaml
nodes = record {
  Node = Tree;
  Float = ℕ;
  is_defined = λ n. not (is_raw n);
  is_null = λ n. false;
  is_map = is_object_tree;
  is_sequence = is_array;
  has_keys = λ n. true;
  get = field_of;
  items = items_of;
  as_text = text_of;
  as_number = λ width n. fitting width (count_of n);
  as_flag = flag_of;
  as_float = count_of;
  hundredth = 1;
}

fitting_fits : (width : ℕ) (o : Option ℕ) (n : ℕ) → fitting width o ≡ some n → n < 2 ^ width
fitting_fits width none n h = cc
fitting_fits width (some m) n h = ground arith

pub nodes-NumbersFit : NumbersFit nodes
nodes-NumbersFit = record { fits = λ width node n. fitting_fits width (count_of node) n }

abbrev pub cluster_node : Tree
cluster_node = object (
    field (codes "hosts") (array (item (text (codes "h1")) no_item))
      (field (codes "port") (count 9043) no_field))

abbrev pub cluster_config : DatabaseConfig
cluster_config = record default_database { driver = codes ""; hosts = codes "h1" ∷ []; port = 9043 }

load_database_config-IsUsable_example : IsUsable (is_section nodes cluster_node) cluster_config
unfolding load_database_config is_section read_or texts text_eq
load_database_config-IsUsable_example =
    load_database_config-IsUsable nodes cluster_node cluster_config nodes-NumbersFit refl
