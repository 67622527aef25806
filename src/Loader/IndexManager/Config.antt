-- ===== src/Loader/IndexManager/Config.antt =====
-- The indexes that load_indexes_from_config reads (services/sstable-loader/src/index_manager.cpp).
use scylla_cluster_sync_cxx.Prelude.{
  ◌≡◌, refl, ap, ◌∙◌, Bool, true, false, not, ◌&&◌, ◌||◌, Option, none, some, List, [], ◌∷◌,
  if◌then◌else◌, arith, Text, codes, map,
}
use scylla_cluster_sync_cxx.Svckit.Config.{
  Yaml, ◌>>=◌, File, absent, malformed, rooted, Loaded, loaded, config_error, yaml_exception,
  from_option, load_config_yaml,
}
use scylla_cluster_sync_cxx.Svckit.Config.Laws.{from_option_loaded}
use scylla_cluster_sync_cxx.Loader.IndexManager.{IndexInfo}

module _ (Y : Yaml) where
  -- `as<std::string>(fallback)`
  text_or : Y.Node → Text → Text
  text_or node fallback = elim (Y.as_text node) [ none ↦ fallback | some t ↦ t ]

  -- The body of the loop; `none` stands for an exception of yaml-cpp.
  unfoldable pub read_index : Y.Node → Option IndexInfo
  unfolding text_or
  read_index node =
      if Y.has_keys node
      then (Y.as_text (Y.get node (codes "keyspace")) >>= λ keyspace.
          Y.as_text (Y.get node (codes "table")) >>= λ table.
          Y.as_text (Y.get node (codes "index_name")) >>= λ index_name.
          Y.as_text (Y.get node (codes "column_name")) >>= λ column_name. some (record {
            keyspace = keyspace;
            table = table;
            index_name = index_name;
            column_name = column_name;
            index_type = text_or (Y.get node (codes "index_type")) (codes "secondary");
          }))
      else none

  read_indexes : List Y.Node → Option (List IndexInfo)
  unfolding read_index
  read_indexes [] = some []
  read_indexes (n ∷ ns) = elim (read_index n) [
    | none ↦ none
    | some i ↦ elim (read_indexes ns) [ none ↦ none | some is ↦ some (i ∷ is) ]
  ]

  indexes_of : Loaded Y.Node → Loaded (List IndexInfo)
  unfolding read_indexes
  indexes_of (config_error message) = config_error message
  indexes_of yaml_exception = yaml_exception
  indexes_of (loaded root) =
      if Y.is_defined root && Y.is_sequence root
      then from_option (read_indexes (Y.items root))
      else config_error (codes "Index config must be a YAML sequence")

  unfoldable pub load_indexes_from_config : Text → File Y.Node → Loaded (List IndexInfo)
  unfolding load_config_yaml indexes_of
  load_indexes_from_config path file = indexes_of (load_config_yaml Y path file)

  -- An index and those behind it, if they are what the nodes give.
  collected :
      (o : Option IndexInfo) (r : Option (List IndexInfo)) (is : List IndexInfo)
      (behind : List (Option IndexInfo))
      → ((js : List IndexInfo) → r ≡ some js → behind ≡ map some js)
      → elim o [ none ↦ none | some i ↦ elim r [ none ↦ none | some js ↦ some (i ∷ js) ] ] ≡ some is
      → o ∷ behind ≡ map some is
  collected none r is behind rest h = cc
  collected (some i) none is behind rest h = cc
  collected (some i) (some js) is behind rest h =
      let same : i ∷ js ≡ is = cc in ap (λ os. some i ∷ os) (rest js refl) ∙ ap (map some) same

  read_indexes-map :
      (ns : List Y.Node) (is : List IndexInfo)
      → read_indexes ns ≡ some is
      → map read_index ns ≡ map some is
  unfolding read_indexes
  read_indexes-map [] [] h = refl
  read_indexes-map [] (i ∷ is) h = cc
  read_indexes-map (n ∷ ns) is h =
      collected (read_index n) (read_indexes ns) is (map read_index ns) (read_indexes-map ns) h

  from_sequence :
      (b : Bool) (ns : List Y.Node) (is : List IndexInfo)
      → (if b
          then from_option (read_indexes ns)
          else config_error (codes "Index config must be a YAML sequence"))
        ≡ loaded is
      → (b ≡ true) × (read_indexes ns ≡ some is)
  from_sequence true ns is h = (refl, from_option_loaded Y (read_indexes ns) is h)
  from_sequence false ns is h = cc

  from_file :
      (b : Bool) (message : Text) (root : Y.Node) (is : List IndexInfo)
      → indexes_of (if b then config_error message else loaded root) ≡ loaded is
      → indexes_of (loaded root) ≡ loaded is
  unfolding indexes_of
  from_file true message root is h = cc
  from_file false message root is h = h

  -- Indexes are loaded only from a file whose root is a sequence, and then they are those of its
  -- items, one for one and in their order: an item that lacks a name loads none at all.
  load_indexes_from_config-loaded :
      (path : Text) (file : File Y.Node) (is : List IndexInfo)
      → load_indexes_from_config path file ≡ loaded is
      → (root : Y.Node) × (file ≡ rooted root)
        × (Y.is_sequence root ≡ true)
        × (map read_index (Y.items root) ≡ map some is)
  unfolding load_indexes_from_config load_config_yaml indexes_of
  load_indexes_from_config-loaded path absent is h = cc
  load_indexes_from_config-loaded path (malformed what) is h = cc
  load_indexes_from_config-loaded path (rooted root) is h =
      let found = from_file (not (Y.is_defined root) || Y.is_null root) _ root is h in
      let (listed, read) =
        from_sequence (Y.is_defined root && Y.is_sequence root) (Y.items root) is found in
      (root, refl, ground arith, read_indexes-map (Y.items root) is read)
