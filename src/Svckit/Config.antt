-- ===== src/Svckit/Config.antt =====
-- svckit/src/config.cpp: the parts of a configuration that the services share. yaml-cpp is a parameter,
-- `Yaml`; `none` stands for one of its exceptions.
pub mod Laws
pub mod Tests
use scylla_cluster_sync_cxx.Prelude.{
  ℕ, ◌≡◌, Bool, false, ◌&&◌, ◌||◌, not, Option, none, some, List, [], ◌∷◌, ◌++◌, if◌then◌else◌,
  Text, codes, is_empty,
}
use scylla_cluster_sync_cxx.Svckit.Database.{DatabaseConfig}

-- `get n k` is `n[k]`, which throws where `has_keys` fails: of a scalar. `items`
-- are what a loop over the node visits. `as_number w` reads a w-bit unsigned number.
-- `hundredth` is the literal 0.01f.
pub record Yaml : Type 1 where
  pub Node : Type 0
  pub Float : Type 0
  pub is_defined : Node → Bool
  pub is_null : Node → Bool
  pub is_map : Node → Bool
  pub is_sequence : Node → Bool
  pub has_keys : Node → Bool
  pub get : Node → Text → Node
  pub items : Node → List Node
  pub as_text : Node → Option Text
  pub as_number : ℕ → Node → Option ℕ
  pub as_flag : Node → Option Bool
  pub as_float : Node → Option Float
  pub hundredth : Float

pub record ObservabilityConfig : Type 0 where
  pub metrics_port : ℕ
  pub log_level : Text
  pub jaeger_endpoint : Option Text

-- A step that may throw, and the rest.
infixl 5 ◌>>=◌
abbrev pub ◌>>=◌ : {A B : Type 0} → Option A → (A → Option B) → Option B
none >>= f = none
some a >>= f = f a

abbrev pub default_database : DatabaseConfig
default_database = record {
  driver = codes "";
  hosts = [];
  port = 9042;
  keyspace = codes "";
  username = none;
  password = none;
  connection_timeout_ms = 5000;
  request_timeout_ms = 30000;
  pool_size = 8;
  speculative_execution = false;
  speculative_delay_ms = 100;
}

abbrev pub default_observability : ObservabilityConfig
default_observability = record {
  metrics_port = 9092;
  log_level = codes "info";
  jaeger_endpoint = none;
}

module _ (Y : Yaml) where
  -- `!node || !node.IsMap()`
  unfoldable pub is_section : Y.Node → Bool
  is_section node = Y.is_defined node && Y.is_map node

  -- `if (node[k]) x = node[k].as<T>(fallback);`
  unfoldable pub read_or : {A : Type 0} → (Y.Node → Option A) → Y.Node → Text → A → A → A
  read_or convert node k fallback x =
      let field = Y.get node k in
      if Y.is_defined field then elim (convert field) [ none ↦ fallback | some a ↦ a ] else x

  -- `if (node[k]) x = node[k].as<std::string>();`
  unfoldable pub read_text : Y.Node → Text → Option Text → Option (Option Text)
  read_text node k x =
      let field = Y.get node k in
      if Y.is_defined field
      then elim (Y.as_text field) [ none ↦ none | some t ↦ some (some t) ]
      else some x

  -- The loop that converts each item.
  unfoldable pub texts : List Y.Node → Option (List Text)
  texts [] = some []
  texts (n ∷ ns) = elim (Y.as_text n) [
    | none ↦ none
    | some t ↦ elim (texts ns) [ none ↦ none | some ts ↦ some (t ∷ ts) ]
  ]

  -- `if (node[k]) for (n : node[k]) xs.push_back(n.as<std::string>());`
  unfoldable pub read_texts : Y.Node → Text → Option (List Text)
  unfolding texts
  read_texts node k =
      let field = Y.get node k in if Y.is_defined field then texts (Y.items field) else some []

  -- The same, with `&& node[k].IsSequence()`.
  unfoldable pub read_sequence : Y.Node → Text → Option (List Text)
  unfolding texts
  read_sequence node k =
      let field = Y.get node k in
      if Y.is_defined field && Y.is_sequence field then texts (Y.items field) else some []

  text_or : Option Text → Text → Text
  text_or none d = d
  text_or (some t) d = t

  or_localhost : List Text → List Text
  or_localhost [] = codes "localhost" ∷ []
  or_localhost (h ∷ hs) = h ∷ hs

  read_database : Y.Node → Option DatabaseConfig
  unfolding read_or read_text read_texts text_or or_localhost
  read_database node = do
    hosts ← read_texts node (codes "hosts")
    keyspace ← read_text node (codes "keyspace") none
    username ← read_text node (codes "username") none
    password ← read_text node (codes "password") none
    some (record {
      driver = read_or Y.as_text node (codes "driver") (codes "scylla") (codes "");
      hosts = or_localhost hosts;
      port = read_or (Y.as_number 16) node (codes "port") 9042 9042;
      keyspace = text_or keyspace (codes "");
      username = username;
      password = password;
      connection_timeout_ms =
          read_or (Y.as_number 32) node (codes "connection_timeout_ms") 5000 5000;
      request_timeout_ms = read_or (Y.as_number 32) node (codes "request_timeout_ms") 30000 30000;
      pool_size = read_or (Y.as_number 32) node (codes "pool_size") 8 8;
      speculative_execution = read_or Y.as_flag node (codes "speculative_execution") false false;
      speculative_delay_ms = read_or (Y.as_number 32) node (codes "speculative_delay_ms") 100 100;
    })

  -- parse_database_config
  unfoldable pub load_database_config : Y.Node → Option DatabaseConfig
  unfolding is_section read_database
  load_database_config node = if is_section node then read_database node else some default_database

  read_observability : Y.Node → Option ObservabilityConfig
  unfolding read_or read_text
  read_observability node = do
    jaeger ← read_text node (codes "jaeger_endpoint") none
    some (record {
      metrics_port = read_or (Y.as_number 16) node (codes "metrics_port") 9092 9092;
      log_level = read_or Y.as_text node (codes "log_level") (codes "info") (codes "info");
      jaeger_endpoint = jaeger;
    })

  -- parse_observability_config
  unfoldable pub load_observability_config : Y.Node → Option ObservabilityConfig
  unfolding is_section read_observability
  load_observability_config node =
      if is_section node then read_observability node else some default_observability

-- What load_config_yaml finds at a path: no file, a file that LoadFile refuses with this text, or one
-- with this root.
pub data File (Node : Type 0) : Type 0 where
  absent : File Node
  malformed : Text → File Node
  rooted : Node → File Node

-- A configuration, a ConfigError, or an exception of yaml-cpp that is passed on.
pub data Loaded (A : Type 0) : Type 0 where
  loaded : A → Loaded A
  config_error : Text → Loaded A
  yaml_exception : Loaded A

abbrev pub from_option : {A : Type 0} → Option A → Loaded A
from_option none = yaml_exception
from_option (some a) = loaded a

-- The environment's variable, where it is set, over the configuration's value.
unfoldable pub override_with : Option Text → Option Text → Option Text
override_with none x = x
override_with (some v) x = some v

unfoldable pub with_credentials : Option Text → Option Text → DatabaseConfig → DatabaseConfig
unfolding override_with
with_credentials user pass c = record c {
  username = override_with user c.username;
  password = override_with pass c.password;
}

module _ (Y : Yaml) where
  -- load_yaml_root: the ConfigError, or the root.
  unfoldable pub load_config_yaml : Text → File Y.Node → Loaded Y.Node
  load_config_yaml path absent = config_error (codes "Config file not found: " ++ path)
  load_config_yaml path (malformed what) =
      config_error (codes "YAML parse error in '" ++ (path ++ (codes "': " ++ what)))
  load_config_yaml path (rooted root) =
      if not (Y.is_defined root) || Y.is_null root
      then config_error (codes "Empty config file: " ++ path)
      else loaded root

  -- `root[...]`, once for all of from_yaml: the operator throws if the root is a scalar.
  unfoldable pub with_root : {A : Type 0} → Loaded Y.Node → (Y.Node → Option A) → Loaded A
  with_root (loaded root) read = if Y.has_keys root then from_option (read root) else yaml_exception
  with_root (config_error message) read = config_error message
  with_root yaml_exception read = yaml_exception
