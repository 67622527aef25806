-- ===== src/Svckit/Config/Laws.antt =====
-- What holds of every configuration that is read (svckit/src/config.cpp).
use scylla_cluster_sync_cxx.Prelude.{
  ℕ, ◌^◌, ◌<◌, ◌≡◌, refl, inl, inr, Bool, true, false, Option, none, some, List, [], ◌∷◌, arith,
  if◌then◌else◌, Text, codes, is_empty, not, if_both, Holds, Holds-some, Option-cases,
}
use scylla_cluster_sync_cxx.Svckit.Database.{DatabaseConfig}
use scylla_cluster_sync_cxx.Svckit.Config.{
  Yaml, ◌>>=◌, is_section, File, absent, malformed, rooted, loaded, from_option, load_config_yaml,
  with_root, read_or, read_text, read_texts, or_localhost, read_database, load_database_config,
  default_database,
}

-- yaml-cpp converts a number only if it fits the type.
pub record NumbersFit (Y : Yaml) : Type 0 where
  pub fits : (width : ℕ) (node : Y.Node) (n : ℕ) → Y.as_number width node ≡ some n → n < 2 ^ width

pub Holds-bind {ℓ} :
    {A B : Type 0} (P : B → Type ℓ) (o : Option A) (f : A → Option B)
    → ((a : A) → o ≡ some a → Holds P (f a))
    → Holds P (o >>= f)
Holds-bind P none f h = tt
Holds-bind P (some a) f h = h a refl

-- What a configuration of a cluster has; `section` says whether it was read from a map.
pub record IsUsable (section : Bool) (c : DatabaseConfig) : Type 0 where
  pub hosts : is_empty c.hosts ≡ not section
  pub port : c.port < 2 ^ 16
  pub connection_timeout : c.connection_timeout_ms < 2 ^ 32
  pub request_timeout : c.request_timeout_ms < 2 ^ 32
  pub pool_size : c.pool_size < 2 ^ 32
  pub speculative_delay : c.speculative_delay_ms < 2 ^ 32

module _ (Y : Yaml) where
  or_localhost_nonempty : (hosts : List Text) → is_empty (or_localhost Y hosts) ≡ false
  unfolding or_localhost
  or_localhost_nonempty [] = refl
  or_localhost_nonempty (h ∷ hs) = refl

  pub read_or_fits :
      (width : ℕ) (node : Y.Node) (k : Text) (fallback x : ℕ)
      → NumbersFit Y
      → fallback < 2 ^ width
      → x < 2 ^ width
      → read_or Y (Y.as_number width) node k fallback x < 2 ^ width
  unfolding read_or
  read_or_fits width node k fallback x law small given =
      let field = Y.get node k in
      if_both (λ n. n < 2 ^ width) (Y.is_defined field) _ x
        (elim (Option-cases (Y.as_number width field)) [
          | inl refused ↦ rw refused small
          | inr (n, read) ↦ rw read (law.fits width field n read)
        ])
        given

  read_database-IsUsable :
      (node : Y.Node) → NumbersFit Y → Holds (IsUsable true) (read_database Y node)
  unfolding read_database
  read_database-IsUsable node law =
      Holds-bind (IsUsable true) (read_texts Y node (codes "hosts")) _ (λ hosts _.
        Holds-bind (IsUsable true) (read_text Y node (codes "keyspace") none) _ (λ keyspace _.
          Holds-bind (IsUsable true) (read_text Y node (codes "username") none) _ (λ username _.
            Holds-bind (IsUsable true) (read_text Y node (codes "password") none) _ (λ password _.
              record {
                hosts = or_localhost_nonempty hosts;
                port =
                    read_or_fits 16 node (codes "port") 9042 9042 law (omega arith) (omega arith);
                connection_timeout =
                    read_or_fits 32 node (codes "connection_timeout_ms") 5000 5000 law (omega arith)
                      (omega arith);
                request_timeout =
                    read_or_fits 32 node (codes "request_timeout_ms") 30000 30000 law (omega arith)
                      (omega arith);
                pool_size =
                    read_or_fits 32 node (codes "pool_size") 8 8 law (omega arith) (omega arith);
                speculative_delay =
                    read_or_fits 32 node (codes "speculative_delay_ms") 100 100 law (omega arith)
                      (omega arith);
              }))))

  -- If a number is read only where it fits its type: the configuration of a cluster has numbers that
  -- fit theirs, and it names a host exactly if it was read from a map. A section that is absent or
  -- no map has no host, not even the default one.
  pub load_database_config-IsUsable :
      (node : Y.Node) (c : DatabaseConfig)
      → NumbersFit Y
      → load_database_config Y node ≡ some c
      → IsUsable (is_section Y node) c
  unfolding load_database_config
  load_database_config-IsUsable node c law h =
      Holds-some (IsUsable (is_section Y node)) (load_database_config Y node) c
        (by_section (is_section Y node)) h
    where
      by_section :
          (b : Bool)
          → Holds (IsUsable b) (if b then read_database Y node else some default_database)
      by_section true = read_database-IsUsable node law
      by_section false = record {
        hosts = refl;
        port = omega arith;
        connection_timeout = omega arith;
        request_timeout = omega arith;
        pool_size = omega arith;
        speculative_delay = omega arith;
      }

  -- Whether load_config_yaml gives the root.
  abbrev pub IsGood : Y.Node → Type 0
  IsGood root = (Y.is_defined root ≡ true) × (Y.is_null root ≡ false) × (Y.has_keys root ≡ true)

  pub from_option_loaded :
      {A : Type 0} (o : Option A) (a : A) → from_option o ≡ loaded a → o ≡ some a
  from_option_loaded none a h = cc
  from_option_loaded (some b) a h = cc

  -- A configuration is loaded only from a file with a root that is neither null nor a scalar, and by
  -- what is read of it.
  pub with_root-loaded :
      {A : Type 0} (path : Text) (file : File Y.Node) (read : Y.Node → Option A) (a : A)
      → with_root Y (load_config_yaml Y path file) read ≡ loaded a
      → (root : Y.Node) × (file ≡ rooted root) × IsGood root × (read root ≡ some a)
  unfolding with_root load_config_yaml
  with_root-loaded path absent read a h = cc
  with_root-loaded path (malformed what) read a h = cc
  with_root-loaded path (rooted root) read a h = (
    root,
    refl,
    (ground arith, ground arith, ground arith),
    from_option_loaded (read root) a (ground arith),
  )
