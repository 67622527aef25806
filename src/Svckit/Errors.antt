-- ===== src/Svckit/Errors.antt =====
-- svckit/include/svckit/errors.hpp: the exception hierarchy, and results of code that may throw.
use scylla_cluster_sync_cxx.Prelude.{Text, Bool, true, false, codes, ◌++◌, ◌≡◌, refl, ◌⊎◌, inl, inr}

-- One constructor for each class; the argument is the constructor's `msg`.
pub data SyncError : Type 0 where
  sync_error : Text → SyncError
  database_error : Text → SyncError
  config_error : Text → SyncError
  migration_error : Text → SyncError
  validation_error : Text → SyncError
  filter_error : Text → SyncError

unfoldable pub what : SyncError → Text
what (sync_error m) = m
what (database_error m) = codes "[DatabaseError] " ++ m
what (config_error m) = codes "[ConfigError] " ++ m
what (migration_error m) = codes "[MigrationError] " ++ m
what (validation_error m) = codes "[ValidationError] " ++ m
what (filter_error m) = codes "[FilterError] " ++ m

-- What a call that may throw a SyncError gives back.
pub data Result {ℓ} (A : Type ℓ) : Type ℓ where
  ok : A → Result A
  throw : SyncError → Result A

-- Whether a `try` block reached its end.
abbrev pub is_ok {ℓ} : {A : Type ℓ} → Result A → Bool
is_ok (ok a) = true
is_ok (throw e) = false

pub Result-cases {ℓ} :
    {A : Type ℓ} (r : Result A) → ((a : A) × (r ≡ ok a)) ⊎ ((e : SyncError) × (r ≡ throw e))
Result-cases (ok a) = inl (a, refl)
Result-cases (throw e) = inr (e, refl)
