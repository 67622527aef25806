-- ===== src/Dashboard/ApiClient.antt =====
-- services/tui-dash/src/api.cpp: the client of the loader's /status. `Reply` is what cpp-httplib gives
-- for the GET: an error's text, or a response.
pub mod Laws
use scylla_cluster_sync_cxx.Prelude.{
  ℕ, zero, suc, ◌+◌, ◌-◌, ◌%◌, ◌^◌, Bool, true, false, ◌&&◌, ◌==◌, not, Option, none, some, List,
  [], ◌∷◌, ◌++◌, ltb, if◌then◌else◌, Text, codes, decimal, split_first, drop,
}
use scylla_cluster_sync_cxx.Prelude.Int.{ℤ, pos}
use scylla_cluster_sync_cxx.Prelude.Stoi.{stoi}
use scylla_cluster_sync_cxx.Writer.Cql.Query.{find_word}
use scylla_cluster_sync_cxx.Wire.{Floats, Json, Response, value}
use scylla_cluster_sync_cxx.Dashboard.State.{DashboardState, add_log, update_elapsed}

pub data Reply (Body : Type 0) : Type 0 where
  unreachable : Text → Reply Body
  answered : Response Body → Reply Body

pub record ApiClient : Type 0 where
  pub base_url : Text
  pub host : Text
  pub port : ℤ
  pub connected : Bool
  pub last_error : Text

-- A character in front of what is left of the text without its trailing slashes.
keep_inner : ℕ → Text → Text
keep_inner c [] = if c == b'/' then [] else c ∷ []
keep_inner c (d ∷ t) = c ∷ d ∷ t

-- `while (!url.empty() && url.back() == '/') url.pop_back();`
unfoldable pub strip_slashes : Text → Text
unfolding keep_inner
strip_slashes [] = []
strip_slashes (c ∷ s) = keep_inner c (strip_slashes s)

-- From `host_start` on: what stands behind the first "://", or all of the text.
unfoldable pub behind_scheme : Text → Text
behind_scheme url = elim (find_word (codes "://") url) [ none ↦ url | some i ↦ drop (i + 3) url ]

-- The constructor; `none` stands for an exception of std::stoi.
unfoldable pub construct : Text → Option ApiClient
unfolding strip_slashes behind_scheme
construct base_url =
    let rest = behind_scheme (strip_slashes base_url) in
    let client : Text → ℤ → ApiClient = λ host port. record {
      base_url = base_url;
      host = host;
      port = port;
      connected = false;
      last_error = codes "";
    } in
    elim (split_first b':' rest) [
      | none ↦ some (client rest (pos 9092))
      | some (host, port) ↦ elim (stoi port) [ none ↦ none | some n ↦ some (client host n) ]
    ]

module _ (F : Floats) (J : Json F.Double) where
  -- The logs of update_state, in order: whether each is made, its level and its message. They read
  -- the state before and the state with the new numbers, of which a log changes nothing.
  pub transitions : Text → DashboardState F → DashboardState F → List (Bool × Text × Text)
  transitions base_url old s =
      let failed = s.failed_rows - old.failed_rows in
      (
        not old.is_running && s.is_running,
        codes "INFO",
        codes "Connected to sstable-loader at " ++ base_url,
      )
      ∷ (
        old.is_running && (not s.is_running && ltb 0 s.migrated_rows),
        codes "INFO",
        codes "Migration completed",
      )
      ∷ (not old.is_paused && s.is_paused, codes "WARN", codes "Migration paused")
      ∷ (
        old.is_paused && (not s.is_paused && s.is_running),
        codes "INFO",
        codes "Migration resumed",
      )
      ∷ (
        ltb old.failed_rows s.failed_rows && ltb 100 failed,
        codes "WARN",
        decimal 20 failed ++ codes " rows failed",
      )
      ∷ []

  pub log_each : ℕ → List (Bool × Text × Text) → DashboardState F → DashboardState F
  unfolding add_log
  log_each time [] s = s
  log_each time ((now, level, message) ∷ rest) s =
      log_each time rest (if now then add_log F time level message s else s)

  -- An assignment from the response; `none` where reading it throws.
  pub set_field :
      {A : Type 0}
      → Option A
      → (A → DashboardState F → DashboardState F)
      → DashboardState F
      → Option (DashboardState F)
  set_field read put s = elim read [ none ↦ none | some a ↦ some (put a s) ]

  -- `m.value(key, uint64_t{0})`, `m.value(key, uint32_t{0})`, `m.value(key, false)`, `m.value(key, 0.0)`
  pub count_at : J.Value → Text → Option ℕ
  unfolding value
  count_at m key = value J J.as_count m key 0

  pub small_at : J.Value → Text → Option ℕ
  unfolding value
  small_at m key = elim (value J J.as_count m key 0) [ none ↦ none | some n ↦ some (n % 2 ^ 32) ]

  pub flag_at : J.Value → Text → Option Bool
  unfolding value
  flag_at m key = value J J.as_flag m key false

  pub real_at : J.Value → Text → Option F.Double
  unfolding value
  real_at m key = value J J.as_real m key (F.of_nat 0)

  -- The assignments of update_state, in order.
  pub assignments : J.Value → List (DashboardState F → Option (DashboardState F))
  unfolding set_field count_at small_at flag_at real_at
  assignments m =
      set_field (count_at m (codes "total_rows")) (λ n s. record s { total_rows = n })
      ∷ set_field (count_at m (codes "migrated_rows")) (λ n s. record s { migrated_rows = n })
      ∷ set_field (count_at m (codes "failed_rows")) (λ n s. record s { failed_rows = n })
      ∷ set_field (count_at m (codes "filtered_rows")) (λ n s. record s { filtered_rows = n })
      ∷ set_field (real_at m (codes "throughput_rows_per_sec")) (λ x s. record s { throughput = x })
      ∷ set_field (real_at m (codes "progress_percent")) (λ x s. record s { progress_percent = x })
      ∷ set_field (small_at m (codes "tables_total")) (λ n s. record s { tables_total = n })
      ∷ set_field (small_at m (codes "tables_completed")) (λ n s. record s { tables_completed = n })
      ∷ set_field (small_at m (codes "tables_skipped")) (λ n s. record s { tables_skipped = n })
      ∷ set_field (flag_at m (codes "is_running")) (λ b s. record s { is_running = b })
      ∷ set_field (flag_at m (codes "is_paused")) (λ b s. record s { is_paused = b })
      ∷ set_field (real_at m (codes "elapsed_secs")) (λ x s. record s { elapsed_secs = x })
      ∷ []

  -- The state after the assignments, or after those before the first that throws.
  pub assign_in_order :
      List (DashboardState F → Option (DashboardState F))
      → DashboardState F
      → Bool × DashboardState F
  assign_in_order [] s = (true, s)
  assign_in_order (a ∷ rest) s = elim (a s) [
    | none ↦ (false, s)
    | some s' ↦ assign_in_order rest s'
  ]

  pub update_from : ℕ → Text → J.Value → DashboardState F → Bool × DashboardState F
  unfolding assignments assign_in_order transitions log_each update_elapsed
  update_from time base_url m s =
      let (done, s1) = assign_in_order (assignments m) s in
      let s2 = update_elapsed F s1 in
      if done then (true, log_each time (transitions base_url s s2) s2) else (false, s1)

  -- update_state: whether it came to an end, and the state.
  unfoldable pub update_state : ℕ → Text → J.Value → DashboardState F → Bool × DashboardState F
  unfolding update_from
  update_state time base_url body s = elim (J.at (codes "migration") body) [
    | none ↦ (true, s)
    | some m ↦ update_from time base_url m s
  ]

  -- The handler of an exception while the response is read; `what` is the exception's text.
  pub unreadable : ℕ → Text → ApiClient → DashboardState F → ApiClient × DashboardState F
  unfolding add_log
  unreadable time what client s =
      let error = codes "Parse error: " ++ what in
      (
        record client { connected = false; last_error = error },
        add_log F time (codes "ERROR") (codes "Failed to parse API response: " ++ error) s,
      )

  pub read_body : ℕ → Text → J.Body → ApiClient → DashboardState F → ApiClient × DashboardState F
  unfolding unreadable update_state
  read_body time what body client s = elim (J.parse body) [
    | none ↦ unreadable time what client s
    | some v ↦
        let (done, s1) = update_state time client.base_url v s in
        let ready = record client { connected = true; last_error = codes "" } in
        if done then (ready, s1) else unreadable time what ready s1
  ]

  unfoldable pub fetch_status :
      ℕ → Text → Reply J.Body → ApiClient → DashboardState F → ApiClient × DashboardState F
  unfolding read_body add_log
  fetch_status time what (unreachable error) client s = (
    record client { connected = false },
    if client.connected
        then add_log F time (codes "WARN") (codes "Lost connection to sstable-loader: " ++ error) s
        else s,
  )
  fetch_status time what (answered r) client s =
      if r.status == 200 then read_body time what r.body client s else (
        record client { connected = false; last_error = codes "HTTP " ++ decimal 20 r.status },
        s,
      )
