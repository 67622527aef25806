-- ===== src/Dashboard/ApiClient/Laws.antt =====
-- What the dashboard shows of the loader that it polls: the loader's /status
-- (services/sstable-loader/src/api.cpp) read by services/tui-dash/src/api.cpp.
use scylla_cluster_sync_cxx.Prelude.{
  ℕ, ◌<◌, ◌%◌, ◌^◌, ◌≡◌, ◌≢◌, ◌++◌, refl, ap, ◌∙◌, Bool, true, false, none, some, List, [], ◌∷◌,
  arith, if◌then◌else◌, Text, codes, decimal, find, text_eq,
}
use scylla_cluster_sync_cxx.Loader.Ranges.{SsTableLoader}
use scylla_cluster_sync_cxx.Loader.Api
use scylla_cluster_sync_cxx.Loader.Api.{MigrationStats, migration_fields, get_stats, progress_of}
use scylla_cluster_sync_cxx.Wire.{Floats, Json, IsLawful, Response}
use scylla_cluster_sync_cxx.Loader.Api.Sent.{IsReportable, status_sent}
use scylla_cluster_sync_cxx.Dashboard.State.{
  LogEntry, DashboardState, add_log, update_elapsed, clock_text,
}
use scylla_cluster_sync_cxx.Dashboard.ApiClient.{
  ApiClient, unreachable, answered, transitions, log_each, set_field, count_at, small_at, flag_at,
  real_at, assignments, assign_in_order, update_from, update_state, fetch_status, read_body,
}

module _ (F : Floats) (J : Json F.Double) (lawful : IsLawful J) where
  at_field :
      (m : List (Text × J.Value)) (k : Text) {v : J.Value}
      → find k m ≡ some v
      → J.at k (J.object m) ≡ some v
  at_field m k h = lawful.at-object k m ∙ h

  count_field :
      (m : List (Text × J.Value)) (k : Text) (n : ℕ)
      → n < 2 ^ 64
      → find k m ≡ some (J.count n)
      → count_at F J (J.object m) k ≡ some n
  unfolding count_at
  count_field m k n small h =
      rw (lawful.is_object-object m) (rw (at_field m k h) (lawful.as_count-count n small))

  small_field :
      (m : List (Text × J.Value)) (k : Text) (n : ℕ)
      → n < 2 ^ 64
      → find k m ≡ some (J.count n)
      → small_at F J (J.object m) k ≡ some (n % 2 ^ 32)
  unfolding small_at
  small_field m k n small h =
      rw (small_at, lawful.is_object-object m)
        (rw (at_field m k h) (rw (lawful.as_count-count n small) refl))

  flag_field :
      (m : List (Text × J.Value)) (k : Text) (b : Bool)
      → find k m ≡ some (J.flag b)
      → flag_at F J (J.object m) k ≡ some b
  unfolding flag_at
  flag_field m k b h = rw (lawful.is_object-object m) (rw (at_field m k h) (lawful.as_flag-flag b))

  real_field :
      (m : List (Text × J.Value)) (k : Text) (x : F.Double)
      → find k m ≡ some (J.real x)
      → real_at F J (J.object m) k ≡ some x
  unfolding real_at
  real_field m k x h = rw (lawful.is_object-object m) (rw (at_field m k h) (lawful.as_real-real x))

  real_absent :
      (m : List (Text × J.Value)) (k : Text)
      → find k m ≡ none
      → real_at F J (J.object m) k ≡ some (F.of_nat 0)
  unfolding real_at
  real_absent m k h = rw (lawful.is_object-object m) (rw (lawful.at-object k m ∙ h) refl)

  -- The state with the numbers of the loader.
  abbrev shown : MigrationStats F → DashboardState F → DashboardState F
  shown stats s = record s {
    total_rows = stats.total_rows;
    migrated_rows = stats.migrated_rows;
    failed_rows = stats.failed_rows;
    filtered_rows = stats.filtered_rows;
    throughput = F.of_nat 0;
    progress_percent = F.widen stats.progress_percent;
    tables_total = stats.tables_total % 2 ^ 32;
    tables_completed = stats.tables_completed % 2 ^ 32;
    tables_skipped = stats.tables_skipped % 2 ^ 32;
    is_running = stats.is_running;
    is_paused = stats.is_paused;
    elapsed_secs = F.of_nat 0;
  }

  assigned :
      (l : SsTableLoader) (s : DashboardState F)
      → IsReportable F J l
      → let stats = get_stats F l in
        assign_in_order F J (assignments F J (J.object (migration_fields F J stats))) s
        ≡ (true, shown stats s)
  unfolding assignments assign_in_order set_field migration_fields get_stats find text_eq
  assigned l s fits =
      let stats = get_stats F l in
      let m = migration_fields F J stats in
      rw (count_field m (codes "total_rows") stats.total_rows fits.total refl) (
        rw (count_field m (codes "migrated_rows") stats.migrated_rows fits.migrated refl) (
          rw (count_field m (codes "failed_rows") stats.failed_rows fits.failed refl) (
            rw (count_field m (codes "filtered_rows") stats.filtered_rows fits.filtered refl) (
              rw (real_absent m (codes "throughput_rows_per_sec") refl) (
                rw (real_field m (codes "progress_percent") (F.widen stats.progress_percent) refl) (
                  rw (small_field m (codes "tables_total") stats.tables_total fits.tables refl) (
                    rw
                      (small_field m (codes "tables_completed") stats.tables_completed
                        fits.completed refl)
                      (rw
                        (small_field m (codes "tables_skipped") stats.tables_skipped fits.skipped
                          refl)
                        (rw (flag_field m (codes "is_running") stats.is_running refl) (
                          rw (flag_field m (codes "is_paused") stats.is_paused refl)
                            (rw (real_absent m (codes "elapsed_secs") refl) refl)))))))))))

  -- The same state but for the log.
  abbrev SameButLog : DashboardState F → DashboardState F → Type 0
  SameButLog s s' = (log : List LogEntry) × (s' ≡ record s { activity_log = log })

  log_each_keeps :
      (time : ℕ) (events : List (Bool × Text × Text)) (s : DashboardState F)
      → SameButLog s (log_each F J time events s)
  unfolding log_each add_log
  log_each_keeps time [] s = (s.activity_log, refl)
  log_each_keeps time ((true, level, message) ∷ rest) s =
      let (log, e) = log_each_keeps time rest (add_log F time level message s) in (log, e)
  log_each_keeps time ((false, level, message) ∷ rest) s = log_each_keeps time rest s

  update_state-at :
      (time : ℕ) (url : Text) (v m : J.Value) (s : DashboardState F)
      → J.at (codes "migration") v ≡ some m
      → update_state F J time url v s ≡ update_from F J time url m s
  unfolding update_state update_from
  update_state-at time url v m s h = rw (update_state, h) refl

  update_from-stats :
      (time : ℕ) (url : Text) (l : SsTableLoader) (s : DashboardState F)
      → IsReportable F J l
      → let stats = get_stats F l in
        (log : List LogEntry) × (update_from F J time url (J.object (migration_fields F J stats)) s
          ≡ (true, record (update_elapsed F (shown stats s)) { activity_log = log }))
  unfolding update_from
  update_from-stats time url l s fits =
      let stats = get_stats F l in
      let s2 = update_elapsed F (shown stats s) in
      let (log, e) = log_each_keeps time (transitions F J url s s2) s2 in
      (log, rw (assigned l s fits) (ap (λ x. (true, x)) e))

  read_ok :
      (time : ℕ) (what : Text) (body : J.Body) (v : J.Value) (client : ApiClient)
      (s s' : DashboardState F)
      → J.parse body ≡ some v
      → update_state F J time client.base_url v s ≡ (true, s')
      → read_body F J time what body client s
        ≡ (record client { connected = true; last_error = codes "" }, s')
  unfolding read_body
  read_ok time what body v client s s' parsed read = rw (read_body, parsed) (rw read refl)

  status_ok :
      (time : ℕ) (what : Text) (client : ApiClient) (l : SsTableLoader) (s : DashboardState F)
      → fetch_status F J time what (answered (Api.status F J l)) client s
        ≡ read_body F J time what (Api.status F J l).body client s
  unfolding fetch_status Api.status
  status_ok time what client l s = refl

  polled :
      (time : ℕ) (what : Text) (client : ApiClient) (l : SsTableLoader) (s : DashboardState F)
      → IsReportable F J l
      → (log : List LogEntry) × (fetch_status F J time what (answered (Api.status F J l)) client s
          ≡ (
            record client { connected = true; last_error = codes "" },
            record (update_elapsed F (shown (get_stats F l) s)) { activity_log = log },
          ))
  polled time what client l s fits =
      let (v, parsed, here) = status_sent F J lawful l fits in
      let (log, read) = update_from-stats time client.base_url l s fits in
      (
        log,
        status_ok time what client l s
            ∙ read_ok time what (Api.status F J l).body v client s _ parsed
                (update_state-at time client.base_url v _ s here ∙ read),
      )

  -- Let the loader's counters be 64-bit words, its progress a finite number, and a double that is made
  -- of 0 be truncated to 0. After a poll that the loader's /status answers, whatever state the
  -- dashboard and the loader are in, the dashboard counts as connected and shows the loader's rows, flags and progress, and its
  -- counts of tables (modulo 2^32). As the loader sends neither a throughput nor an elapsed time, it
  -- shows a throughput of 0 and an elapsed time of 0 seconds.
  pub fetch_status-status :
      (time : ℕ) (what : Text) (client : ApiClient) (l : SsTableLoader) (s : DashboardState F)
      → IsReportable F J l
      → F.truncate (F.of_nat 0) ≡ 0
      → let (client', s') = fetch_status F J time what (answered (Api.status F J l)) client s in
        (client'.connected ≡ true)
        × (s'.total_rows ≡ l.total_rows)
        × (s'.migrated_rows ≡ l.migrated_rows)
        × (s'.failed_rows ≡ l.failed_rows)
        × (s'.filtered_rows ≡ l.filtered_rows)
        × (s'.tables_total ≡ l.tables_total % 2 ^ 32)
        × (s'.tables_completed ≡ l.tables_completed % 2 ^ 32)
        × (s'.tables_skipped ≡ l.tables_skipped % 2 ^ 32)
        × (s'.is_running ≡ l.is_running)
        × (s'.is_paused ≡ l.is_paused)
        × (s'.progress_percent ≡ F.widen (progress_of F l.migrated_rows l.total_rows))
        × (s'.throughput ≡ F.of_nat 0)
        × (s'.elapsed_display ≡ codes "00:00:00")
  unfolding update_elapsed get_stats clock_text decimal
  fetch_status-status time what client l s fits exact =
      let (log, e) = polled time what client l s fits in
      rw e (
        refl,
        refl,
        refl,
        refl,
        refl,
        refl,
        refl,
        refl,
        refl,
        refl,
        refl,
        refl,
        ap clock_text exact,
      )

-- A poll that gets no answer, or an answer other than 200, disconnects the client and leaves the
-- state as it was, but for a warning when the connection is lost.
fetch_status_refused :
    (F : Floats) (J : Json F.Double) (time : ℕ) (what error : Text) (r : Response J.Body)
    (client : ApiClient) (s : DashboardState F)
    → r.status ≢ 200
    → let (client1, s1) = fetch_status F J time what (unreachable error) client s in
      let (client2, s2) = fetch_status F J time what (answered r) client s in
      (client1.connected ≡ false)
      × (s1 ≡ (
          if client.connected
          then add_log F time
              (codes "WARN")
              (codes "Lost connection to sstable-loader: " ++ error)
              s
          else s))
      × (client2.connected ≡ false)
      × (s2 ≡ s)
unfolding fetch_status
fetch_status_refused F J time what error r client s other = (refl, refl, ground arith, ground arith)
