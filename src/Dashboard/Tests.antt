-- ===== src/Dashboard/Tests.antt =====
-- The dashboard at concrete libraries: numbers in hundredths, and JSON as a tree.
use scylla_cluster_sync_cxx.Prelude.{
  arith, ℕ, ◌%◌, ◌^◌, ◌≡◌, refl, true, false, List, [], ◌∷◌, codes,
}
use scylla_cluster_sync_cxx.Prelude.Int.{pos}
use scylla_cluster_sync_cxx.Wire.{Response}
use scylla_cluster_sync_cxx.Wire.Tests.{hundredths, trees, trees-IsLawful}
use scylla_cluster_sync_cxx.Loader.Api
use scylla_cluster_sync_cxx.Loader.Api.Sent.{IsReportable}
use scylla_cluster_sync_cxx.Loader.Api.{progress_of}
use scylla_cluster_sync_cxx.Loader.Migration.Tests.{running}
use scylla_cluster_sync_cxx.Dashboard.State.{DashboardState, initial, reset}
use scylla_cluster_sync_cxx.Dashboard.ApiClient.{ApiClient, answered, fetch_status}
use scylla_cluster_sync_cxx.Dashboard.ApiClient.Laws.{fetch_status-status}
use scylla_cluster_sync_cxx.Dashboard.Mock.{Draws}
use scylla_cluster_sync_cxx.Dashboard.Keys.{space, reset_key}
use scylla_cluster_sync_cxx.Dashboard.Demo.{
  Demo, Input, tick, key, start, step, run, only_ticks, reset_idles,
}

abbrev client : ApiClient
client = record {
  base_url = codes "http://localhost:8081";
  host = codes "localhost";
  port = pos 8081;
  connected = true;
  last_error = codes "";
}

abbrev shown : DashboardState hundredths
shown = initial hundredths

abbrev draws : Draws ℕ
draws = record {
  rows_per_tick = 700;
  fail_dist = 1;
  fail_count = 3;
  tp_jitter = 0;
  prog_inc = 100;
  message = 2;
  warn_chance = 1;
  warning = 0;
}

abbrev inputs : List (Input hundredths)
inputs = tick 1 draws ∷ tick 2 draws ∷ key 3 space ∷ tick 4 draws ∷ key 5 reset_key ∷ []

abbrev started : Demo hundredths
started = run hundredths (start hundredths 0) (tick 1 draws ∷ tick 2 draws ∷ [])

abbrev refusal : Response trees.Body
refusal = record {
  status = 503;
  content_type = codes "text/plain";
  body = trees.raw (codes "down");
}

reset_idles_example :
    let s =
      (run hundredths
        (step hundredths started (key 9 reset_key))
        (only_ticks hundredths ((10, draws) ∷ (11, draws) ∷ []))).state in
    (s.is_running ≡ false)
    × (s.migrated_rows ≡ 0)
    × (s.total_rows ≡ 0)
    × (s.tables ≡ [])
    × (s.activity_log ≡ (reset hundredths 9).activity_log)
unfolding start run
reset_idles_example = reset_idles hundredths 9 started ((10, draws) ∷ (11, draws) ∷ []) refl

running-IsReportable : IsReportable hundredths trees running
running-IsReportable = record {
  total = omega arith;
  migrated = omega arith;
  failed = omega arith;
  filtered = omega arith;
  completed = omega arith;
  tables = omega arith;
  skipped = omega arith;
  progress = refl;
  filter = (omega arith, omega arith, omega arith);
}

fetch_status-status_example :
    let (client', s') =
      fetch_status hundredths trees 7
        (codes "")
        (answered (Api.status hundredths trees running))
        client
        shown in
    (client'.connected ≡ true)
    × (s'.total_rows ≡ running.total_rows)
    × (s'.migrated_rows ≡ running.migrated_rows)
    × (s'.failed_rows ≡ running.failed_rows)
    × (s'.filtered_rows ≡ running.filtered_rows)
    × (s'.tables_total ≡ running.tables_total % 2 ^ 32)
    × (s'.tables_completed ≡ running.tables_completed % 2 ^ 32)
    × (s'.tables_skipped ≡ running.tables_skipped % 2 ^ 32)
    × (s'.is_running ≡ running.is_running)
    × (s'.is_paused ≡ running.is_paused)
    × (s'.progress_percent
        ≡ hundredths.widen (progress_of hundredths running.migrated_rows running.total_rows))
    × (s'.throughput ≡ hundredths.of_nat 0)
    × (s'.elapsed_display ≡ codes "00:00:00")
fetch_status-status_example =
    fetch_status-status hundredths trees trees-IsLawful 7 (codes "") client running shown
      running-IsReportable refl
