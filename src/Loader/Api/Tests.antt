-- ===== src/Loader/Api/Tests.antt =====
-- The HTTP API of a loader that runs.
use scylla_cluster_sync_cxx.Prelude.{◌≡◌, ◌↔◌, false, true, if◌then◌else◌, none, Text, codes, []}
use scylla_cluster_sync_cxx.Svckit.Metrics.{Metrics}
use scylla_cluster_sync_cxx.Wire.{Request, http_post}
use scylla_cluster_sync_cxx.Wire.Tests.{hundredths, trees}
use scylla_cluster_sync_cxx.Loader.Migration.Tests.{running}
use scylla_cluster_sync_cxx.Loader.Api.{serve}
use scylla_cluster_sync_cxx.Loader.Api.Laws.{is_post, is_served, SameCounters, serve_controls}

abbrev stop_request : Request
stop_request = record { method = http_post; path = codes "/stop" }

abbrev no_text : Metrics → Text
no_text m = []

serve_controls_example :
    let (answer, l') = serve hundredths trees no_text none stop_request running in
    (l'.is_running ≡ (if is_post stop_request (codes "/stop") then false else running.is_running))
    × (l'.is_paused ≡ (
        if is_post stop_request (codes "/pause")
        then true
        else if is_post stop_request (codes "/resume")
        then false
        else running.is_paused))
    × SameCounters running l'
    × ((answer.status ≡ 404) ↔ (is_served stop_request ≡ false))
serve_controls_example = serve_controls hundredths trees no_text none stop_request running
