-- ===== src/Writer/Service/Tests.antt =====
-- A round of retries with a client's write in the middle: the target refuses every statement.
use scylla_cluster_sync_cxx.Prelude.{
  ◌⊎◌, ◌≡◌, none, some, List, [], ◌∷◌, arith, refl, codes, find, text_eq,
}
use scylla_cluster_sync_cxx.Writer.DualWriter.{FailedWrite}
use scylla_cluster_sync_cxx.Writer.Tests.{sample_writer, queued_write}
use scylla_cluster_sync_cxx.Writer.Service.{
  Service, Step, client_write, take_snapshot, judge_next, apply_round, run,
}
use scylla_cluster_sync_cxx.Writer.Service.Fits.{SameWrite}
use scylla_cluster_sync_cxx.Writer.Service.Invariant.{IsSound, run-IsSound}
use scylla_cluster_sync_cxx.Writer.Service.Loss.{Settled, run_loses_nothing}

abbrev idle_service : Service
idle_service = record { writer = sample_writer; round = none }

abbrev steps : List Step
steps =
    take_snapshot
    ∷ client_write (codes "w2") 8 3 (codes "INSERT") (codes "ks.t")
    ∷ judge_next
    ∷ apply_round
    ∷ []

idle_service-IsSound : IsSound idle_service
unfolding find
idle_service-IsSound = record {
  counted = omega arith;
  bounded = omega arith;
  queue = record { distinct = (refl, tt); attempted = λ id fw h. ground arith };
  round = tt;
}

run-IsSound_example : IsSound (run idle_service steps)
run-IsSound_example = run-IsSound idle_service steps idle_service-IsSound

run_loses_nothing_example :
    ((fw' : FailedWrite) × (find (codes "w1") (run idle_service steps).writer.pending ≡ some fw')
      × SameWrite queued_write fw')
    ⊎ Settled (codes "w1") queued_write idle_service steps
unfolding find text_eq
run_loses_nothing_example =
    run_loses_nothing idle_service steps (codes "w1") queued_write idle_service-IsSound refl refl
