-- ===== src/Dashboard/Demo.antt =====
-- services/tui-dash/src/main.cpp in demo mode: the update thread and the key handler take turns on the
-- state, under its lock.
use scylla_cluster_sync_cxx.Prelude.{
  ℕ, ◌≤◌, ◌≡◌, refl, inl, inr, true, false, List, [], ◌∷◌, arith, codes, length,
}
use scylla_cluster_sync_cxx.Wire.{Floats}
use scylla_cluster_sync_cxx.Dashboard.State.{
  LogEntry, DashboardState, initial, add_log, reset, toggle_pause, update_elapsed, scroll_up,
  scroll_down,
}
use scylla_cluster_sync_cxx.Dashboard.State.Laws.{
  IsBounded, add_log-IsBounded, reset-IsBounded, toggle_pause-IsBounded,
}
use scylla_cluster_sync_cxx.Dashboard.Mock.{Draws, Generator, new_generator, update}
use scylla_cluster_sync_cxx.Dashboard.Mock.Laws.{IsFresh, same_bounds, update-IsBounded}
use scylla_cluster_sync_cxx.Dashboard.Keys.{
  Key, quit_key, space, reset_key, arrow_up, arrow_down, other_key, press,
}

pub record Demo (F : Floats) : Type 0 where
  pub generator : Generator
  pub state : DashboardState F

pub data Input (F : Floats) : Type 0 where
  tick : ℕ → Draws F.Double → Input F
  key : ℕ → Key → Input F

-- The state that main starts with.
unfoldable pub start : (F : Floats) (time : ℕ) → Demo F
unfolding initial add_log
start F time = record {
  generator = new_generator;
  state = add_log F time (codes "INFO") (codes "TUI Dashboard started in DEMO mode") (initial F);
}

unfoldable pub step : (F : Floats) (d : Demo F) (i : Input F) → Demo F
unfolding update press
step F d (tick time draws) =
    let (g, s) = update F time draws d.generator d.state in record { generator = g; state = s }
step F d (key time k) = let (quits, used, s) = press F time k d.state in record d { state = s }

unfoldable pub run : (F : Floats) (d : Demo F) (is : List (Input F)) → Demo F
unfolding step
run F d [] = d
run F d (i ∷ is) = run F (step F d i) is

-- Ticks alone.
abbrev pub only_ticks : (F : Floats) (ts : List (ℕ × Draws F.Double)) → List (Input F)
only_ticks F [] = []
only_ticks F ((time, draws) ∷ ts) = tick time draws ∷ only_ticks F ts

pub record IsSound (F : Floats) (d : Demo F) : Type 0 where
  pub fresh : IsFresh F d.generator d.state
  pub bounds : IsBounded F d.state

module _ (F : Floats) where
  toggle_pause-total_rows :
      (time : ℕ) (s : DashboardState F) → (toggle_pause F time s).total_rows ≡ s.total_rows
  unfolding toggle_pause add_log
  toggle_pause-total_rows time s = ground arith

  scroll_up_same :
      (s : DashboardState F) → (n : ℕ) × (scroll_up F s ≡ record s { scroll_offset = n })
  unfolding scroll_up
  scroll_up_same s = ((scroll_up F s).scroll_offset, ground arith)

  reset-total_rows : (time : ℕ) → (reset F time).total_rows ≡ 0
  unfolding reset initial add_log
  reset-total_rows time = refl

  IsReady : Generator → DashboardState F → Type 0
  IsReady g s = IsFresh F g s × IsBounded F s

  press-IsSound :
      (time : ℕ) (k : Key) (g : Generator) (s : DashboardState F)
      → IsReady g s
      → IsReady g (press F time k s).2
  unfolding press IsReady scroll_down
  press-IsSound time quit_key g s v = v
  press-IsSound time space g s v =
      (rw (toggle_pause-total_rows time s) v.0, toggle_pause-IsBounded F time s v.1)
  press-IsSound time reset_key g s v = (inr (reset-total_rows time), reset-IsBounded F time)
  press-IsSound time arrow_up g s v =
      let (n, e) = scroll_up_same s in rw e (v.0, same_bounds F s _ refl refl refl v.1)
  press-IsSound time arrow_down g s v = (v.0, same_bounds F s _ refl refl refl v.1)
  press-IsSound time other_key g s v = v

  step-IsSound : (d : Demo F) (i : Input F) → IsSound F d → IsSound F (step F d i)
  unfolding step IsReady
  step-IsSound d (tick time draws) v =
      let (on, bounds) = update-IsBounded F time draws d.generator d.state v.fresh v.bounds in
      record { fresh = inl on; bounds = bounds }
  step-IsSound d (key time k) v =
      let (fresh, bounds) = press-IsSound time k d.generator d.state (v.fresh, v.bounds) in
      record { fresh = fresh; bounds = bounds }

  run-IsSound : (d : Demo F) (is : List (Input F)) → IsSound F d → IsSound F (run F d is)
  unfolding run
  run-IsSound d [] v = v
  run-IsSound d (i ∷ is) v = run-IsSound (step F d i) is (step-IsSound d i v)

  start-IsSound : (time : ℕ) → IsSound F (start F time)
  unfolding start initial add_log
  start-IsSound time = record {
    fresh = inr refl;
    bounds =
        add_log-IsBounded F time _ _ (initial F)
          (record { log_bound = omega arith; rows_bound = omega arith });
  }

  -- From the start of the demo mode, whatever keys are pressed, in whatever order with the ticks of
  -- the generator and whatever its random numbers are: the log never holds more than 100 entries,
  -- and there are never more migrated rows than rows.
  demo_bounds :
      (time : ℕ) (is : List (Input F))
      → let s = (run F (start F time) is).state in
        (length s.activity_log ≤ 100) × (s.migrated_rows ≤ s.total_rows)
  demo_bounds time is =
      let bounds = (run-IsSound (start F time) is (start-IsSound time)).bounds in
      (bounds.log_bound, bounds.rows_bound)

  -- Nothing runs, and nothing is there to migrate.
  abbrev IsIdle : List LogEntry → Demo F → Type 0
  IsIdle log d =
      (d.generator.started ≡ true)
      × (d.state.is_running ≡ false)
      × (d.state.migrated_rows ≡ 0)
      × (d.state.total_rows ≡ 0)
      × (d.state.tables ≡ [])
      × (d.state.activity_log ≡ log)

  reset-IsIdle :
      (time : ℕ) (d : Demo F)
      → d.generator.started ≡ true
      → IsIdle (reset F time).activity_log (step F d (key time reset_key))
  unfolding step press reset initial add_log
  reset-IsIdle time d on = (on, refl, refl, refl, refl, refl)

  tick-IsIdle :
      (log : List LogEntry) (d : Demo F) (time : ℕ) (draws : Draws F.Double)
      → IsIdle log d
      → IsIdle log (step F d (tick time draws))
  unfolding step update update_elapsed
  tick-IsIdle log d time draws h = ground arith

  ticks-IsIdle :
      (log : List LogEntry) (d : Demo F) (ticks : List (ℕ × Draws F.Double))
      → IsIdle log d
      → IsIdle log (run F d (only_ticks F ticks))
  unfolding run
  ticks-IsIdle log d [] h = h
  ticks-IsIdle log d ((time, draws) ∷ ticks) h =
      ticks-IsIdle log (step F d (tick time draws)) ticks (tick-IsIdle log d time draws h)

  -- A reset ends the demo: once the generator has started, no tick after it migrates a row, and the
  -- dashboard shows no tables and no migration that runs.
  pub reset_idles :
      (time : ℕ) (d : Demo F) (ticks : List (ℕ × Draws F.Double))
      → d.generator.started ≡ true
      → let s = (run F (step F d (key time reset_key)) (only_ticks F ticks)).state in
        (s.is_running ≡ false)
        × (s.migrated_rows ≡ 0)
        × (s.total_rows ≡ 0)
        × (s.tables ≡ [])
        × (s.activity_log ≡ (reset F time).activity_log)
  reset_idles time d ticks on =
      let idle =
        ticks-IsIdle (reset F time).activity_log (step F d (key time reset_key)) ticks
          (reset-IsIdle time d on) in
      (idle.1, idle.2, idle.3, idle.4, idle.5)
