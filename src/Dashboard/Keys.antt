-- ===== src/Dashboard/Keys.antt =====
-- services/tui-dash/src/main.cpp: the keys of the dashboard, what the header shows, and the arguments.
use scylla_cluster_sync_cxx.Prelude.{
  ℕ, Bool, true, false, ◌||◌, Option, none, some, List, [], ◌∷◌, ◌++◌, if◌then◌else◌, Text, codes,
  text_eq, decimal, take, reverse,
}
use scylla_cluster_sync_cxx.Prelude.Int.{ℤ, pos}
use scylla_cluster_sync_cxx.Prelude.Stoi.{stoi}
use scylla_cluster_sync_cxx.Wire.{Floats}
use scylla_cluster_sync_cxx.Dashboard.State.{
  LogEntry, DashboardState, toggle_pause, reset, scroll_up, scroll_down,
}

pub record Args : Type 0 where
  pub demo : Bool
  pub api_url : Text
  pub refresh_ms : ℤ

abbrev pub default_args : Args
default_args = record {
  demo = false;
  api_url = codes "http://localhost:9092";
  refresh_ms = pos 100;
}

-- The loop of parse_args; `none` stands for an exception of std::stoi. An option without its value at
-- the end is ignored, as is any other argument.
unfoldable pub parse_from : Args → List Text → Option Args
parse_from args [] = some args
parse_from args (a ∷ []) =
    if text_eq a (codes "--demo") || text_eq a (codes "-d")
    then some (record args { demo = true })
    else some args
parse_from args (a ∷ v ∷ rest) =
    if text_eq a (codes "--demo") || text_eq a (codes "-d")
    then parse_from (record args { demo = true }) (v ∷ rest)
    else if text_eq a (codes "--api-url")
    then parse_from (record args { api_url = v }) rest
    else if text_eq a (codes "--refresh-ms")
    then elim (stoi v) [ none ↦ none | some n ↦ parse_from (record args { refresh_ms = n }) rest ]
    else parse_from args (v ∷ rest)

unfoldable pub parse_args : List Text → Option Args
unfolding parse_from
parse_args arguments = parse_from default_args arguments

pub data Key : Type 0 where
  quit_key space reset_key arrow_up arrow_down other_key : Key

-- The key handler: whether the dashboard quits, whether the event is used, and the state.
unfoldable pub press :
    (F : Floats) (time : ℕ) (key : Key) (s : DashboardState F) → Bool × Bool × DashboardState F
unfolding toggle_pause reset scroll_up scroll_down
press F time quit_key s = (true, true, s)
press F time space s = (false, true, toggle_pause F time s)
press F time reset_key s = (false, true, reset F time)
press F time arrow_up s = (false, true, scroll_up F s)
press F time arrow_down s = (false, true, scroll_down F s)
press F time other_key s = (false, false, s)

-- The texts of render_header.
unfoldable pub status_text : (F : Floats) (s : DashboardState F) → Text
status_text F s =
    if s.is_running
    then (if s.is_paused then codes "[PAUSED]" else codes "[RUNNING]")
    else codes "[STOPPED]"

unfoldable pub mode_text : Bool → Bool → Text
mode_text demo_mode api_connected =
    if demo_mode then codes "DEMO" else if api_connected then codes "LIVE" else codes "DISCONNECTED"

-- The entries that render_activity_log shows, and the prefix of each.
unfoldable pub shown_entries : List LogEntry → List LogEntry
shown_entries log = take 20 (reverse log)

unfoldable pub level_prefix : Text → Text
level_prefix level =
    if text_eq level (codes "ERROR")
    then codes "[ERR]"
    else if text_eq level (codes "WARN")
    then codes "[WRN]"
    else if text_eq level (codes "INFO")
    then codes "[INF]"
    else codes "[---]"

-- The line of render_progress on the tables.
unfoldable pub tables_text : (F : Floats) (s : DashboardState F) → Text
tables_text F s = decimal 10 s.tables_completed ++ (b'/' ∷ decimal 10 s.tables_total)
