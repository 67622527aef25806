-- ===== src/Loader/Api/Laws.antt =====
-- What the loader's HTTP API does to the loader (services/sstable-loader/src/api.cpp).
use scylla_cluster_sync_cxx.Prelude.{
  ◌≡◌, ◌↔◌, ◌⊎◌, ◌∙◌, sym, ap, inl, inr, Bool-cases, refl, true, false, Option, Bool, ◌||◌,
  if◌then◌else◌, arith, Text, codes, text_eq, text_eq_iff,
}
use scylla_cluster_sync_cxx.Svckit.Metrics.{Metrics}
use scylla_cluster_sync_cxx.Svckit.Errors.{ok}
use scylla_cluster_sync_cxx.Svckit.Database.{execute}
use scylla_cluster_sync_cxx.Svckit.Database.Laws.{ping_iff}
use scylla_cluster_sync_cxx.Loader.Ranges.{SsTableLoader}
use scylla_cluster_sync_cxx.Loader.Migration.{control}
use scylla_cluster_sync_cxx.Loader.Api.{
  Route, get_health, get_status, get_metrics, post_stop, post_pause, post_resume, unrouted, route,
  answer, health, serve,
}
use scylla_cluster_sync_cxx.Wire.{
  Floats, Json, Method, Request, http_get, http_post, metrics_response_status,
}

-- Whether the request is a POST, or a GET, of this path.
abbrev pub is_post : Request → Text → Bool
is_post r path = elim r.method [ http_get ↦ false | http_post ↦ text_eq path r.path ]

abbrev pub is_get : Request → Text → Bool
is_get r path = elim r.method [ http_get ↦ text_eq path r.path | http_post ↦ false ]

abbrev pub is_served : Request → Bool
is_served r =
    is_get r (codes "/health")
    || (is_get r (codes "/status")
        || (is_get r (codes "/metrics")
            || (is_post r (codes "/stop")
                || (is_post r (codes "/pause") || is_post r (codes "/resume")))))

abbrev pub SameCounters : SsTableLoader → SsTableLoader → Type 0
SameCounters l l' =
    (l'.config ≡ l.config)
    × (l'.filter ≡ l.filter)
    × (l'.total_rows ≡ l.total_rows)
    × (l'.migrated_rows ≡ l.migrated_rows)
    × (l'.failed_rows ≡ l.failed_rows)
    × (l'.filtered_rows ≡ l.filtered_rows)
    × (l'.tables_completed ≡ l.tables_completed)
    × (l'.tables_total ≡ l.tables_total)
    × (l'.tables_skipped ≡ l.tables_skipped)
    × (l'.skipped_ranges ≡ l.skipped_ranges)

-- Whether a handler is that of /stop, of /pause, of /resume, and one that is registered.
bits : Route → Bool × Bool × Bool × Bool
bits get_health = (false, false, false, true)
bits get_status = (false, false, false, true)
bits get_metrics = (false, false, false, true)
bits post_stop = (true, false, false, true)
bits post_pause = (false, true, false, true)
bits post_resume = (false, false, true, true)
bits unrouted = (false, false, false, false)

apart : (path a b : Text) → text_eq a b ≡ false → text_eq a path ≡ true → text_eq b path ≡ false
apart path a b other same = elim (Bool-cases (text_eq b path)) [
  | inr missed ↦ missed
  | inl hit ↦
      let one = (text_eq_iff a path).0 same in
      let two = (text_eq_iff b path).0 hit in let both = (text_eq_iff a b).1 (one ∙ sym two) in cc
]

-- The handler of a request, by its method and path.
classify :
    (m : Method) (path : Text)
    → let r : Request = record { method = m; path = path } in
      (is_post r (codes "/stop") ≡ (bits (route r)).0)
      × (is_post r (codes "/pause") ≡ (bits (route r)).1)
      × (is_post r (codes "/resume") ≡ (bits (route r)).2)
      × (is_served r ≡ (bits (route r)).3)
unfolding route bits
classify http_get path = ground arith
classify http_post path = elim (Bool-cases (text_eq (codes "/stop") path)) [
  | inl stops ↦
      let no_pause = apart path (codes "/stop") (codes "/pause") (unfold text_eq in refl) stops in
      let no_resume = apart path (codes "/stop") (codes "/resume") (unfold text_eq in refl) stops in
      ground arith
  | inr other ↦ elim (Bool-cases (text_eq (codes "/pause") path)) [
    | inl pauses ↦
        let no_resume =
          apart path (codes "/pause") (codes "/resume") (unfold text_eq in refl) pauses in
        ground arith
    | inr another ↦ ground arith
  ]
]

module _ (F : Floats) (J : Json F.Double) where
  -- /health answers 200 exactly when both clusters execute the probe, and 503 otherwise.
  pub health_iff :
      (l : SsTableLoader)
      → let probe = codes "SELECT now() FROM system.local" in
        let (r, l') = health F J l in
        ((r.status ≡ 200)
          ↔ (((execute l.source probe).0 ≡ ok tt) × ((execute l.target probe).0 ≡ ok tt)))
        × ((r.status ≡ 200) ⊎ (r.status ≡ 503))
        × (l'
            ≡ record l { source = (execute l.source probe).1; target = (execute l.target probe).1 })
  unfolding health
  health_iff l = ground (arith, ping_iff l.source, ping_iff l.target)

  answer_controls :
      (serialize : Metrics → Text) (metrics : Option Metrics) (to : Route) (l : SsTableLoader)
      → let (answer, l') = answer F J serialize metrics to l in
        (l'.is_running ≡ (if (bits to).0 then false else l.is_running))
        × (l'.is_paused
            ≡ (if (bits to).1 then true else if (bits to).2 then false else l.is_paused))
        × SameCounters l l'
        × ((answer.status ≡ 404) ↔ ((bits to).3 ≡ false))
  unfolding answer control health bits
  answer_controls serialize metrics get_health l = ground arith
  answer_controls serialize metrics get_status l = ground arith
  answer_controls serialize metrics get_metrics l =
      ground (arith, metrics_response_status J serialize metrics)
  answer_controls serialize metrics post_stop l = ground arith
  answer_controls serialize metrics post_pause l = ground arith
  answer_controls serialize metrics post_resume l = ground arith
  answer_controls serialize metrics unrouted l = ground arith

  -- No request starts a migration or touches its counters: the loader runs after a request exactly
  -- when it ran before and the request is not POST /stop; it is paused after POST /pause, not paused
  -- after POST /resume, and as before after any other request; its configuration, its filter and all
  -- its counters stay. The answer is 404 exactly when the request is none of GET /health, /status and
  -- /metrics and POST /stop, /pause and /resume.
  pub serve_controls :
      (serialize : Metrics → Text) (metrics : Option Metrics) (r : Request) (l : SsTableLoader)
      → let (answer, l') = serve F J serialize metrics r l in
        (l'.is_running ≡ (if is_post r (codes "/stop") then false else l.is_running))
        × (l'.is_paused ≡ (
            if is_post r (codes "/pause")
            then true
            else if is_post r (codes "/resume")
            then false
            else l.is_paused))
        × SameCounters l l'
        × ((answer.status ≡ 404) ↔ (is_served r ≡ false))
  unfolding serve
  serve_controls serialize metrics r l =
      let (is_stop, is_pause, is_resume, served) = classify r.method r.path in
      let (runs, waits, same, missing) = answer_controls serialize metrics (route r) l in
      (
        runs ∙ ap (λ b. if b then false else l.is_running) (sym is_stop),
        waits
            ∙ ap (λ b. if b then true else if (bits (route r)).2 then false else l.is_paused)
                (sym is_pause)
            ∙ ap
                (λ b. if is_post r (codes "/pause") then true else if b then false else l.is_paused)
                (sym is_resume),
        same,
        (λ h. served ∙ missing.0 h, λ h. missing.1 (sym served ∙ h)),
      )
