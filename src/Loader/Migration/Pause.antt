-- ===== src/Loader/Migration/Pause.antt =====
-- A migration that is paused and resumed (services/sstable-loader/src/loader.cpp, migrate_table).
use scylla_cluster_sync_cxx.Prelude.{
  ℕ, zero, suc, ◌<◌, ◌≡◌, refl, sym, ap, ◌∙◌, subst, inl, inr, Bool, true, false, some, List, [],
  ◌∷◌, ◌++◌, ◌≤◌, All, length-take, arith, Text, Bool-cases, length, take, drop, length-drop,
  take-append-drop,
}
use scylla_cluster_sync_cxx.Loader.TokenRange.{TokenRange}
use scylla_cluster_sync_cxx.Loader.Ranges.{SsTableLoader}
use scylla_cluster_sync_cxx.Loader.Threads.{Thread, run_batch}
use scylla_cluster_sync_cxx.Loader.Threads.Laws.{set_paused, run_batch_keeps, run_batch_paused}
use scylla_cluster_sync_cxx.Loader.Migration.{
  Control, pause, resume, stop, control, receive, look, pause_gate, migrate_batches,
}

-- No call stops the migration.
abbrev pub IsUnstopped : List Control → Type 0
IsUnstopped [] = Unit
IsUnstopped (pause ∷ cs) = IsUnstopped cs
IsUnstopped (resume ∷ cs) = IsUnstopped cs
IsUnstopped (stop ∷ cs) = ⊥

abbrev pub NeverStops : List (List Control) → Type 0
NeverStops [] = Unit
NeverStops (cs ∷ arrivals) = IsUnstopped cs × NeverStops arrivals

-- Whether the loader is paused after the calls.
abbrev pub paused_after : List Control → Bool → Bool
paused_after [] b = b
paused_after (pause ∷ cs) b = paused_after cs true
paused_after (resume ∷ cs) b = paused_after cs false
paused_after (stop ∷ cs) b = paused_after cs b

abbrev pub paused_in_the_end : List (List Control) → Bool → Bool
paused_in_the_end [] b = b
paused_in_the_end (cs ∷ arrivals) b = paused_in_the_end arrivals (paused_after cs b)

receive_unstopped :
    (cs : List Control) (l : SsTableLoader)
    → IsUnstopped cs
    → receive cs l ≡ set_paused (paused_after cs l.is_paused) l
unfolding receive control set_paused
receive_unstopped [] l h = refl
receive_unstopped (pause ∷ cs) l h = receive_unstopped cs (control pause l) h
receive_unstopped (resume ∷ cs) l h = receive_unstopped cs (control resume l) h
receive_unstopped (stop ∷ cs) l h = elim h [ ]

gate_waits :
    (cs : List Control) (arrivals : List (List Control)) (l : SsTableLoader)
    → l.is_running ≡ true
    → l.is_paused ≡ true
    → pause_gate (cs ∷ arrivals) l ≡ pause_gate arrivals (receive cs l)
unfolding pause_gate
gate_waits cs arrivals l running shut = ground arith

-- The gate opens, and the loader is not paused behind it.
gate_opens :
    (arrivals : List (List Control)) (l : SsTableLoader)
    → NeverStops arrivals
    → l.is_running ≡ true
    → paused_in_the_end arrivals l.is_paused ≡ false
    → (rest : List (List Control)) × (pause_gate arrivals l ≡ some (rest, set_paused false l))
      × NeverStops rest
      × (paused_in_the_end rest false ≡ false)
unfolding pause_gate set_paused
gate_opens [] l h running calm = ([], ground arith, tt, refl)
gate_opens (cs ∷ arrivals) l h running calm = elim (Bool-cases l.is_paused) [
  | inr open' ↦ (cs ∷ arrivals, ground arith, h, ground arith)
  | inl shut ↦
      let received = receive_unstopped cs l h.0 in
      let (rest, opened, still, end) =
        gate_opens arrivals (set_paused (paused_after cs l.is_paused) l) h.1 running calm in
      (
        rest,
        gate_waits cs arrivals l running shut ∙ ap (pause_gate arrivals) received ∙ opened,
        still,
        end,
      )
]

look_unstopped :
    (arrivals : List (List Control)) (l : SsTableLoader)
    → NeverStops arrivals
    → paused_in_the_end arrivals l.is_paused ≡ false
    → (rest : List (List Control)) × (b : Bool) × (look arrivals l ≡ (rest, set_paused b l))
      × NeverStops rest
      × (paused_in_the_end rest b ≡ false)
unfolding look set_paused
look_unstopped [] l h calm = ([], l.is_paused, refl, tt, calm)
look_unstopped (cs ∷ arrivals) l h calm = (
  arrivals,
  paused_after cs l.is_paused,
  ap (λ m. (arrivals, m)) (receive_unstopped cs l h.0),
  h.1,
  calm,
)

-- The lists in one.
abbrev pub joined : List (List TokenRange) → List TokenRange
joined [] = []
joined (batch ∷ batches) = batch ++ joined batches

module _ (schedule : List Thread → List Thread) (table : Text) (keys : List Text) where
  -- The batches, one after the other.
  abbrev pub run_batches : List (List TokenRange) → SsTableLoader → SsTableLoader
  run_batches [] l = l
  run_batches (batch ∷ batches) l = run_batches batches (run_batch schedule table keys batch l)

  run_batches_paused :
      (batches : List (List TokenRange)) (b : Bool) (l : SsTableLoader)
      → run_batches batches (set_paused b l) ≡ set_paused b (run_batches batches l)
  unfolding set_paused
  run_batches_paused [] b l = refl
  run_batches_paused (batch ∷ batches) b l =
      ap (run_batches batches) (run_batch_paused schedule table keys batch b l)
      ∙ run_batches_paused batches b (run_batch schedule table keys batch l)

  round :
      (fuel p : ℕ) (r : TokenRange) (rs : List TokenRange)
      (arrivals rest rest' : List (List Control)) (l m m' : SsTableLoader)
      → look arrivals l ≡ (rest, m)
      → m.is_running ≡ true
      → pause_gate rest m ≡ some (rest', m')
      → migrate_batches schedule (suc fuel) p table keys (r ∷ rs) arrivals l
        ≡ migrate_batches schedule fuel p table keys
            (drop p (r ∷ rs))
            rest'
            (run_batch schedule table keys (take p (r ∷ rs)) m')
  unfolding migrate_batches
  round fuel p r rs arrivals rest rest' l m m' looked running opened =
      rw looked (rw opened (rw running refl))

  -- Let a loader run, at least one thread be allowed in a batch, and the fuel be more than the number
  -- of ranges. If no call stops the loader and it is not paused after the last call that arrives, the
  -- loop over the batches of a table comes to an end, under every schedule of the threads. By then it
  -- has run batches of at most that many threads, one after the other, that hold each of the table's
  -- ranges once; and the calls have changed nothing but the pause flag.
  pub migrate_batches_resumed :
      (fuel p : ℕ) (ranges : List TokenRange) (arrivals : List (List Control)) (l : SsTableLoader)
      → 0 < p
      → length ranges < fuel
      → l.is_running ≡ true
      → NeverStops arrivals
      → paused_in_the_end arrivals l.is_paused ≡ false
      → (batches : List (List TokenRange)) × (joined batches ≡ ranges)
        × All (λ batch. length batch ≤ p) batches
        × (rest : List (List Control)) × (paused : Bool) × (migrate_batches schedule fuel p table
              keys ranges arrivals l
            ≡ some (rest, record (run_batches batches l) { is_paused = paused }))
  unfolding set_paused
  migrate_batches_resumed zero p ranges arrivals l positive enough running h calm =
      absurd (omega arith)
  migrate_batches_resumed (suc fuel) p [] arrivals l positive enough running h calm =
      ([], refl, tt, arrivals, l.is_paused, unfold migrate_batches in refl)
  migrate_batches_resumed (suc fuel) p (r ∷ rs) arrivals l positive enough running h calm =
      let batch = take p (r ∷ rs) in
      let left = drop p (r ∷ rs) in
      let (rest, b, looked, h1, calm1) = look_unstopped arrivals l h calm in
      let (rest', opened, h2, calm2) = gate_opens rest (set_paused b l) h1 running calm1 in
      let l1 = run_batch schedule table keys batch (set_paused false l) in
      let kept = (run_batch_keeps schedule table keys batch (set_paused false l)).1 in
      let (batches, parts, sizes, rest'', b', done) =
        migrate_batches_resumed fuel p left rest' l1 positive
          (omega (arith, length-drop p (r ∷ rs))) (kept.0 ∙ running) h2
          (subst (λ c. paused_in_the_end rest' c ≡ false) (sym kept.1) calm2) in
      (
        batch ∷ batches,
        ap (◌++◌ batch) parts ∙ take-append-drop p (r ∷ rs),
        (ground (arith, length-take p (r ∷ rs)), sizes),
        rest'',
        b',
        round fuel p r rs arrivals rest rest' l (set_paused b l) (set_paused false l) looked running
              opened
            ∙ done
            ∙ ap (λ m. some (rest'', set_paused b' m))
                (ap (run_batches batches) (run_batch_paused schedule table keys batch false l)
                  ∙ run_batches_paused batches false (run_batch schedule table keys batch l)),
      )
