-- ===== src/Server/Executor/Completion.antt =====
-- The server of src/lib.rs gets done with what has arrived.
use rouille.Common.{
  ℕ, zero, suc, ◌+◌, ◌*◌, ◌≡◌, ◌⊎◌, inl, inr, refl, ap, Bool, false, List, [], ◌∷◌, ◌++◌, length,
  arith,
}
use rouille.Server.Executor.{
  ServerState, Job, Stage, counted, running, leaving, at_stage, Move, receive, spawn, finish,
  drop_counter, Moves, none, first, Reach, moves, still_waits,
}
use rouille.Server.Executor.Counting.{join_iff}
use rouille.Server.Executor.Tallies.{tally, jobs_tally, Reach-IsKept}

abbrev stage_work : Stage → ℕ
stage_work counted = 3
stage_work running = 2
stage_work leaving = 1

abbrev jobs_work : {R : Type 0} → List (Job R) → ℕ
jobs_work [] = 0
jobs_work (j ∷ js) = stage_work j.stage + jobs_work js

-- How many moves there are at most: four for a request that waits.
abbrev pub work : {R O : Type 0} → ServerState R O → ℕ
work s = 4 * length s.pending + jobs_work s.jobs

jobs_work-append :
    {R : Type 0} (xs ys : List (Job R)) → jobs_work (xs ++ ys) ≡ jobs_work xs + jobs_work ys
jobs_work-append [] ys = omega arith
jobs_work-append (x ∷ xs) ys = omega (arith, jobs_work-append xs ys)

module _ {R O : Type 0} (serve : R → O) where
  -- Each move is one less to do.
  Move-work : (s t : ServerState R O) → Move serve s t → work s ≡ work t + 1
  Move-work s t (receive r rest e f) = omega (
    arith,
    ap length e,
    ap work f,
    jobs_work-append s.jobs (record { stage = counted; request = r } ∷ []),
  )
  Move-work s t (spawn before after r e f) = omega (
    arith,
    ap jobs_work e,
    ap work f,
    jobs_work-append before (record { stage = counted; request = r } ∷ after),
    jobs_work-append before (record { stage = running; request = r } ∷ after),
  )
  Move-work s t (finish before after r e f) = omega (
    arith,
    ap jobs_work e,
    ap work f,
    jobs_work-append before (record { stage = running; request = r } ∷ after),
    jobs_work-append before (record { stage = leaving; request = r } ∷ after),
  )
  Move-work s t (drop_counter before after r e f) = omega (
    arith,
    ap jobs_work e,
    ap work f,
    jobs_work-append before (record { stage = leaving; request = r } ∷ after),
    jobs_work-append before after,
  )

  -- Nothing waits and nothing is in work.
  abbrev pub IsDone : ServerState R O → Type 0
  IsDone s = (s.pending ≡ []) × (s.jobs ≡ [])

  -- What is done, or can move.
  abbrev pub GoesOn : ServerState R O → Type 0
  GoesOn s = IsDone s ⊎ ((t : ServerState R O) × Move serve s t)

  job_moves :
      (s : ServerState R O) (stage : Stage) (r : R) (js : List (Job R))
      → s.jobs ≡ at_stage [] stage r js
      → (t : ServerState R O) × Move serve s t
  job_moves s counted r js e = (_, spawn [] js r e refl)
  job_moves s running r js e = (_, finish [] js r e refl)
  job_moves s leaving r js e = (_, drop_counter [] js r e refl)

  goes_on :
      (s : ServerState R O) (js : List (Job R)) (rs : List R)
      → s.jobs ≡ js
      → s.pending ≡ rs
      → GoesOn s
  goes_on s (j ∷ js) rs e f = inr (job_moves s j.stage j.request js e)
  goes_on s [] (r ∷ rs) e f = inr (_, receive r rs f refl)
  goes_on s [] [] e f = inl (f, e)

  IsDone-work : (s : ServerState R O) → IsDone s → work s ≡ 0
  IsDone-work s (e, f) = omega (arith, ap length e, ap jobs_work f)

  Reach-Moves :
      {rs : List R} {n : ℕ} {s t : ServerState R O}
      → Reach serve rs s
      → Moves serve s n t
      → Reach serve rs t
  Reach-Moves reach none = reach
  Reach-Moves reach (first move rest) = Reach-Moves (moves reach move) rest

  drained :
      (n : ℕ) (s : ServerState R O)
      → work s ≡ n
      → (t : ServerState R O) × Moves serve s n t × IsDone t
  drained zero s e = elim (goes_on s s.jobs s.pending refl refl) [
    | inl done ↦ (s, none, done)
    | inr (t, move) ↦ absurd (omega (arith, e, Move-work s t move))
  ]
  drained (suc n) s e = elim (goes_on s s.jobs s.pending refl refl) [
    | inl done ↦ absurd (omega (arith, e, IsDone-work s done))
    | inr (t, move) ↦
        let (u, rest, done) = drained n t (omega (arith, e, Move-work s t move)) in
        (u, first move rest, done)
  ]

  -- From every state that a server can reach, with no more requests arriving, and for closures that
  -- end, it can get to a state
  -- at which no request waits or is in work, the test of `join` lets it return, and of the results,
  -- for every test on results, as many pass as of what the closure makes of the requests that have
  -- arrived: each request has been served once.
  pub drain_lem :
      (rs : List R) (s : ServerState R O)
      → Reach serve rs s
      → (t : ServerState R O) × Moves serve s (work s) t
        × IsDone t
        × (still_waits t.count ≡ false)
        × ((p : O → Bool) → tally (λ r. p (serve r)) rs ≡ tally p t.results)
  drain_lem rs s reach =
      let (t, run, (no_pending, no_jobs)) = drained (work s) s refl in
      let reach' = Reach-Moves reach run in
      (
        t,
        run,
        (no_pending, no_jobs),
        (join_iff serve rs t reach' (omega (arith, ap length no_jobs))).1 no_jobs,
        λ p. omega (
          arith,
          Reach-IsKept serve p reach',
          ap (tally (λ r. p (serve r))) no_pending,
          ap (jobs_tally (λ r. p (serve r))) no_jobs,
        ),
      )
