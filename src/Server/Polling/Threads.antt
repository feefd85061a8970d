-- ===== src/Server/Polling/Threads.antt =====
-- The loops of `Server` in src/lib.rs on `Executor::Threaded`.
use rouille.Common.{◌≡◌, refl, ap, sym, ◌∙◌, List, [], ◌∷◌, ◌++◌, append-nil, append_assoc, map}
use rouille.Server.Executor.{
  ServerState, Job, running, fetch_add, Reach, arrives, moves, receive, spawn,
}
use rouille.Server.Polling.{Turn, run, stoppable, taken_in_turns, stoppable-run}

abbrev pub running_job : {R : Type 0} → R → Job R
running_job r = record { stage = running; request = r }

-- `process`, when `execute` has returned: the counter is made and the thread is there.
abbrev pub execute : {R O : Type 0} → R → ServerState R O → ServerState R O
execute r s = record s { count = fetch_add s.count; jobs = s.jobs ++ running_job r ∷ [] }

module _ {R O : Type 0} (serve : R → O) where
  pub execute-Reach :
      (rs : List R) (r : R) (s : ServerState R O)
      → s.pending ≡ []
      → Reach serve rs s
      → Reach serve (rs ++ r ∷ []) (execute r s)
  execute-Reach rs r s e reach =
      moves (moves (arrives r reach) (receive r [] (ap (λ q. q ++ r ∷ []) e) refl))
        (spawn s.jobs [] r refl (ap (λ q. record (execute r s) { pending = q }) e))

  run-Reach :
      (rs : List R) (s : ServerState R O) (requests : List R)
      → s.pending ≡ []
      → Reach serve rs s
      → Reach serve (rs ++ requests) (run execute requests s)
        × ((run execute requests s).jobs ≡ s.jobs ++ map running_job requests)
        × ((run execute requests s).pending ≡ [])
  unfolding run
  run-Reach rs s [] e reach = (rw (append-nil rs) reach, sym (append-nil s.jobs), e)
  run-Reach rs s (r ∷ requests) e reach =
      let (there, jobs, none_held) =
        run-Reach (rs ++ r ∷ []) (execute r s) requests e (execute-Reach rs r s e reach) in
      (
        rw (sym (append_assoc rs (r ∷ []) requests)) there,
        jobs ∙ append_assoc s.jobs (running_job r ∷ []) (map running_job requests),
        none_held,
      )

  -- On a server that holds no request, the thread of `stoppable` executes exactly the requests that
  -- `recv_timeout` gives in the turns before the one in which a message is there, in each turn those
  -- before it first gives none or fails: in their order, each in a thread of its own beside those
  -- that are there. The state is one that a server can reach at which these requests have arrived.
  pub stoppable-Reach :
      (rs : List R) (s : ServerState R O) (turns : List (Turn R))
      → s.pending ≡ []
      → Reach serve rs s
      → Reach serve (rs ++ taken_in_turns turns) (stoppable execute turns s)
        × ((stoppable execute turns s).jobs ≡ s.jobs ++ map running_job (taken_in_turns turns))
        × ((stoppable execute turns s).pending ≡ [])
  stoppable-Reach rs s turns e reach =
      rw (stoppable-run execute turns s) (run-Reach rs s (taken_in_turns turns) e reach)
