-- ===== src/Server/Tests.antt =====
-- A server and an answer that the theorems on `Server` in src/lib.rs are applied to.
use rouille.Common.{
  ℕ, zero, suc, ◌≡◌, ◌↔◌, refl, Bool, true, false, Option, none, some, List, [], ◌∷◌, ◌++◌, Bytes,
  text, arith, eq_ignore_ascii_case,
}
use rouille.Common.Utf8.{as_bytes}
use rouille.Http.Body.{cursor, from_string}
use rouille.Http.Request.{Request, Bodies}
use rouille.Http.Response.{html, with_status_code}
use rouille.Server.Executor.{
  ServerState, leaving, new_server, Reach, start, Moves, none as no_moves, still_waits,
}
use rouille.Server.Executor.Counting.{join_iff}
use rouille.Server.Executor.Tallies.{tally}
use rouille.Server.Executor.Completion.{work, IsDone, drain_lem}
use rouille.Server.Polling.{Turn, request, nothing, stoppable}
use rouille.Server.Polling.Threads.{execute, running_job, execute-Reach, stoppable-Reach}
use rouille.Server.Start.{
  Listener, ThreadPool, IsPool, requests_at, start_server, start_server_with_pool, serving,
  start_server_lem,
}
use rouille.Server.Process.{
  TinyHttp, Incoming, Handled, panicked, respond, process, internal_server_error,
}
use rouille.Server.Process.Forwarding.{process_lem}

abbrev serve : ℕ → ℕ
serve r = suc r

-- A server with one request in work.
abbrev busy : ServerState ℕ ℕ
busy = execute 7 new_server

busy-Reach : Reach serve (7 ∷ []) busy
busy-Reach = execute-Reach serve [] 7 new_server refl start

join_iff_example : (still_waits busy.count ≡ false) ↔ (busy.jobs ≡ [])
join_iff_example = join_iff serve (7 ∷ []) busy busy-Reach (omega arith)

drain_lem_example :
    (t : ServerState ℕ ℕ) × Moves serve busy (work busy) t
    × IsDone serve t
    × (still_waits t.count ≡ false)
    × ((p : ℕ → Bool) → tally (λ r. p (serve r)) (7 ∷ []) ≡ tally p t.results)
drain_lem_example = drain_lem serve (7 ∷ []) busy busy-Reach

abbrev ended : ServerState ℕ ℕ
ended = record {
  count = 1;
  pending = [];
  jobs = record { stage = leaving; request = 7 } ∷ [];
  results = 8 ∷ [];
}

-- One request in the first turn, and one that comes behind the message.
abbrev two_turns : List (Turn ℕ)
two_turns =
    record { message = false; received = request 8 ∷ nothing ∷ [] }
    ∷ record { message = true; received = request 9 ∷ [] }
    ∷ []

stoppable-Reach_example :
    Reach serve (7 ∷ 8 ∷ []) (stoppable execute two_turns busy)
    × ((stoppable execute two_turns busy).jobs ≡ running_job 7 ∷ running_job 8 ∷ [])
    × ((stoppable execute two_turns busy).pending ≡ [])
stoppable-Reach_example = stoppable-Reach serve (7 ∷ []) busy two_turns refl busy-Reach

-- Two requests, before the socket is closed.
abbrev coming : ℕ → Option ℕ
coming zero = some 7
coming (suc zero) = some 8
coming (suc (suc i)) = none

-- Every address can be listened on.
abbrev listener : Listener ℕ ℕ
listener = record {
  Socket = Unit;
  http = λ addr. some tt;
  https = λ addr config. some tt;
  incoming_requests = λ socket. coming;
}

abbrev new_pool : ℕ → Option (List ℕ)
new_pool zero = none
new_pool (suc n) = some []

-- A pool as what it was given.
abbrev listing : ThreadPool ℕ
listing = record {
  Pool = List ℕ;
  new = new_pool;
  execute = λ r pool. pool ++ r ∷ [];
  is_idle = λ pool. true;
}

listing-IsPool : IsPool ℕ listener listing
listing-IsPool = record {
  given = λ pool. pool;
  new_zero = refl;
  new_suc = λ n. ([], refl, refl);
  given-execute = λ r pool. refl;
}

start_server_lem_example :
    (requests_at ℕ listener listing listing-IsPool (start_server ℕ listener listing 2 80)
      ≡ serving (7 ∷ 8 ∷ []))
    × (requests_at ℕ listener listing listing-IsPool
          (start_server_with_pool ℕ listener listing 2 (some 4) 80 none)
        ≡ serving (7 ∷ 8 ∷ []))
start_server_lem_example =
    start_server_lem ℕ listener listing listing-IsPool (some 4) 80 none (7 ∷ [])
      (λ socket there. (refl, tt))

-- Responses as what they are made of.
abbrev pub Written : Type 0
Written = ℕ × Bytes × List (Bytes × Bytes)

abbrev pub written : TinyHttp
written = record {
  TinyResponse = Written;
  Header = Bytes × Bytes;
  empty = λ status. (status, [], []);
  with_data = λ reader len w. (w.0, reader.content, w.2);
  from_bytes = λ key value. some (key, value);
  add_header = λ h w. (w.0, w.1, w.2 ++ h ∷ []);
}

abbrev get_root : Incoming
get_root = record {
  url = text "/";
  method = text "GET";
  headers = [];
  remote_addr = none;
  body = cursor [];
}

-- A handler that panics.
abbrev fails : Request → Bodies → Handled
fails r bodies = panicked

process_lem_example :
    process written fails get_root
    ≡ respond (
      500,
      text "<h1>Internal Server Error</h1><p>An internal error has occurred on the server.</p>",
      (text "Content-Type", text "text/html; charset=utf-8") ∷ [],
    )
unfolding text html with_status_code internal_server_error eq_ignore_ascii_case from_string as_bytes
process_lem_example = process_lem written fails get_root panicked refl
