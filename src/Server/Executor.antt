-- ===== src/Server/Executor.antt =====
-- `Executor::Threaded` of src/lib.rs, `Server` on it, and the threads, which move in any order. `R`
-- is a request of tiny_http, and `serve` is the closure of `process`, with all that comes of it: a
-- thread makes the move `finish` when its closure returns, and one whose closure never does stays.
pub mod Counting
pub mod Tallies
pub mod Completion
use rouille.Common.{
  ℕ, suc, ◌+◌, ◌-◌, ◌%◌, ◌^◌, ◌≡◌, Bool, true, false, List, [], ◌∷◌, ◌++◌, ltb, arith,
}

-- Where a call of `execute` is: the counter is made and the thread is not there yet; the thread is
-- in the closure; the closure has ended and the counter is not dropped yet.
pub data Stage : Type 0 where
  counted running leaving : Stage

pub record Job (R : Type 0) : Type 0 where
  pub stage : Stage
  pub request : R

-- The `AtomicUsize`, the requests that tiny_http holds, the calls of `execute`, and the results of
-- the closures that have ended, the last one first.
pub record ServerState (R O : Type 0) : Type 0 where
  pub count : ℕ
  pub pending : List R
  pub jobs : List (Job R)
  pub results : List O

-- `fetch_add(1)` and `fetch_sub(1)`, which wrap around.
abbrev pub fetch_add : ℕ → ℕ
fetch_add count = (count + 1) % 2 ^ 64

abbrev fetch_sub : ℕ → ℕ
fetch_sub count = (count + (2 ^ 64 - 1)) % 2 ^ 64

-- `count.load(…) > 0`, on which `join` goes on waiting.
abbrev pub still_waits : ℕ → Bool
still_waits count = ltb 0 count

-- One job among the others, at another stage.
abbrev pub at_stage : {R : Type 0} → List (Job R) → Stage → R → List (Job R) → List (Job R)
at_stage before stage r after = before ++ record { stage = stage; request = r } ∷ after

module _ {R O : Type 0} where
  -- `Server::new`
  abbrev pub new_server : ServerState R O
  new_server = record { count = 0; pending = []; jobs = []; results = [] }

  abbrev arrived : R → ServerState R O → ServerState R O
  arrived r s = record s { pending = s.pending ++ r ∷ [] }

  -- A request is received and `AtomicCounter::new` is called for it.
  abbrev pub received : R → List R → ServerState R O → ServerState R O
  received r rest s = record s {
    count = fetch_add s.count;
    pending = rest;
    jobs = s.jobs ++ record { stage = counted; request = r } ∷ [];
  }

  -- `drop` of the `AtomicCounter` at the end of the thread
  abbrev dropped : List (Job R) → List (Job R) → ServerState R O → ServerState R O
  dropped before after s = record s { count = fetch_sub s.count; jobs = before ++ after }

  module _ (serve : R → O) where
    -- What the server and its threads do.
    pub data Move (s t : ServerState R O) : Type 0 where
      receive : (r : R) (rest : List R) → s.pending ≡ r ∷ rest → t ≡ received r rest s → Move s t
      spawn :
          (before after : List (Job R)) (r : R)
          → s.jobs ≡ at_stage before counted r after
          → t ≡ record s { jobs = at_stage before running r after }
          → Move s t
      finish :
          (before after : List (Job R)) (r : R)
          → s.jobs ≡ at_stage before running r after
          → t ≡ record s { jobs = at_stage before leaving r after; results = serve r ∷ s.results }
          → Move s t
      drop_counter :
          (before after : List (Job R)) (r : R)
          → s.jobs ≡ at_stage before leaving r after
          → t ≡ dropped before after s
          → Move s t

    -- The states of a server at which these requests have arrived so far.
    pub data Reach : List R → ServerState R O → Type 0 where
      start : Reach [] new_server
      arrives :
          {rs : List R} {s : ServerState R O} (r : R)
          → Reach rs s
          → Reach (rs ++ r ∷ []) (arrived r s)
      moves : {rs : List R} {s t : ServerState R O} → Reach rs s → Move s t → Reach rs t

    -- So many moves.
    pub data Moves : ServerState R O → ℕ → ServerState R O → Type 0 where
      none : {s : ServerState R O} → Moves s 0 s
      first : {n : ℕ} {s t u : ServerState R O} → Move s t → Moves t n u → Moves s (suc n) u
