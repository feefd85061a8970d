-- ===== src/Server/Start.antt =====
-- The making of a server in src/lib.rs: `Executor`, `Server::new`, `new_ssl`, `pool_size` and
-- `start_server`. A closure that is executed for a request is named by the request.
use rouille.Common.{
  ℕ, zero, suc, ◌*◌, ◌≡◌, refl, sym, ap, ◌∙◌, Bool, not, Option, none, some, List, [], ◌∷◌, ◌++◌,
  ◌>>=◌, Bytes, map, append-nil, append_assoc, length,
}
use rouille.Server.Executor.{ServerState, new_server, still_waits}
use rouille.Server.Polling.Threads.{execute, running_job}

-- `threadpool::ThreadPool`. `new` panics with the result `none`, and `is_idle` is whether `join`
-- returns.
pub record ThreadPool (R : Type 0) : Type 1 where
  pub Pool : Type 0
  pub new : ℕ → Option Pool
  pub execute : R → Pool → Pool
  pub is_idle : Pool → Bool

pub record SslConfig : Type 0 where
  pub certificate : Bytes
  pub private_key : Bytes

-- `tiny_http::Server`: listening, which may fail, and what `incoming_requests` gives in each round:
-- a request, or `none`, with which it ends when the socket is closed. It need not end.
pub record Listener (A R : Type 0) : Type 1 where
  pub Socket : Type 0
  pub http : A → Option Socket
  pub https : A → SslConfig → Option Socket
  pub incoming_requests : Socket → ℕ → Option R

pub data Executor (R O Pool : Type 0) : Type 0 where
  threaded : ServerState R O → Executor R O Pool
  pooled : Pool → Executor R O Pool

-- What `start_server` has come to after so many rounds of its loop: a panic, of which the last is
-- that behind the loop, or it still serves. What has become of the executor stands beside it.
pub data Outcome (E : Type 0) : Type 0 where
  failed_to_start no_threads : Outcome E
  socket_closed serving : E → Outcome E

-- `Server`, but for the handler
pub record Server (Socket E : Type 0) : Type 0 where
  pub server : Socket
  pub executor : E

map_append : {A B : Type 0} (f : A → B) (xs ys : List A) → map f (xs ++ ys) ≡ map f xs ++ map f ys
map_append f [] ys = refl
map_append f (x ∷ xs) ys = ap (◌∷◌ (f x)) (map_append f xs ys)

module _ {A R : Type 0} (O : Type 0) (tiny_http : Listener A R) (threadpool : ThreadPool R) where
  open tiny_http use {Socket, http, https, incoming_requests}
  open threadpool use {Pool, new, is_idle}

  abbrev pub OnExecutor : Type 0
  OnExecutor = Executor R O Pool

  abbrev pub execute_on : R → OnExecutor → OnExecutor
  execute_on r (threaded s) = threaded (execute r s)
  execute_on r (pooled pool) = pooled (threadpool.execute r pool)

  -- Whether `join` returns.
  abbrev join_returns : OnExecutor → Bool
  join_returns (threaded s) = not (still_waits s.count)
  join_returns (pooled pool) = is_idle pool

  abbrev default_executor : OnExecutor
  default_executor = threaded new_server

  abbrev with_size : ℕ → Option OnExecutor
  with_size size = new size >>= λ pool. some (pooled pool)

  abbrev listening : Socket → Server Socket OnExecutor
  listening socket = record { server = socket; executor = default_executor }

  abbrev new_http : A → Option (Server Socket OnExecutor)
  new_http addr = http addr >>= λ socket. some (listening socket)

  abbrev new_ssl : A → Bytes → Bytes → Option (Server Socket OnExecutor)
  new_ssl addr certificate private_key =
      https addr (record { certificate = certificate; private_key = private_key }) >>= λ socket.
      some (listening socket)

  abbrev pool_size : ℕ → Server Socket OnExecutor → Option (Server Socket OnExecutor)
  pool_size size s = with_size size >>= λ e. some (record s { executor = e })

  -- The loop of `run` and the panic behind it.
  unfoldable run_server : ℕ → (ℕ → Option R) → OnExecutor → Outcome OnExecutor
  run_server zero incoming e = serving e
  run_server (suc rounds) incoming e = elim (incoming 0) [
    | none ↦ socket_closed e
    | some r ↦ run_server rounds (λ i. incoming (suc i)) (execute_on r e)
  ]

  abbrev run_on : ℕ → Server Socket OnExecutor → Outcome OnExecutor
  run_on rounds s = run_server rounds (incoming_requests s.server) s.executor

  abbrev run_started : ℕ → Option (Server Socket OnExecutor) → Outcome OnExecutor
  run_started rounds none = failed_to_start
  run_started rounds (some s) = run_on rounds s

  unfoldable pub start_server : ℕ → A → Outcome OnExecutor
  unfolding run_server
  start_server rounds addr = run_started rounds (new_http addr)

  -- `available_parallelism().map(|n| n.get()).unwrap_or(1)`
  abbrev threads_of : Option ℕ → ℕ
  threads_of none = 1
  threads_of (some n) = n

  abbrev pub size_of : Option ℕ → Option ℕ → ℕ
  size_of available_parallelism none = 8 * threads_of available_parallelism
  size_of available_parallelism (some n) = n

  abbrev after_pool_size : ℕ → Option (Server Socket OnExecutor) → Outcome OnExecutor
  after_pool_size rounds none = no_threads
  after_pool_size rounds (some s) = run_on rounds s

  abbrev run_with_size : ℕ → ℕ → Option (Server Socket OnExecutor) → Outcome OnExecutor
  run_with_size rounds size none = failed_to_start
  run_with_size rounds size (some s) = after_pool_size rounds (pool_size size s)

  unfoldable pub start_server_with_pool : ℕ → Option ℕ → A → Option ℕ → Outcome OnExecutor
  unfolding run_server
  start_server_with_pool rounds available_parallelism addr size =
      run_with_size rounds (size_of available_parallelism size) (new_http addr)

  -- What the crate threadpool documents: a pool has at least one thread, or `new` panics, and it
  -- takes each closure that `execute` is given.
  pub record IsPool : Type 0 where
    pub given : Pool → List R
    pub new_zero : new 0 ≡ none
    pub new_suc : (n : ℕ) → (pool : Pool) × (new (suc n) ≡ some pool) × (given pool ≡ [])
    pub given-execute :
        (r : R) (pool : Pool) → given (threadpool.execute r pool) ≡ given pool ++ r ∷ []

  module _ (h : IsPool) where
    -- The requests whose closures the executor has been given.
    abbrev pub given_on : OnExecutor → List R
    given_on (threaded s) = map (λ job. job.request) s.jobs
    given_on (pooled pool) = h.given pool

    abbrev pub requests_at : Outcome OnExecutor → Outcome (List R)
    requests_at failed_to_start = failed_to_start
    requests_at no_threads = no_threads
    requests_at (socket_closed e) = socket_closed (given_on e)
    requests_at (serving e) = serving (given_on e)

    -- These are the first requests that come.
    abbrev pub Brings : (ℕ → Option R) → List R → Type 0
    Brings incoming [] = Unit
    Brings incoming (r ∷ rs) = (incoming 0 ≡ some r) × Brings (λ i. incoming (suc i)) rs

    -- The round behind these requests.
    abbrev pub behind : List R → Option R → Outcome (List R)
    behind rs none = socket_closed rs
    behind rs (some r) = serving (rs ++ r ∷ [])

    -- What is to be after one round more than these requests, when the socket is there or not and
    -- for so many threads.
    abbrev pub expected : List R → Option Socket → ℕ → Outcome (List R)
    expected rs none n = failed_to_start
    expected rs (some socket) zero = no_threads
    expected rs (some socket) (suc n) = behind rs (incoming_requests socket (length rs))

    given_on-execute_on :
        (r : R) (e : OnExecutor) → given_on (execute_on r e) ≡ given_on e ++ r ∷ []
    given_on-execute_on r (threaded s) = map_append (λ job. job.request) s.jobs (running_job r ∷ [])
    given_on-execute_on r (pooled pool) = h.given-execute r pool

    abbrev on_round : ℕ → (ℕ → Option R) → OnExecutor → Option R → Outcome OnExecutor
    on_round rounds incoming e none = socket_closed e
    on_round rounds incoming e (some r) = run_server rounds (λ i. incoming (suc i)) (execute_on r e)

    run_server-on_round :
        (rounds : ℕ) (incoming : ℕ → Option R) (e : OnExecutor) (next : Option R)
        → incoming 0 ≡ next
        → requests_at (run_server (suc rounds) incoming e)
          ≡ requests_at (on_round rounds incoming e next)
    unfolding run_server
    run_server-on_round rounds incoming e next n =
        ap (λ o. requests_at (on_round rounds incoming e o)) n

    last_round :
        (next : Option R) (incoming : ℕ → Option R) (e : OnExecutor)
        → incoming 0 ≡ next
        → requests_at (run_server 1 incoming e) ≡ behind (given_on e) next
    unfolding run_server
    last_round none incoming e n = run_server-on_round 0 incoming e none n
    last_round (some r) incoming e n =
        run_server-on_round 0 incoming e (some r) n ∙ ap serving (given_on-execute_on r e)

    run_server_lem :
        (rs : List R) (incoming : ℕ → Option R) (e : OnExecutor)
        → Brings incoming rs
        → requests_at (run_server (suc (length rs)) incoming e)
          ≡ behind (given_on e ++ rs) (incoming (length rs))
    unfolding run_server
    run_server_lem [] incoming e b =
        last_round (incoming 0) incoming e refl
        ∙ ap (λ rs. behind rs (incoming 0)) (sym (append-nil (given_on e)))
    run_server_lem (r ∷ rs) incoming e (first, b) =
        run_server-on_round (suc (length rs)) incoming e (some r) first
        ∙ run_server_lem rs (λ i. incoming (suc i)) (execute_on r e) b
        ∙ ap (λ given. behind given (incoming (suc (length rs))))
            (ap (λ given. given ++ rs) (given_on-execute_on r e)
              ∙ append_assoc (given_on e) (r ∷ []) rs)

    run_started-expected :
        (rs : List R) (listened : Option Socket)
        → ((socket : Socket) → listened ≡ some socket → Brings (incoming_requests socket) rs)
        → requests_at
            (run_started (suc (length rs)) (listened >>= λ socket. some (listening socket)))
          ≡ expected rs listened 1
    run_started-expected rs none b = refl
    run_started-expected rs (some socket) b =
        run_server_lem rs (incoming_requests socket) default_executor (b socket refl)

    run_with_size-expected :
        (rs : List R) (size : ℕ) (listened : Option Socket)
        → ((socket : Socket) → listened ≡ some socket → Brings (incoming_requests socket) rs)
        → requests_at
            (run_with_size (suc (length rs)) size (listened >>= λ socket. some (listening socket)))
          ≡ expected rs listened size
    run_with_size-expected rs size none b = refl
    run_with_size-expected rs zero (some socket) b = rw h.new_zero refl
    run_with_size-expected rs (suc n) (some socket) b =
        let (pool, made, empty) = h.new_suc n in
        rw made (
          run_server_lem rs (incoming_requests socket) (pooled pool) (b socket refl)
          ∙ ap (λ given. behind (given ++ rs) (incoming_requests socket (length rs))) empty)

    -- If these are the first requests that come on a socket of the address: after one round more,
    -- `start_server` and `start_server_with_pool` have ended in a panic or serve on. If listening
    -- fails, it is the panic of `expect`; with a pool of no threads, it is that of the pool, which
    -- comes before any request is taken; if the socket is closed behind these requests, it is the
    -- panic behind the loop, and each of them has been handed to the executor, in order;
    -- otherwise the server serves, and has handed the next request to the executor as well.
    pub start_server_lem :
        (available_parallelism : Option ℕ) (addr : A) (size : Option ℕ) (rs : List R)
        → ((socket : Socket) → http addr ≡ some socket → Brings (incoming_requests socket) rs)
        → (requests_at (start_server (suc (length rs)) addr) ≡ expected rs (http addr) 1)
          × (requests_at (start_server_with_pool (suc (length rs)) available_parallelism addr size)
              ≡ expected rs (http addr) (size_of available_parallelism size))
    unfolding start_server start_server_with_pool
    start_server_lem available_parallelism addr size rs b = (
      run_started-expected rs (http addr) b,
      run_with_size-expected rs (size_of available_parallelism size) (http addr) b,
    )
