-- ===== src/Server/Executor/Tallies.antt =====
-- Each request that reaches the server of src/lib.rs is served once: it waits, or it is in work, or
-- its result is there. Told by the number of those that pass a test.
use rouille.Common.{ℕ, ◌+◌, ◌≡◌, refl, ap, Bool, true, false, List, [], ◌∷◌, ◌++◌, arith}
use rouille.Server.Executor.{
  ServerState, Job, Stage, counted, running, leaving, Move, receive, spawn, finish, drop_counter,
  Reach, start, arrives, moves,
}

abbrev bit : Bool → ℕ
bit true = 1
bit false = 0

-- How many of a list pass a test.
abbrev pub tally : {A : Type 0} → (A → Bool) → List A → ℕ
tally p [] = 0
tally p (x ∷ xs) = bit (p x) + tally p xs

-- The same for the jobs whose result is not there yet.
abbrev stage_tally : Stage → Bool → ℕ
stage_tally counted b = bit b
stage_tally running b = bit b
stage_tally leaving b = 0

abbrev pub jobs_tally : {R : Type 0} → (R → Bool) → List (Job R) → ℕ
jobs_tally q [] = 0
jobs_tally q (j ∷ js) = stage_tally j.stage (q j.request) + jobs_tally q js

tally-append :
    {A : Type 0} (p : A → Bool) (xs ys : List A) → tally p (xs ++ ys) ≡ tally p xs + tally p ys
tally-append p [] ys = omega arith
tally-append p (x ∷ xs) ys = omega (arith, tally-append p xs ys)

jobs_tally-append :
    {R : Type 0} (q : R → Bool) (xs ys : List (Job R))
    → jobs_tally q (xs ++ ys) ≡ jobs_tally q xs + jobs_tally q ys
jobs_tally-append q [] ys = omega arith
jobs_tally-append q (x ∷ xs) ys = omega (arith, jobs_tally-append q xs ys)

module _ {R O : Type 0} (serve : R → O) (p : O → Bool) where
  -- Whether the result of a request passes.
  abbrev passes : R → Bool
  passes r = p (serve r)

  abbrev IsKept : List R → ServerState R O → Type 0
  IsKept rs s =
      tally passes rs ≡ tally passes s.pending + jobs_tally passes s.jobs + tally p s.results

  Move-IsKept : (rs : List R) (s t : ServerState R O) → Move serve s t → IsKept rs s → IsKept rs t
  Move-IsKept rs s t (receive r rest e f) h = omega (
    arith,
    h,
    ap (tally passes) e,
    ap (λ u. tally passes u.pending) f,
    ap (λ u. jobs_tally passes u.jobs) f,
    ap (λ u. tally p u.results) f,
    jobs_tally-append passes s.jobs (record { stage = counted; request = r } ∷ []),
  )
  Move-IsKept rs s t (spawn before after r e f) h = omega (
    arith,
    h,
    ap (jobs_tally passes) e,
    ap (λ u. tally passes u.pending) f,
    ap (λ u. jobs_tally passes u.jobs) f,
    ap (λ u. tally p u.results) f,
    jobs_tally-append passes before (record { stage = counted; request = r } ∷ after),
    jobs_tally-append passes before (record { stage = running; request = r } ∷ after),
  )
  Move-IsKept rs s t (finish before after r e f) h = omega (
    arith,
    h,
    ap (jobs_tally passes) e,
    ap (λ u. tally passes u.pending) f,
    ap (λ u. jobs_tally passes u.jobs) f,
    ap (λ u. tally p u.results) f,
    jobs_tally-append passes before (record { stage = running; request = r } ∷ after),
    jobs_tally-append passes before (record { stage = leaving; request = r } ∷ after),
  )
  Move-IsKept rs s t (drop_counter before after r e f) h = omega (
    arith,
    h,
    ap (jobs_tally passes) e,
    ap (λ u. tally passes u.pending) f,
    ap (λ u. jobs_tally passes u.jobs) f,
    ap (λ u. tally p u.results) f,
    jobs_tally-append passes before (record { stage = leaving; request = r } ∷ after),
    jobs_tally-append passes before after,
  )

  pub Reach-IsKept : {rs : List R} {s : ServerState R O} → Reach serve rs s → IsKept rs s
  Reach-IsKept start = refl
  Reach-IsKept (arrives {rs = rs} {s = s} r reach) = omega (
    arith,
    Reach-IsKept reach,
    tally-append passes rs (r ∷ []),
    tally-append passes s.pending (r ∷ []),
  )
  Reach-IsKept (moves {rs = rs} {s = s} {t = t} reach move) =
      Move-IsKept rs s t move (Reach-IsKept reach)
