-- ===== src/Server/Executor/Counting.antt =====
-- The counter of `Executor::Threaded` in src/lib.rs counts the jobs, so that `join` returns only
-- when there are none.
use rouille.Common.{
  ◌+◌, ◌%◌, ◌^◌, ◌<◌, ◌≡◌, ◌↔◌, refl, ap, false, List, [], ◌∷◌, ◌++◌, length, length-append, arith,
}
use rouille.Server.Executor.{
  ServerState, Job, Stage, counted, running, leaving, at_stage, Move, receive, spawn, finish,
  drop_counter, Reach, start, arrives, moves, still_waits,
}

length-at_stage :
    {R : Type 0} (before after : List (Job R)) (stage : Stage) (r : R)
    → length (at_stage before stage r after) ≡ length (before ++ after) + 1
length-at_stage before after stage r = omega (
  arith,
  length-append before after,
  length-append before (record { stage = stage; request = r } ∷ after),
)

module _ {R O : Type 0} (serve : R → O) where
  abbrev IsCounted : ServerState R O → Type 0
  IsCounted s = s.count ≡ length s.jobs % 2 ^ 64

  Move-IsCounted : (s t : ServerState R O) → Move serve s t → IsCounted s → IsCounted t
  Move-IsCounted s t (receive r rest e f) h = omega (
    arith,
    h,
    ap (λ u. u.count) f,
    ap (λ u. length u.jobs) f,
    length-append s.jobs (record { stage = counted; request = r } ∷ []),
  )
  Move-IsCounted s t (spawn before after r e f) h = omega (
    arith,
    h,
    ap (λ u. u.count) f,
    ap length e,
    ap (λ u. length u.jobs) f,
    length-at_stage before after counted r,
    length-at_stage before after running r,
  )
  Move-IsCounted s t (finish before after r e f) h = omega (
    arith,
    h,
    ap (λ u. u.count) f,
    ap length e,
    ap (λ u. length u.jobs) f,
    length-at_stage before after running r,
    length-at_stage before after leaving r,
  )
  Move-IsCounted s t (drop_counter before after r e f) h = omega (
    arith,
    h,
    ap (λ u. u.count) f,
    ap length e,
    ap (λ u. length u.jobs) f,
    length-at_stage before after leaving r,
  )

  Reach-IsCounted : {rs : List R} {s : ServerState R O} → Reach serve rs s → IsCounted s
  Reach-IsCounted start = refl
  Reach-IsCounted (arrives r reach) = Reach-IsCounted reach
  Reach-IsCounted (moves {s = s} {t = t} reach move) =
      Move-IsCounted s t move (Reach-IsCounted reach)

  none_left : {A : Type 0} (xs : List A) → length xs ≡ 0 → xs ≡ []
  none_left [] e = refl
  none_left (x ∷ xs) e = absurd (omega arith)

  -- At every state that a server can reach, with fewer than 2^64 requests in work, the test of
  -- `join` lets it return exactly if no request is in work: none is between its receipt and the end
  -- of its thread.
  pub join_iff :
      (rs : List R) (s : ServerState R O)
      → Reach serve rs s
      → length s.jobs < 2 ^ 64
      → (still_waits s.count ≡ false) ↔ (s.jobs ≡ [])
  join_iff rs s reach small = (
    λ e. none_left s.jobs (ground (arith, Reach-IsCounted reach)),
    λ e. ground (arith, Reach-IsCounted reach),
  )
