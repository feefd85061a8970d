-- ===== src/Examples/LoginSession/Concurrent/Members.antt =====
-- Only those who have logged in are shown the pages for them, in examples/login-session.rs.
use rouille.Common.{
  Bool, ◌≡◌, refl, sym, ◌⊎◌, inl, inr, true, false, Bool-cases, if◌then◌else◌, Option, none, some,
  List, [], ◌∷◌, ◌++◌, Text, text_eq, text_eq_iff, arith,
}
use rouille.Http.Request.{Request, Bodies}
use rouille.Session.{Session}
use rouille.Examples.LoginSession.{SessionData, Storage, Crates}
use rouille.Examples.LoginSession.Table.{table}
use rouille.Examples.LoginSession.Events.{
  Event, logs_in, logs_out, nothing, event, after, loaded, stored_over, is_for_members,
  table_stranger, handler-eq_some,
}
use rouille.Examples.LoginSession.Concurrent.{
  Waiting, Answered, Site, session_of, key_of, Move, first_use, second_use, Reach, start, moves,
  HasLogin,
}

module _ (crates : Crates) where
  abbrev IsBacked : List Answered → Text → Option SessionData → Type 0
  IsBacked answered key none = Unit
  IsBacked answered key (some d) = HasLogin crates answered key d

  abbrev AreBacked : List Answered → List Waiting → Type 0
  AreBacked answered [] = Unit
  AreBacked answered (w ∷ ws) =
      ((key : Text) → IsBacked answered key (w.first key)) × AreBacked answered ws

  -- Each page for those who have logged in was given to a session that had been logged in.
  abbrev AreGuarded : List Answered → Type 0
  AreGuarded [] = Unit
  AreGuarded (a ∷ earlier) =
      ((is_for_members a.response ≡ false)
        ⊎ ((d : SessionData) × HasLogin crates earlier (key_of a) d))
      × AreGuarded earlier

  record IsSafe (s : Site) : Type 0 where
    backed : (key : Text) → IsBacked s.answered key (s.storage key)
    waiting_backed : AreBacked s.answered s.waiting
    guarded : AreGuarded s.answered

  one_more :
      (a : Answered) (answered : List Answered) (key : Text) (session_data : Option SessionData)
      → IsBacked answered key session_data
      → IsBacked (a ∷ answered) key session_data
  one_more a answered key none h = tt
  one_more a answered key (some d) h = inr h

  one_more_each :
      (a : Answered) (answered : List Answered) (ws : List Waiting)
      → AreBacked answered ws
      → AreBacked (a ∷ answered) ws
  one_more_each a answered [] h = tt
  one_more_each a answered (w ∷ ws) (h, hs) =
      (λ key. one_more a answered key (w.first key) (h key), one_more_each a answered ws hs)

  AreBacked-append :
      (answered : List Answered) (before later : List Waiting)
      → AreBacked answered before
      → AreBacked answered later
      → AreBacked answered (before ++ later)
  AreBacked-append answered [] later h g = g
  AreBacked-append answered (w ∷ before) later (h, hs) g =
      (h, AreBacked-append answered before later hs g)

  AreBacked-parts :
      (answered : List Answered) (before : List Waiting) (w : Waiting) (later : List Waiting)
      → AreBacked answered (before ++ w ∷ later)
      → ((key : Text) → IsBacked answered key (w.first key)) × AreBacked answered (before ++ later)
  AreBacked-parts answered [] w later (h, hs) = (h, hs)
  AreBacked-parts answered (b ∷ before) w later (h, hs) =
      let (found, others) = AreBacked-parts answered before w later hs in (found, (h, others))

  loaded-IsBacked :
      (answered : List Answered) (s : Session) (first : Storage)
      → ((key : Text) → IsBacked answered key (first key))
      → IsBacked answered s.key (loaded s first)
  loaded-IsBacked answered s first h = elim (Bool-cases s.key_was_given) [
    | inl given ↦ rw given (h s.key)
    | inr not_given ↦ rw not_given tt
  ]

  after-IsBacked :
      (a : Answered) (answered : List Answered) (session_data : Option SessionData) (e : Event)
      → event crates a.request a.bodies ≡ e
      → IsBacked answered (key_of a) session_data
      → IsBacked (a ∷ answered) (key_of a) (after e session_data)
  after-IsBacked a answered session_data (logs_in d) same h = inl (refl, same)
  after-IsBacked a answered session_data logs_out same h = tt
  after-IsBacked a answered session_data nothing same h =
      one_more a answered (key_of a) session_data h

  stored_over-IsBacked :
      (answered : List Answered) (key : Text) (given : Bool) (new old : Option SessionData)
      → IsBacked answered key new
      → IsBacked answered key old
      → IsBacked answered key (stored_over given new old)
  stored_over-IsBacked answered key given (some d) old h g = h
  stored_over-IsBacked answered key true none old h g = tt
  stored_over-IsBacked answered key false none old h g = g

  second_use-IsBacked :
      (answered : List Answered) (a : Answered) (session_data old : Option SessionData) (key : Text)
      (given : Bool)
      → IsBacked answered (key_of a) session_data
      → IsBacked answered key old
      → IsBacked (a ∷ answered) key (
          if text_eq key (key_of a)
          then stored_over given (after (event crates a.request a.bodies) session_data) old
          else old)
  second_use-IsBacked answered a session_data old key given h g =
      elim (Bool-cases (text_eq key (key_of a))) [
        | inl same ↦
            let e = event crates a.request a.bodies in
            rw same (
              stored_over-IsBacked (a ∷ answered) key given (after e session_data) old
                (rw ((text_eq_iff key (key_of a)).0 same)
                  (after-IsBacked a answered session_data e refl h))
                (one_more a answered key old g))
        | inr other ↦ rw other (one_more a answered key old g)
      ]

  guarded_now :
      (answered : List Answered) (request : Request) (bodies : Bodies) (key : Text)
      (session_data : Option SessionData)
      → IsBacked answered key session_data
      → (is_for_members (table crates request session_data bodies).response ≡ false)
        ⊎ ((d : SessionData) × HasLogin crates answered key d)
  guarded_now answered request bodies key none h = inl (table_stranger crates request bodies)
  guarded_now answered request bodies key (some d) h = inr (d, h)

  Move-IsSafe : (s t : Site) → Move crates s t → IsSafe s → IsSafe t
  Move-IsSafe s t (first_use request bodies generated f) h = rw f (record {
    backed = h.backed;
    waiting_backed =
        AreBacked-append s.answered s.waiting
          (record { request = request; bodies = bodies; generated = generated; first = s.storage }
            ∷ [])
          h.waiting_backed (h.backed, tt);
    guarded = h.guarded;
  })
  Move-IsSafe s t (second_use before w later response storage e g f) h =
      let a : Answered = record {
        request = w.request;
        bodies = w.bodies;
        generated = w.generated;
        response = response;
      } in
      let session = session_of w.request w.generated in
      let (first_backed, others) =
        AreBacked-parts s.answered before w later (rw (sym e) h.waiting_backed) in
      let data_backed = loaded-IsBacked s.answered session w.first first_backed in
      let (shown, stored) =
        handler-eq_some crates w.request w.bodies w.generated w.first s.storage storage response
          g in
      rw f (record {
        backed = λ key. rw (stored key) (
            second_use-IsBacked s.answered a (loaded session w.first) (s.storage key) key
              session.key_was_given data_backed (h.backed key));
        waiting_backed = one_more_each a s.answered (before ++ later) others;
        guarded = (
          rw shown (
              guarded_now s.answered w.request w.bodies session.key (loaded session w.first)
                data_backed),
          h.guarded,
        );
      })

  Reach-IsSafe : {s : Site} → Reach crates s → IsSafe s
  Reach-IsSafe start = record { backed = λ key. tt; waiting_backed = tt; guarded = tt }
  Reach-IsSafe (moves {s = s} {t = t} reach move) = Move-IsSafe s t move (Reach-IsSafe reach)

  AreGuarded-parts :
      (later : List Answered) (a : Answered) (earlier : List Answered)
      → AreGuarded (later ++ a ∷ earlier)
      → (is_for_members a.response ≡ false)
        ⊎ ((d : SessionData) × HasLogin crates earlier (key_of a) d)
  AreGuarded-parts [] a earlier h = h.0
  AreGuarded-parts (b ∷ later) a earlier h = AreGuarded-parts later a earlier h.1

  or_logged_in : (b : Bool) (A : Type 0) → b ≡ true → (b ≡ false) ⊎ A → A
  or_logged_in b A e (inl f) = absurd (ground arith)
  or_logged_in b A e (inr x) = x

  -- However the requests interleave: a request that is answered with one of the pages for those who
  -- have logged in has the identifier of a session for which, before, a request was answered that
  -- came to `/login` with a form whose password begins with `b`.
  pub members_only :
      (s : Site) (later : List Answered) (a : Answered) (earlier : List Answered)
      → Reach crates s
      → s.answered ≡ later ++ a ∷ earlier
      → is_for_members a.response ≡ true
      → (d : SessionData) × HasLogin crates earlier (key_of a) d
  members_only s later a earlier reach e shown =
      or_logged_in (is_for_members a.response)
        ((d : SessionData) × HasLogin crates earlier (key_of a) d) shown
        (AreGuarded-parts later a earlier (rw (sym e) (Reach-IsSafe reach).guarded))
