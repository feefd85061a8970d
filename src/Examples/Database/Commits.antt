-- ===== src/Examples/Database/Commits.antt =====
-- When a request to the server of examples/database.rs changes the database.
use mathlib.Core.Path.{subst}
use rouille.Common.{
  ◌≡◌, refl, ap, ◌∙◌, ◌⊎◌, inl, inr, Bool, true, false, ◌||◌, Bool-cases, Option-cases, Option,
  none, some, List, [], ◌∷◌, ◌>>=◌, Text, text, text_eq, arith,
}
use rouille.Http.Request.{Request, Bodies}
use rouille.Http.Response.{Response, is_success, empty_404}
use rouille.Routing.{request_url}
use rouille.Routing.OldStyle.{slash, slash_ident, slash_typed_param}
use rouille.Examples.Database.{
  Crates, Locked, routes, note_routes, committed, unlocked, handler, greet, list_notes, show_note,
  with_id,
}
use rouille.Examples.Branches.Values.{IfSome, router-IfSome, branch_with-GivesOnly}

-- The methods of the requests that write.
abbrev pub writes : Text → Bool
writes method =
    text_eq method (text "PUT") || text_eq method (text "POST") || text_eq method (text "DELETE")

other_method : (a b c : Bool) → (a || b || c) ≡ false → (a ≡ false) × (b ≡ false) × (c ≡ false)
other_method a b c e = ground arith

module _ (crates : Crates) where
  open crates use {
    Db, NoteId, parse, transaction, commit, without_commit, percent_decode_lossy, select_ids,
    select_content,
  }

  -- The transaction leaves the database as it is.
  abbrev Keeps : Db → Response × Db → Type 0
  Keeps db (response, db') = db' ≡ db

  list_notes-Keeps : (db : Db) → IfSome (Keeps db) (list_notes crates db)
  list_notes-Keeps db = elim (Option-cases (select_ids db)) [
    | inl fails ↦ rw fails tt
    | inr (rows, e) ↦ rw e refl
  ]

  show_note-Keeps :
      (db : Db) (ids : List NoteId) → IfSome (Keeps db) (with_id crates (show_note crates db) ids)
  show_note-Keeps db [] = tt
  show_note-Keeps db (id ∷ ids) = elim (Option-cases (select_content id db)) [
    | inl fails ↦ rw fails tt
    | inr (rows, e) ↦ rw e refl
  ]

  note_routes-Keeps :
      (request : Request) (bodies : Bodies) (db : Db)
      → writes request.method ≡ false
      → IfSome (Keeps db) (note_routes crates request bodies db)
  unfolding note_routes routes
  note_routes-Keeps request bodies db e =
      let (not_put, not_post, not_delete) =
        other_method (text_eq request.method (text "PUT")) (text_eq request.method (text "POST"))
          (text_eq request.method (text "DELETE")) e in
      router-IfSome (Keeps db) request (routes crates request bodies db) (empty_404, db)
        (
          inr (
              branch_with-GivesOnly (Keeps db) parse percent_decode_lossy (text "GET")
                (request_url request) (slash ∷ []) (λ ids. greet crates db) (λ ids. refl)),
          (
            inr (
                branch_with-GivesOnly (Keeps db) parse percent_decode_lossy (text "GET")
                  (request_url request) (slash_ident (text "notes") ∷ [])
                  (λ ids. list_notes crates db) (λ ids. list_notes-Keeps db)),
            (
              inr (
                  branch_with-GivesOnly (Keeps db) parse percent_decode_lossy (text "GET")
                    (request_url request) (slash_ident (text "note") ∷ slash_typed_param ∷ [])
                    (with_id crates (show_note crates db)) (show_note-Keeps db)),
              (inl not_put, (inl not_post, (inl not_delete, tt))),
            ),
          ),
        )
        refl

  -- What postgres documents of transactions: one begins with what the database holds, and what it
  -- has made of it is what the database holds after it is committed; without a commit, the database is
  -- as it was.
  pub record IsTransactional : Type 0 where
    pub begins : (db start : Db) → transaction db ≡ some start → start ≡ db
    pub commits : (db left after : Db) → commit db left ≡ some after → after ≡ left
    pub rolls_back : (db : Db) → without_commit db ≡ db

  -- A success of a writing request, whose changes are committed.
  pub record IsCommitted (request : Request) (bodies : Bodies) (db : Db) (out : Option Response)
      (after : Locked crates) : Type 0 where
    pub response : Response
    pub left : Db
    pub routed : note_routes crates request bodies db ≡ some (response, left)
    pub succeeds : is_success response ≡ true
    pub writing : writes request.method ≡ true
    pub answered : out ≡ some response
    pub is_left : after ≡ record { db = left; poisoned = false }

  kept :
      (request : Request) (bodies : Bodies) (db left : Db) (response : Response)
      → note_routes crates request bodies db ≡ some (response, left)
      → writes request.method ≡ false
      → left ≡ db
  kept request bodies db left response e reading =
      subst (IfSome (Keeps db)) e (note_routes-Keeps request bodies db reading)

  module _ (h : IsTransactional) where
    abbrev IsSafe : Request → Bodies → Db → Option Response × Locked crates → Type 0
    IsSafe request bodies db out = (out.1.db ≡ db) ⊎ IsCommitted request bodies db out.0 out.1

    after_commit :
        (request : Request) (bodies : Bodies) (db left : Db) (response : Response)
        (after : Option Db)
        → note_routes crates request bodies db ≡ some (response, left)
        → is_success response ≡ true
        → commit db left ≡ after
        → IsSafe request bodies db (unlocked crates db (after >>= λ a. some (response, a)))
    after_commit request bodies db left response none e success done = inl (h.rolls_back db)
    after_commit request bodies db left response (some after) e success done =
        elim (Bool-cases (writes request.method)) [
          | inl writing ↦ inr (record {
            response = response;
            left = left;
            routed = e;
            succeeds = success;
            writing = writing;
            answered = refl;
            is_left = ap (λ a. record { db = a; poisoned = false }) (h.commits db left after done);
          })
          | inr reading ↦
              inl (h.commits db left after done ∙ kept request bodies db left response e reading)
        ]

    after_routes :
        (request : Request) (bodies : Bodies) (db : Db) (out : Option (Response × Db))
        → note_routes crates request bodies db ≡ out
        → IsSafe request bodies db (unlocked crates db (out >>= committed crates db))
    after_routes request bodies db none e = inl (h.rolls_back db)
    after_routes request bodies db (some (response, left)) e =
        elim (Bool-cases (is_success response)) [
          | inl success ↦
              rw success
                (after_commit request bodies db left response (commit db left) e success refl)
          | inr failure ↦ rw failure (inl (h.rolls_back db))
        ]

    after_begin :
        (request : Request) (bodies : Bodies) (db : Db) (started : Option Db)
        → transaction db ≡ started
        → IsSafe request bodies db (
            unlocked crates db
              (started >>= note_routes crates request bodies >>= committed crates db))
    after_begin request bodies db none e = inl (h.rolls_back db)
    after_begin request bodies db (some start) e =
        rw (h.begins db start e)
          (after_routes request bodies db (note_routes crates request bodies db) refl)

    -- With transactions that begin with what the database holds, whose commit makes it hold what they
    -- have made of it, and which are rolled back without a commit: whatever the request and whether the handler panics, the database is as
    -- it was, or the request is a PUT, POST or DELETE whose response is a success, and the database
    -- is what the routes have made of it.
    pub handler_lem :
        (request : Request) (bodies : Bodies) (locked : Locked crates)
        → ((handler crates request bodies locked).1.db ≡ locked.db)
          ⊎ IsCommitted request bodies locked.db
              (handler crates request bodies locked).0
              (handler crates request bodies locked).1
    unfolding handler
    handler_lem request bodies locked = elim (Bool-cases locked.poisoned) [
      | inl poisoned ↦ rw poisoned (inl refl)
      | inr sound ↦ rw sound (after_begin request bodies locked.db (transaction locked.db) refl)
    ]
