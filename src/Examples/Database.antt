-- ===== src/Examples/Database.antt =====
-- examples/database.rs: notes in a database behind a lock, each request in a transaction of its own.
pub mod Commits
mod Tests
use rouille.Common.{
  ℕ, Bool, true, false, leb, if◌then◌else◌, Option, none, some, List, [], ◌∷◌, ◌++◌, ◌>>=◌, Bytes,
  Text, text, map,
}
use rouille.Http.Request.{Request, Bodies}
use rouille.Http.Response.{
  Response, is_success, text as text_response, json, empty_404, with_status_code,
  with_additional_header,
}
use rouille.Common.Results.{Result, ok, err}
use rouille.Input.Plain.{
  PlainTextError, PlainTextResult, ok as plain_ok, err as plain_err, plain_text_body,
}
use rouille.Input.Plain.Sources.{as_error}
use rouille.Logging.ErrorChain.{AnError, ErrJson, TryOr400, goes_on, returns, try_or_400}
use rouille.Routing.{Route, router}
use rouille.Routing.OldStyle.{slash, slash_ident, slash_typed_param}
use rouille.Examples.Branches.{branch_with}

-- The crate postgres with this database, and what is used of other crates. `Db` is what the
-- database holds, `NoteId` is `i32`, and `none` is an error, on which `unwrap` panics. `without_commit` is what the
-- database holds that has held this before, when its transaction has ended without a commit, be it
-- dropped or be it that the commit has failed.
pub record Crates : Type 1 where
  pub Db : Type 0
  pub NoteId : Type 0
  pub parse : Text → Option NoteId
  pub display : NoteId → Text
  pub transaction : Db → Option Db
  pub commit : Db → Db → Option Db
  pub without_commit : Db → Db
  pub select_ids : Db → Option (List NoteId)
  pub select_content : NoteId → Db → Option (List Text)
  pub update_content : NoteId → Text → Db → Option (ℕ × Db)
  pub insert_content : Text → Db → Option (List NoteId × Db)
  pub delete_note : NoteId → Db → Option (ℕ × Db)
  pub percent_decode_lossy : Bytes → Text
  pub io : AnError
  pub error_to_string : ErrJson → Text
  pub elements_to_string : List Text → Text

-- The last of the rows that the loop goes over.
abbrev last_row : {A : Type 0} → Option A → List A → Option A
last_row found [] = found
last_row found (row ∷ rows) = last_row (some row) rows

module _ (crates : Crates) where
  open crates use {
    Db, NoteId, parse, display, transaction, commit, without_commit, select_ids, select_content,
    update_content, insert_content, delete_note, percent_decode_lossy, io, error_to_string,
    elements_to_string,
  }

  -- The value of a block; `none` is a panic.
  abbrev pub Outcome : Type 0
  Outcome = Option (Response × Db)

  abbrev note_path : NoteId → Text
  note_path id = text "/note/" ++ display id

  -- `GET /`
  abbrev greet : Db → Outcome
  greet db = some (text_response (text "Hello! Unfortunately there is nothing to see here."), db)

  -- `GET /notes`
  abbrev list_notes : Db → Outcome
  list_notes db =
      select_ids db >>= λ rows. some (json (elements_to_string (map note_path rows)), db)

  abbrev content_response : Option Text → Response
  content_response (some content) = text_response content
  content_response none = empty_404

  -- `GET /note/{id}`
  abbrev show_note : Db → NoteId → Outcome
  show_note db id =
      select_content id db >>= λ rows. some (content_response (last_row none rows), db)

  abbrev as_result : PlainTextResult → Result Text AnError
  as_result (plain_ok body) = ok body
  as_result (plain_err e) = err (as_error io e)

  -- `let body = try_or_400!(plain_text_body(request));` and what follows it
  abbrev with_body : (Text → Outcome) → Db → TryOr400 Text → Outcome
  with_body k db (goes_on body) = k body
  with_body k db (returns response) = some (response, db)

  abbrev updated_response : ℕ → Response
  updated_response updated =
      if leb 1 updated then text_response (text "The note has been updated") else empty_404

  abbrev changed : ℕ × Db → Outcome
  changed (updated, db) = some (updated_response updated, db)

  abbrev created_response : NoteId → Response
  created_response id =
      with_additional_header (text "Location") (note_path id)
        (with_status_code 201 (text_response (text "The note has been created")))

  abbrev created : List NoteId × Db → Outcome
  created (rows, db) = last_row none rows >>= λ id. some (created_response id, db)

  abbrev deleted : ℕ × Db → Outcome
  deleted (rows, db) = some (text_response [], db)

  -- A block whose pattern has the parameter `id`.
  abbrev with_id : (NoteId → Outcome) → List NoteId → Outcome
  with_id block [] = none
  with_id block (id ∷ ids) = block id

  -- With the body of the request, which two of the blocks read.
  abbrev body_of : Request → Bodies → TryOr400 Text
  body_of request bodies = try_or_400 error_to_string (as_result (plain_text_body request bodies).0)

  -- The branches of `note_routes`.
  unfoldable pub routes : Request → Bodies → Db → List (Route (Response × Db))
  unfolding text_response json empty_404 with_status_code with_additional_header plain_text_body
      try_or_400 as_error
  routes request bodies db =
      let get = text "GET" in
      let note = slash_ident (text "note") in
      branch_with parse percent_decode_lossy get (slash ∷ []) (λ ids. greet db)
      ∷ branch_with parse percent_decode_lossy get (slash_ident (text "notes") ∷ [])
          (λ ids. list_notes db)
      ∷ branch_with parse percent_decode_lossy get (note ∷ slash_typed_param ∷ [])
          (with_id (show_note db))
      ∷ branch_with parse percent_decode_lossy (text "PUT") (note ∷ slash_typed_param ∷ []) (
          with_id (λ id.
            with_body (λ body. update_content id body db >>= changed) db (body_of request bodies)))
      ∷ branch_with parse percent_decode_lossy (text "POST") (note ∷ []) (λ ids.
        with_body (λ body. insert_content body db >>= created) db (body_of request bodies))
      ∷ branch_with parse percent_decode_lossy (text "DELETE") (note ∷ slash_typed_param ∷ [])
          (with_id (λ id. delete_note id db >>= deleted))
      ∷ []

  unfoldable pub note_routes : Request → Bodies → Db → Outcome
  unfolding router routes empty_404
  note_routes request bodies db = router request (routes request bodies db) (empty_404, db)

  -- The database behind its lock, which a panic while it is held poisons.
  pub record Locked : Type 0 where
    pub db : Db
    pub poisoned : Bool

  abbrev committed : Db → Response × Db → Option (Response × Db)
  committed before (response, after) =
      if is_success response
      then (commit before after >>= λ db. some (response, db))
      else some (response, without_commit before)

  abbrev unlocked : Db → Option (Response × Db) → Option Response × Locked
  unlocked before none = (none, record { db = without_commit before; poisoned = true })
  unlocked before (some (response, db)) = (some response, record { db = db; poisoned = false })

  -- The handler that the server is started with. `none` is a panic.
  unfoldable pub handler : Request → Bodies → Locked → Option Response × Locked
  unfolding note_routes is_success
  handler request bodies locked =
      let done = transaction locked.db >>= note_routes request bodies >>= committed locked.db in
      if locked.poisoned then (none, locked) else unlocked locked.db done
