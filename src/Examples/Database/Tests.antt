-- ===== src/Examples/Database/Tests.antt =====
-- A database with one note that the theorem on examples/database.rs is applied to.
use rouille.Common.{refl, ◌≡◌, ◌⊎◌, false, none, some, [], ◌∷◌, Text, text}
use rouille.Http.Body.{cursor}
use rouille.Http.Request.{Request, Bodies, stored}
use rouille.Logging.ErrorChain.{error, no_source}
use rouille.Examples.Database.{Crates, Locked, handler}
use rouille.Examples.Database.Commits.{IsTransactional, IsCommitted, handler_lem}

-- The database is the content of the note.
abbrev one_note : Crates
one_note = record {
  Db = Text;
  NoteId = Text;
  parse = some;
  display = λ id. id;
  transaction = some;
  commit = λ db left. some left;
  without_commit = λ db. db;
  select_ids = λ db. some (text "5" ∷ []);
  select_content = λ id db. some (db ∷ []);
  update_content = λ id body db. some (1, body);
  insert_content = λ body db. some (text "5" ∷ [], body);
  delete_note = λ id db. some (1, []);
  percent_decode_lossy = λ bytes. bytes;
  io = error [] no_source;
  error_to_string = λ json. [];
  elements_to_string = λ elements. [];
}

one_note-IsTransactional : IsTransactional one_note
one_note-IsTransactional = record {
  begins = λ db start e. cc;
  commits = λ db left after e. cc;
  rolls_back = λ db. refl;
}

abbrev put_note : Request
put_note = record {
  method = text "PUT";
  url = text "/note/5";
  headers = (text "Content-Type", text "text/plain") ∷ [];
  https = false;
  shared_data = 0;
  remote_addr = none;
}

abbrev new_content : Bodies
new_content = stored 0 (cursor (text "new")) (λ place. none)

abbrev old_note : Locked one_note
old_note = record { db = text "old"; poisoned = false }

handler_lem_example :
    ((handler one_note put_note new_content old_note).1.db ≡ text "old")
    ⊎ IsCommitted one_note put_note new_content
        (text "old")
        (handler one_note put_note new_content old_note).0
        (handler one_note put_note new_content old_note).1
handler_lem_example = handler_lem one_note one_note-IsTransactional put_note new_content old_note
