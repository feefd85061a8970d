-- ===== src/Examples/SimpleForm.antt =====
-- examples/simple-form.rs, whose form has a text and files.
pub mod Submitted
mod Tests
use rouille.Common.{Option, none, some, List, [], ◌∷◌, ◌++◌, Text, text}
use rouille.Common.Results.{map_err}
use rouille.Http.Request.{Request, Bodies}
use rouille.Http.Response.{Response, html, empty_404}
use rouille.Input.Post.Fields.{decode_vec, decode_buffered_file, BufferedFile}
use rouille.Input.Post.Form.{Field, PostInput, post_input}
use rouille.Input.Post.Sources.{as_error}
use rouille.Logging.ErrorChain.{TryOr400, goes_on, returns, try_or_400}
use rouille.Routing.{router}
use rouille.Routing.OldStyle.{slash, slash_ident}
use rouille.Examples.Branches.{branch}
use rouille.Examples.LoginSession.{Crates, string_field}

-- `FORM`
abbrev pub form : Text
form =
    text "\n"
    ++ text "<html>\n"
    ++ text "    <head>\n"
    ++ text "        <title>Form</title>\n"
    ++ text "    </head>\n"
    ++ text "    <body>\n"
    ++ text "        <form action=\"submit\" method=\"POST\" enctype=\"multipart/form-data\">\n"
    ++ text "            <p><input type=\"text\" name=\"txt\" placeholder=\"Some text\" /></p>\n"
    ++ text "\n"
    ++ text "            <p><input type=\"file\" name=\"files\" multiple /></p>\n"
    ++ text "\n"
    ++ text "            <p><button>Upload</button></p>\n"
    ++ text "        </form>\n"
    ++ text "    </body>\n"
    ++ text "</html>\n"

module _ (crates : Crates) where
  open crates use {
    ParseIntError, ParseFloatError, io, int, float, parse, entries, percent_decode_lossy, to_string,
  }

  -- `files: Vec<BufferedFile>`
  abbrev pub files_field : Field ParseIntError ParseFloatError
  files_field = record {
    name = text "files";
    Config = Unit;
    config = tt;
    Ty = List BufferedFile;
    decode = decode_vec decode_buffered_file;
  }

  abbrev pub fields : List (Field ParseIntError ParseFloatError)
  fields = string_field crates (text "txt") ∷ files_field ∷ []

  abbrev pub answer : TryOr400 (PostInput fields) → Response
  answer (goes_on input) = html (text "Success! <a href=\"/\">Go back</a>.")
  answer (returns response) = response

  -- The block of `/submit`.
  unfoldable pub submit : Request → Bodies → Response
  unfolding post_input as_error try_or_400 html
  submit request bodies = answer (
      try_or_400 to_string
        (map_err (as_error io int float) (post_input parse entries fields request bodies).0))

  -- The closure that is given to `log`; `none` is a panic.
  unfoldable pub handler : Request → Bodies → Option Response
  unfolding router submit html empty_404
  handler request bodies =
      router request
        (branch percent_decode_lossy (text "GET") (slash ∷ []) (html form)
          ∷ branch percent_decode_lossy (text "POST") (slash_ident (text "submit") ∷ [])
              (submit request bodies)
          ∷ [])
        empty_404
