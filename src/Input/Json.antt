-- ===== src/Input/Json.antt =====
-- JSON bodies, src/input/json.rs.
use rouille.Common.{if◌then◌else◌, Option, none, some, Text, text, starts_with}
use rouille.Http.Body.{Reader}
use rouille.Http.Request.{Request, Bodies, header, take_data}

pub data JsonError (E : Type 0) : Type 0 where
  body_already_extracted : JsonError E
  wrong_content_type : JsonError E
  io_error : JsonError E
  parse_error : E → JsonError E

-- `Display`
unfoldable describe : {E : Type 0} → JsonError E → Text
describe body_already_extracted = text "the body of the request was already extracted"
describe wrong_content_type = text "the request didn't have a JSON content type"
describe io_error =
    text "could not read the body from the request, or could not execute the CGI program"
describe (parse_error e) = text "error while parsing the JSON body"

pub data JsonResult (O E : Type 0) : Type 0 where
  ok : O → JsonResult O E
  err : E → JsonResult O E

-- `serde_json::from_reader`
module _ {O E : Type 0} (from_reader : Reader → JsonResult O E) where
  -- `From<serde_json::Error>`: what the parser reports, an I/O error too, is a `ParseError`.
  abbrev map_err : JsonResult O E → JsonResult O (JsonError E)
  map_err (ok value) = ok value
  map_err (err e) = err (parse_error e)

  abbrev pub from_body : Option Reader → JsonResult O (JsonError E)
  from_body none = err body_already_extracted
  from_body (some b) = map_err (from_reader b)

  unfoldable json_input : Request → Bodies → JsonResult O (JsonError E) × Bodies
  unfolding take_data
  json_input request bodies = elim (header request (text "Content-Type")) [
    | none ↦ (err wrong_content_type, bodies)
    | some content_type ↦
        let (body, rest) = take_data request bodies in
        if starts_with (text "application/json") content_type
        then (from_body body, rest)
        else (err wrong_content_type, bodies)
  ]
