-- ===== src/Examples/LoginSession.antt =====
-- examples/login-session.rs: a site whose pages are for those who have logged in.
pub mod Table
pub mod Events
pub mod Concurrent
pub mod Sequence
use rouille.Common.{
  Bool, true, false, if◌then◌else◌, Option, none, some, List, [], ◌∷◌, ◌++◌, ◌>>=◌, Bytes, Text,
  text, text_eq, starts_with,
}
use rouille.Common.Results.{Result, ok, err, map_err}
use rouille.Http.Request.{Request, Bodies}
use rouille.Http.Response.{Response, html, redirect_303, empty_404}
use rouille.Input.Multipart.{Multipart}
use rouille.Input.Post.{PostError}
use rouille.Input.Post.Fields.{decode_string}
use rouille.Input.Post.Form.{Field, Entry, PostInput, post_input}
use rouille.Input.Post.Sources.{as_error}
use rouille.Logging.ErrorChain.{AnError, ErrJson, TryOr400, goes_on, returns, try_or_400}
use rouille.Routing.{Outcome, Route, router}
use rouille.Routing.OldStyle.{Token, slash, slash_ident, check_pattern}
use rouille.Session.{Session, client_has_sid, id, open_session, close_session}
use rouille.Examples.Branches.{branch}

pub record SessionData : Type 0 where
  pub login : Text

-- The `HashMap` behind the lock.
abbrev pub Storage : Type 0
Storage = Text → Option SessionData

abbrev pub insert : Text → SessionData → Storage → Storage
insert key d storage k = if text_eq k key then some d else storage k

abbrev pub remove : Text → Storage → Storage
remove key storage k = if text_eq k key then none else storage k

abbrev pub logout_page : Text
logout_page =
    text "Logout successful.\n"
    ++ text "                                     <a href=\"/\">Click here to go to the h"
    ++ text "ome</a>"

abbrev pub login_form : Text
login_form =
    text "\n"
    ++ text "                    <p>Hint: in this example all passwords that start with t"
    ++ text "he letter 'b'\n"
    ++ text "                       (lowercase) are valid.</p>\n"
    ++ text "                    <form action=\"/login\" method=\"POST\">\n"
    ++ text "                        <input type=\"text\" name=\"login\" placeholder=\"Lo"
    ++ text "gin\" />\n"
    ++ text "                        <input type=\"password\" name=\"password\" placehold"
    ++ text "er=\"Password\" />\n"
    ++ text "                        <button type=\"submit\">Go!</button>\n"
    ++ text "                    </form>\n"
    ++ text "                    <p>Or you can try <a href=\"/private\">going to the priv"
    ++ text "ate area</a>\n"
    ++ text "                       without logging in, but you will be redirected back h"
    ++ text "ere.</p>\n"
    ++ text "                "

abbrev pub greeting_page : Text
greeting_page =
    text "You are now logged in. If you close your tab and open it again,\n"
    ++ text "                              you will still be logged in.<br />\n"
    ++ text "                              <a href=\"/private\">Click here for the privat"
    ++ text "e area</a>\n"
    ++ text "                              <form action=\"/logout\" method=\"POST\">\n"
    ++ text "                              <button>Logout</button></form>"

abbrev pub private_page : Text
private_page = text "You are in the private area! <a href=\"/\">Go back</a>."

abbrev pub wrong_page : Text
wrong_page = text "Wrong login/password"

-- What a function that handles a request leaves.
pub record RouteResult : Type 0 where
  pub response : Response
  pub session_data : Option SessionData
  pub bodies : Bodies

-- The first use of the lock.
unfoldable pub load : Session → Storage → Option SessionData × Session
unfolding id
load session storage =
    let (key, session') = id session in
    if client_has_sid session then (storage key, session') else (none, session)

-- The second use of the lock.
unfoldable pub store : Session → Option SessionData → Storage → Storage × Session
unfolding id
store session (some d) storage =
    let (key, session') = id session in (insert key d storage, session')
store session none storage =
    let (key, session') = id session in
    if client_has_sid session then (remove key storage, session') else (storage, session)

-- The block of `/logout`.
abbrev pub log_out : Bodies → RouteResult
log_out bodies = record { response = html logout_page; session_data = none; bodies = bodies }

abbrev pub unchanged : Option SessionData → Bodies → Response → RouteResult
unchanged session_data bodies r = record {
  response = r;
  session_data = session_data;
  bodies = bodies;
}

-- What is used of other crates.
pub record Crates : Type 1 where
  pub ParseIntError : Type 0
  pub ParseFloatError : Type 0
  pub io : AnError
  pub int : ParseIntError → AnError
  pub float : ParseFloatError → AnError
  pub parse : Bytes → List (Text × Text)
  pub entries : Multipart → List Entry
  pub percent_decode_lossy : Bytes → Text
  pub to_string : ErrJson → Text

module _ (crates : Crates) where
  open crates use {
    ParseIntError, ParseFloatError, io, int, float, parse, entries, percent_decode_lossy, to_string,
  }

  abbrev pub string_field : Text → Field ParseIntError ParseFloatError
  string_field name = record {
    name = name;
    Config = Unit;
    config = tt;
    Ty = Text;
    decode = decode_string;
  }

  abbrev pub fields : List (Field ParseIntError ParseFloatError)
  fields = string_field (text "login") ∷ string_field (text "password") ∷ []

  abbrev pub Credentials : Type 0
  Credentials = PostInput fields

  abbrev pub form :
      Request → Bodies → Result Credentials (PostError ParseIntError ParseFloatError) × Bodies
  form = post_input parse entries fields

  abbrev pub checked : Credentials → Option SessionData → Bodies → RouteResult
  checked (login, (password, end)) session_data bodies =
      if starts_with (text "b") password
      then record {
        response = redirect_303 (text "/");
        session_data = some (record { login = login });
        bodies = bodies;
      }
      else record { response = html wrong_page; session_data = session_data; bodies = bodies }

  abbrev after_form : TryOr400 Credentials → Option SessionData → Bodies → RouteResult
  after_form (goes_on credentials) session_data bodies = checked credentials session_data bodies
  after_form (returns r) session_data bodies = record {
    response = r;
    session_data = session_data;
    bodies = bodies;
  }

  -- The block of `/login`.
  unfoldable pub log_in : Request → Option SessionData → Bodies → RouteResult
  unfolding post_input try_or_400 as_error html redirect_303
  log_in request session_data bodies =
      let (result, rest) = form request bodies in
      after_form (try_or_400 to_string (map_err (as_error io int float) result)) session_data rest

  unfoldable pub handle_route_logged_in : Request → SessionData → Option Response
  unfolding router html empty_404
  handle_route_logged_in request session_data =
      router request
        (branch percent_decode_lossy (text "GET") (slash ∷ []) (html greeting_page)
          ∷ branch percent_decode_lossy (text "GET") (slash_ident (text "private") ∷ [])
              (html private_page)
          ∷ [])
        empty_404

  unfoldable pub handle_route_logged_out : Request → Option Response
  unfolding router html redirect_303
  handle_route_logged_out request =
      router request (branch percent_decode_lossy (text "GET") (slash ∷ []) (html login_form) ∷ [])
        (redirect_303 (text "/"))

  abbrev pub private_part : Request → Option SessionData → Option Response
  private_part request (some d) = handle_route_logged_in request d
  private_part request none = handle_route_logged_out request

  abbrev pub or_private_part :
      Request → Option SessionData → Bodies → Option RouteResult → Option RouteResult
  or_private_part request session_data bodies (some handled) = some handled
  or_private_part request session_data bodies none =
      private_part request session_data >>= λ r. some (unchanged session_data bodies r)

  -- `handle_route`; the outer `none` is a panic of `router!`. Both branches of its first `router!`
  -- return.
  unfoldable pub handle_route : Request → Option SessionData → Bodies → Option RouteResult
  unfolding router log_in handle_route_logged_in handle_route_logged_out
  handle_route request session_data bodies =
      router request
        (branch percent_decode_lossy (text "POST") (slash_ident (text "login") ∷ [])
            (some (log_in request session_data bodies))
          ∷ branch percent_decode_lossy (text "POST") (slash_ident (text "logout") ∷ [])
              (some (log_out bodies))
          ∷ [])
        none
      >>= or_private_part request session_data bodies

  abbrev stored_back : RouteResult → Storage × Session → Response × Session × Storage
  stored_back routed (storage, session) = (routed.response, session, storage)

  -- The closure that `session` is given, with the table at its two uses of the lock.
  unfoldable pub inner :
      Request → Bodies → Storage → Storage → Session → Option (Response × Session × Storage)
  unfolding load handle_route store
  inner request bodies first second session =
      let (session_data, session') = load session first in
      handle_route request session_data bodies >>= λ routed.
      some (stored_back routed (store session' routed.session_data second))

  abbrev closed : Response × Session × Storage → Response × Storage
  closed (response, session, storage) =
      (close_session (text "SID") 3600 (response, session), storage)

  -- The handler that the server is started with; `log` gives its response on.
  unfoldable pub handler : Request → Bodies → Text → Storage → Storage → Option (Response × Storage)
  unfolding open_session inner close_session
  handler request bodies generated first second =
      inner request bodies first second (open_session request (text "SID") generated) >>= λ left.
      some (closed left)
