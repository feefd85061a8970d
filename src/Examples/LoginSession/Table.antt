-- ===== src/Examples/LoginSession/Table.antt =====
-- `handle_route` of examples/login-session.rs against the table of its routes.
use rouille.Common.{◌≡◌, if◌then◌else◌, Option, none, some, text, arith}
use rouille.Http.Request.{Request, Bodies}
use rouille.Http.Response.{Response, html, redirect_303, empty_404}
use rouille.Routing.{router, dispatch, request_url}
use rouille.Routing.OldStyle.{check_pattern}
use rouille.Examples.LoginSession.{
  SessionData, RouteResult, Crates, log_in, log_out, unchanged, handle_route,
  handle_route_logged_in, handle_route_logged_out, private_page, greeting_page, login_form,
}
use rouille.Examples.Branches.{goes_to, branch-ident}

-- What is shown beside the routes that all clients have.
abbrev pub page : Request → Option SessionData → Response
page request none =
    if goes_to (text "GET") (text "/") request then html login_form else redirect_303 (text "/")
page request (some session_data) =
    if goes_to (text "GET") (text "/") request
    then html greeting_page
    else if goes_to (text "GET") (text "/private") request
    then html private_page
    else empty_404

module _ (crates : Crates) where
  abbrev pub table : Request → Option SessionData → Bodies → RouteResult
  table request session_data bodies =
      if goes_to (text "POST") (text "/login") request
      then log_in crates request session_data bodies
      else if goes_to (text "POST") (text "/logout") request
      then log_out bodies
      else unchanged session_data bodies (page request session_data)

  handle_route_logged_in-page :
      (request : Request) (session_data : SessionData)
      → handle_route_logged_in crates request session_data ≡ some (page request (some session_data))
  unfolding handle_route_logged_in router dispatch check_pattern text
  handle_route_logged_in-page request session_data = ground (
    arith,
    branch-ident crates.percent_decode_lossy (text "GET") (text "private") (request_url request)
        (html private_page),
  )

  handle_route_logged_out-page :
      (request : Request) → handle_route_logged_out crates request ≡ some (page request none)
  unfolding handle_route_logged_out router dispatch check_pattern text
  handle_route_logged_out-page request = ground arith

  -- No request makes `handle_route` panic, and what it gives is what the table of its routes says.
  pub handle_route-table :
      (request : Request) (session_data : Option SessionData) (bodies : Bodies)
      → handle_route crates request session_data bodies ≡ some (table request session_data bodies)
  unfolding handle_route router dispatch text
  handle_route-table request none bodies = ground (
    arith,
    branch-ident crates.percent_decode_lossy (text "POST") (text "login") (request_url request)
        (some (log_in crates request none bodies)),
    branch-ident crates.percent_decode_lossy (text "POST") (text "logout") (request_url request)
        (some (log_out bodies)),
    handle_route_logged_out-page request,
  )
  handle_route-table request (some d) bodies = ground (
    arith,
    branch-ident crates.percent_decode_lossy (text "POST") (text "login") (request_url request)
        (some (log_in crates request (some d) bodies)),
    branch-ident crates.percent_decode_lossy (text "POST") (text "logout") (request_url request)
        (some (log_out bodies)),
    handle_route_logged_in-page request d,
  )
