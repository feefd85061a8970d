-- ===== src/Examples/Tests.antt =====
-- A client of examples/login-session.rs that the theorems on it are applied to.
use rouille.Common.{
  ◌≡◌, refl, true, false, Option, none, some, [], ◌∷◌, map, Bytes, Text, text, split, split_once,
  text_eq, eq_ignore_ascii_case, starts_with, trim, trim_matches,
}
use rouille.Common.Utf8.{as_bytes}
use rouille.Http.Body.{cursor, from_string, from_data}
use rouille.Http.Request.{Request, Bodies, stored, taken, header}
use rouille.Http.Response.{Response, html, redirect_303, empty_404}
use rouille.Input.Cookies.{cookies, collect}
use rouille.Input.Post.Form.{post_input, receive}
use rouille.Logging.ErrorChain.{AnError, error, no_source}
use rouille.Session.{open_session}
use rouille.Examples.LoginSession.{SessionData, Storage, Crates, handle_route, handler, log_in}
use rouille.Examples.LoginSession.Table.{handle_route-table}
use rouille.Examples.LoginSession.Events.{is_for_members}
use rouille.Examples.LoginSession.Sequence.{Arrival, answer, sessions, answer-sessions}
use rouille.Examples.LoginSession.Concurrent.{
  Waiting, Answered, Site, Move, first_use, second_use, Reach, start, moves, HasLogin,
}
use rouille.Examples.LoginSession.Concurrent.Members.{members_only}
use rouille.Examples.LoginSession.Concurrent.Overlap.{logout_undone}
use rouille.Routing.OldStyle.{check_pattern}

abbrev pair_of : Text × Option Text → Text × Text
pair_of (name, none) = (name, [])
pair_of (name, some value) = (name, value)

abbrev failed : AnError
failed = error [] no_source

-- Forms without escapes, and bodies without entries.
abbrev pub crates : Crates
crates = record {
  ParseIntError = Unit;
  ParseFloatError = Unit;
  io = failed;
  int = λ e. failed;
  float = λ e. failed;
  parse = λ bytes. map (λ piece. pair_of (split_once b'=' piece)) (split b'&' bytes);
  entries = λ m. [];
  percent_decode_lossy = λ bytes. bytes;
  to_string = λ json. [];
}

-- A request of the session `k`.
abbrev pub of_client : Text → Text → Request
of_client method url = record {
  method = method;
  url = url;
  headers =
      (text "Cookie", text "SID=k")
      ∷ (text "Content-Type", text "application/x-www-form-urlencoded")
      ∷ [];
  https = false;
  shared_data = 0;
  remote_addr = none;
}

abbrev pub with_body : Bytes → Bodies
with_body bytes = stored 0 (cursor bytes) (λ place. none)

abbrev login : Arrival
login = record {
  request = of_client (text "POST") (text "/login");
  bodies = with_body (text "login=a&password=bc");
  generated = text "n";
}

abbrev visit : Arrival
visit = record {
  request = of_client (text "GET") (text "/private");
  bodies = with_body [];
  generated = text "n";
}

handle_route-table_example :
    handle_route crates login.request none login.bodies
    ≡ some (record {
      response = redirect_303 (text "/");
      session_data = some (record { login = text "a" });
      bodies = taken 0 login.bodies;
    })
unfolding log_in text header eq_ignore_ascii_case starts_with split_once split text_eq post_input
    receive
handle_route-table_example = handle_route-table crates login.request none login.bodies

answer-sessions_example :
    (response : Response) × (storage : Storage) × (answer crates (login ∷ []) visit
      ≡ some (response, storage))
    × (is_for_members response ≡ true)
    × ((key : Text) → storage key ≡ sessions crates (visit ∷ login ∷ []) key)
unfolding text open_session cookies collect header eq_ignore_ascii_case starts_with split_once split
    text_eq trim trim_matches post_input receive
answer-sessions_example = answer-sessions crates (login ∷ []) visit

abbrev out_of : Option (Response × Storage) → Response × Storage
out_of none = (empty_404, λ key. none)
out_of (some out) = out

abbrev no_sessions : Storage
no_sessions key = none

abbrev login_out : Response × Storage
login_out =
    out_of (handler crates login.request login.bodies login.generated no_sessions no_sessions)

abbrev visit_out : Response × Storage
visit_out =
    out_of (handler crates visit.request visit.bodies visit.generated login_out.1 login_out.1)

abbrev logged_in : Answered
logged_in = record {
  request = login.request;
  bodies = login.bodies;
  generated = login.generated;
  response = login_out.0;
}

abbrev visited : Answered
visited = record {
  request = visit.request;
  bodies = visit.bodies;
  generated = visit.generated;
  response = visit_out.0;
}

abbrev waiting : Arrival → Storage → Waiting
waiting a storage = record {
  request = a.request;
  bodies = a.bodies;
  generated = a.generated;
  first = storage;
}

abbrev after_both : Site
after_both = record { storage = visit_out.1; waiting = []; answered = visited ∷ logged_in ∷ [] }

after_both-Reach : Reach crates after_both
unfolding text open_session cookies collect header eq_ignore_ascii_case starts_with split_once split
    text_eq trim trim_matches post_input receive handler check_pattern
after_both-Reach =
    moves
      (moves
        (moves (moves start (first_use login.request login.bodies login.generated refl))
          (second_use [] (waiting login no_sessions) [] login_out.0 login_out.1 refl refl refl))
        (first_use visit.request visit.bodies visit.generated refl))
      (second_use [] (waiting visit login_out.1) [] visit_out.0 visit_out.1 refl refl refl)

members_only_example : (d : SessionData) × HasLogin crates (logged_in ∷ []) (text "k") d
unfolding text open_session cookies collect header eq_ignore_ascii_case starts_with split_once split
    text_eq trim trim_matches post_input receive handler check_pattern as_bytes html from_string
    from_data
members_only_example =
    members_only crates after_both [] visited (logged_in ∷ []) after_both-Reach refl refl

abbrev logout : Arrival
logout = record {
  request = of_client (text "POST") (text "/logout");
  bodies = with_body [];
  generated = text "n";
}

-- A logout and a visit that both have found the session.
abbrev overlapping : Site
overlapping = record {
  storage = login_out.1;
  waiting = waiting logout login_out.1 ∷ waiting visit login_out.1 ∷ [];
  answered = logged_in ∷ [];
}

logout_undone_example :
    (t : Site) × (u : Site) × Move crates overlapping t
    × (t.storage (text "k") ≡ none)
    × Move crates t u
    × (u.storage (text "k") ≡ some (record { login = text "a" }))
unfolding text open_session cookies collect header eq_ignore_ascii_case starts_with split_once split
    text_eq trim trim_matches post_input receive handler check_pattern
logout_undone_example =
    logout_undone crates overlapping (waiting logout login_out.1) (waiting visit login_out.1)
      (record { login = text "a" }) refl refl refl refl refl refl refl
