-- ===== src/Examples/LoginSession/Events.antt =====
-- What a request does to the session of its client, in examples/login-session.rs.
use rouille.Common.{
  ℕ, ◌≡◌, refl, ap, sym, ◌∙◌, Bool, false, ◌&&◌, ◌||◌, ◌==◌, if◌then◌else◌, Option, none, some,
  Text, text, text_eq, starts_with, arith, Bool-cases, inl, inr,
}
use rouille.Common.Results.{Result, ok, err, map_err}
use rouille.Common.Utf8.{as_bytes}
use rouille.Http.Body.{empty, from_string, from_data}
use rouille.Http.Request.{Request, Bodies}
use rouille.Http.Response.{Response, html, json, with_status_code, redirect_303}
use rouille.Input.Post.{PostError}
use rouille.Input.Post.Sources.{as_error}
use rouille.Logging.ErrorChain.{try_or_400}
use rouille.Session.{Session, open_session, close_session, id}
use rouille.Examples.LoginSession.{
  SessionData, Storage, Crates, Credentials, form, after_form, log_in, load, store, inner, handler,
  private_page, greeting_page, login_form, logout_page,
}
use rouille.Examples.Branches.{goes_to}
use rouille.Examples.LoginSession.Table.{table, handle_route-table}

pub data Event : Type 0 where
  logs_in : SessionData → Event
  logs_out nothing : Event

-- The response is this page.
abbrev pub shows : Text → Response → Bool
shows content r = r.status_code == 200 && text_eq r.data_body.reader.content (as_bytes content)

-- The response is one of the pages for those who have logged in.
abbrev pub is_for_members : Response → Bool
is_for_members r = shows greeting_page r || shows private_page r

abbrev pub after : Event → Option SessionData → Option SessionData
after (logs_in d) session_data = some d
after logs_out session_data = none
after nothing session_data = session_data

-- The session as the request finds it: a client without an identifier has no data.
abbrev pub loaded : Session → Storage → Option SessionData
loaded s storage = if s.key_was_given then storage s.key else none

-- What stands in the table in the place of the session, where `old` stood.
abbrev pub stored_over : Bool → Option SessionData → Option SessionData → Option SessionData
stored_over given (some d) old = some d
stored_over given none old = if given then none else old

store-stored_over :
    (s : Session) (session_data : Option SessionData) (storage : Storage) (k : Text)
    → (store s session_data storage).0 k ≡ (
        if text_eq k s.key then stored_over s.key_was_given session_data (storage k) else storage k)
unfolding store id
store-stored_over s (some d) storage k = refl
store-stored_over s none storage k = ground arith

is_for_members-close_session :
    (cookie_name : Text) (timeout_s : ℕ) (r : Response) (s : Session)
    → is_for_members (close_session cookie_name timeout_s (r, s)) ≡ is_for_members r
unfolding close_session
is_for_members-close_session cookie_name timeout_s r s = elim (Bool-cases s.key_was_retrieved) [
  | inl retrieved ↦ ground arith
  | inr not_retrieved ↦ ground arith
]

load_lem :
    (s : Session) (storage : Storage)
    → ((load s storage).0 ≡ loaded s storage)
      × ((load s storage).1.key ≡ s.key)
      × ((load s storage).1.key_was_given ≡ s.key_was_given)
unfolding load id
load_lem s storage = elim (Bool-cases s.key_was_given) [
  | inl given ↦ rw given (refl, refl, refl)
  | inr not_given ↦ rw not_given (refl, refl, refl)
]

same_answer :
    {A B : Type 0} (a c : A) (b d : B)
    → ◌≡◌ {A = Option (A × B)} (some (a, b)) (some (c, d))
    → (a ≡ c) × (b ≡ d)
same_answer a c b d e = (cc, cc)

public_pages :
    (is_for_members (html login_form) ≡ false)
    × (is_for_members (html logout_page) ≡ false)
    × (is_for_members (redirect_303 (text "/")) ≡ false)
unfolding html redirect_303 text text_eq as_bytes from_string from_data empty
public_pages = (refl, refl, refl)

module _ (crates : Crates) where
  open crates use {ParseIntError, ParseFloatError, io, int, float, to_string}

  -- Whether a form lets its sender in.
  abbrev accepted : Result (Credentials crates) (PostError ParseIntError ParseFloatError) → Event
  accepted (ok (login, (password, end))) =
      if starts_with (text "b") password then logs_in (record { login = login }) else nothing
  accepted (err e) = nothing

  abbrev pub event : Request → Bodies → Event
  event request bodies =
      if goes_to (text "POST") (text "/login") request
      then accepted (form crates request bodies).0
      else if goes_to (text "POST") (text "/logout") request
      then logs_out
      else nothing

  after_form-accepted :
      (result : Result (Credentials crates) (PostError ParseIntError ParseFloatError))
      (session_data : Option SessionData) (bodies : Bodies)
      → (after_form crates
          (try_or_400 to_string (map_err (as_error io int float) result))
          session_data
          bodies).session_data
        ≡ after (accepted result) session_data
  unfolding try_or_400
  after_form-accepted (ok (login, (password, end))) session_data bodies = ground arith
  after_form-accepted (err e) session_data bodies = refl

  table-after :
      (request : Request) (session_data : Option SessionData) (bodies : Bodies)
      → (table crates request session_data bodies).session_data
        ≡ after (event request bodies) session_data
  unfolding log_in
  table-after request session_data bodies = ground (
    arith,
    after_form-accepted (form crates request bodies).0 session_data (form crates request bodies).1,
  )

  after_form-is_for_members :
      (result : Result (Credentials crates) (PostError ParseIntError ParseFloatError))
      (session_data : Option SessionData) (bodies : Bodies)
      → is_for_members
          (after_form crates
            (try_or_400 to_string (map_err (as_error io int float) result))
            session_data
            bodies).response
        ≡ false
  unfolding try_or_400 html json with_status_code redirect_303 text text_eq as_bytes from_string
      from_data
  after_form-is_for_members (ok (login, (password, end))) session_data bodies =
      elim (Bool-cases (starts_with (text "b") password)) [
        | inl lets_in ↦ rw lets_in refl
        | inr wrong ↦ rw wrong refl
      ]
  after_form-is_for_members (err e) session_data bodies = refl

  pub log_in-is_for_members :
      (request : Request) (session_data : Option SessionData) (bodies : Bodies)
      → is_for_members (log_in crates request session_data bodies).response ≡ false
  unfolding log_in
  log_in-is_for_members request session_data bodies =
      after_form-is_for_members (form crates request bodies).0 session_data
        (form crates request bodies).1

  -- Without data of its session a request is not shown the pages for those who have logged in.
  pub table_stranger :
      (request : Request) (bodies : Bodies)
      → is_for_members (table crates request none bodies).response ≡ false
  table_stranger request bodies = ground (
    arith,
    log_in-is_for_members request none bodies,
    public_pages.0,
    public_pages.1,
    public_pages.2,
  )

  inner_lem :
      (request : Request) (bodies : Bodies) (first second : Storage) (s : Session)
      → inner crates request bodies first second s ≡ (
          let left = table crates request (load s first).0 bodies in
          let (storage, s') = store (load s first).1 left.session_data second in
          some (left.response, s', storage))
  unfolding inner
  inner_lem request bodies first second s =
      ground (arith, handle_route-table crates request (load s first).0 bodies)

  -- The handler does what the table says, with the data that the request finds.
  pub handler-table :
      (request : Request) (bodies : Bodies) (generated : Text) (first second : Storage)
      → let s = open_session request (text "SID") generated in
        let left = table crates request (loaded s first) bodies in
        (response : Response) × (storage : Storage) × (handler crates request bodies generated first
            second
          ≡ some (response, storage))
        × (is_for_members response ≡ is_for_members left.response)
        × ((k : Text)
            → storage k ≡ (
                if text_eq k s.key
                then stored_over s.key_was_given
                    (after (event request bodies) (loaded s first))
                    (second k)
                else second k))
  unfolding handler
  handler-table request bodies generated first second =
      let s = open_session request (text "SID") generated in
      let (same_data, same_key, same_given) = load_lem s first in
      let left = table crates request (load s first).0 bodies in
      let stored = store (load s first).1 left.session_data second in
      (
        close_session (text "SID") 3600 (left.response, stored.1),
        stored.0,
        ground (arith, inner_lem request bodies first second s),
        is_for_members-close_session (text "SID") 3600 left.response stored.1
            ∙ ap (λ d. is_for_members (table crates request d bodies).response) same_data,
        λ k. ground (
          arith,
          store-stored_over (load s first).1 left.session_data second k,
          same_key,
          same_given,
          table-after request (load s first).0 bodies,
          same_data,
        ),
      )

  pub handler-eq_some :
      (request : Request) (bodies : Bodies) (generated : Text) (first second storage : Storage)
      (response : Response)
      → handler crates request bodies generated first second ≡ some (response, storage)
      → let s = open_session request (text "SID") generated in
        let left = table crates request (loaded s first) bodies in
        (is_for_members response ≡ is_for_members left.response)
        × ((k : Text)
            → storage k ≡ (
                if text_eq k s.key
                then stored_over s.key_was_given
                    (after (event request bodies) (loaded s first))
                    (second k)
                else second k))
  handler-eq_some request bodies generated first second storage response e =
      let (response', storage', left, shown, stored) =
        handler-table request bodies generated first second in
      let (same_response, same_storage) =
        same_answer response response' storage storage' (sym e ∙ left) in
      (rw same_response shown, λ k. ap (λ table. table k) same_storage ∙ stored k)
