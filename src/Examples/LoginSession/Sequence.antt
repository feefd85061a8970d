-- ===== src/Examples/LoginSession/Sequence.antt =====
-- Requests to the site of examples/login-session.rs that come one after the other, against what the
-- events of each session say.
use rouille.Common.{
  is_some, ◌≡◌, refl, ap, sym, ◌∙◌, Bool, true, false, ◌&&◌, ◌||◌, if◌then◌else◌, Bool-cases, inl,
  inr, Option, none, some, List, [], ◌∷◌, ◌>>=◌, Text, text, text_eq, text_eq_iff, arith,
}
use rouille.Common.Utf8.{as_bytes}
use rouille.Http.Body.{from_string, from_data, empty}
use rouille.Http.Request.{Request, Bodies}
use rouille.Http.Response.{Response, html, empty_404}
use rouille.Session.{Session, open_session}
use rouille.Examples.LoginSession.{
  SessionData, Storage, Crates, handler, greeting_page, private_page, logout_page,
}
use rouille.Examples.Branches.{goes_to}
use rouille.Examples.LoginSession.Table.{page, table}
use rouille.Examples.LoginSession.Events.{
  Event, logs_in, logs_out, nothing, event, after, loaded, stored_over, is_for_members,
  handler-table, table_stranger, log_in-is_for_members,
}

pub record Arrival : Type 0 where
  pub request : Request
  pub bodies : Bodies
  pub generated : Text

abbrev pub session_of : Arrival → Session
session_of a = open_session a.request (text "SID") a.generated

-- What an event makes of the data of its session. A client without an identifier has none to log
-- out of.
abbrev pub effect : Bool → Event → Option SessionData → Option SessionData
effect given (logs_in d) old = some d
effect given logs_out old = if given then none else old
effect given nothing old = old

-- The paths of the pages for those who have logged in.
abbrev pub members_path : Request → Bool
members_path request =
    goes_to (text "GET") (text "/") request || goes_to (text "GET") (text "/private") request

module _ (crates : Crates) where
  -- The last request comes first.
  unfoldable pub storage_after : List Arrival → Option Storage
  storage_after [] = some (λ key. none)
  storage_after (a ∷ earlier) = storage_after earlier >>= λ storage.
      handler crates a.request a.bodies a.generated storage storage >>= λ out. some out.1

  abbrev pub answer : List Arrival → Arrival → Option (Response × Storage)
  answer earlier a = storage_after earlier >>= λ storage.
      handler crates a.request a.bodies a.generated storage storage

  -- What the events say of a session.
  abbrev pub sessions : List Arrival → Storage
  sessions [] key = none
  sessions (a ∷ earlier) key =
      let old = sessions earlier key in
      if text_eq key (session_of a).key
      then effect (session_of a).key_was_given (event crates a.request a.bodies) old
      else old

overwritten : (given : Bool) (old : Option SessionData) → stored_over given old old ≡ old
overwritten given (some d) = refl
overwritten true none = refl
overwritten false none = refl

stored_over-effect :
    (e : Event) (s : Session) (storage : Storage)
    → stored_over s.key_was_given (after e (loaded s storage)) (storage s.key)
      ≡ effect s.key_was_given e (storage s.key)
stored_over-effect (logs_in d) s storage = refl
stored_over-effect logs_out s storage = refl
stored_over-effect nothing s storage = elim (Bool-cases s.key_was_given) [
  | inl given ↦ rw given (overwritten true (storage s.key))
  | inr not_given ↦ rw not_given refl
]

stored_over_at :
    (e : Event) (s : Session) (storage : Storage) (key : Text)
    → (if text_eq key s.key
        then stored_over s.key_was_given (after e (loaded s storage)) (storage key)
        else storage key)
      ≡ (if text_eq key s.key then effect s.key_was_given e (storage key) else storage key)
stored_over_at e s storage key = elim (Bool-cases (text_eq key s.key)) [
  | inl same ↦ rw same (rw ((text_eq_iff key s.key).0 same) (stored_over-effect e s storage))
  | inr other ↦ rw other refl
]

loaded_same :
    (s : Session) (storage other : Storage)
    → storage s.key ≡ other s.key
    → loaded s storage ≡ loaded s other
loaded_same s storage other e = ground arith

posts : (m : Text) → text_eq m (text "POST") ≡ true → text_eq m (text "GET") ≡ false
unfolding text text_eq
posts m e = rw ((text_eq_iff m (text "POST")).0 e) refl

posts-members_path :
    (path : Text) (request : Request)
    → goes_to (text "POST") path request ≡ true
    → members_path request ≡ false
posts-members_path path request e = ground (arith, posts request.method (ground arith))

member_pages :
    (is_for_members (html greeting_page) ≡ true)
    × (is_for_members (html private_page) ≡ true)
    × (is_for_members empty_404 ≡ false)
    × (is_for_members (html logout_page) ≡ false)
unfolding html empty_404 text text_eq as_bytes from_string from_data empty
member_pages = (refl, refl, refl, refl)

page-member :
    (request : Request) (d : SessionData)
    → is_for_members (page request (some d)) ≡ members_path request
page-member request d = ground (arith, member_pages.0, member_pages.1, member_pages.2)

module _ (crates : Crates) where
  table-members_path :
      (request : Request) (session_data : Option SessionData) (bodies : Bodies)
      → is_for_members (table crates request session_data bodies).response
        ≡ (is_some session_data && members_path request)
  table-members_path request none bodies = table_stranger crates request bodies
  table-members_path request (some d) bodies =
      elim (Bool-cases (goes_to (text "POST") (text "/login") request)) [
        | inl login ↦ rw login (
            log_in-is_for_members crates request (some d) bodies
            ∙ ap (λ b. true && b) (sym (posts-members_path (text "/login") request login)))
        | inr other ↦ elim (Bool-cases (goes_to (text "POST") (text "/logout") request)) [
          | inl logout ↦ rw other (
              rw logout (member_pages.3 ∙ sym (posts-members_path (text "/logout") request logout)))
          | inr neither ↦ rw other (rw neither (page-member request d))
        ]
      ]

  answered_from :
      (earlier : List Arrival) (a : Arrival) (before : Storage)
      → ((key : Text) → before key ≡ sessions crates earlier key)
      → (response : Response) × (storage : Storage) × (handler crates a.request a.bodies a.generated
            before before
          ≡ some (response, storage))
        × (is_for_members response
            ≡ (is_some (loaded (session_of a) (sessions crates earlier)) && members_path a.request))
        × ((key : Text) → storage key ≡ sessions crates (a ∷ earlier) key)
  answered_from earlier a before h =
      let s = session_of a in
      let e = event crates a.request a.bodies in
      let (response, storage, answered, shown, stored) =
        handler-table crates a.request a.bodies a.generated before before in
      (
        response,
        storage,
        answered,
        shown
            ∙ table-members_path a.request (loaded s before) a.bodies
            ∙ ap (λ d. is_some d && members_path a.request)
                (loaded_same s before (sessions crates earlier) (h s.key)),
        λ key.
            stored key
            ∙ stored_over_at e s before key
            ∙ ap (λ old. if text_eq key s.key then effect s.key_was_given e old else old) (h key),
      )

  storage_after-sessions :
      (earlier : List Arrival)
      → (storage : Storage) × (storage_after crates earlier ≡ some storage)
        × ((key : Text) → storage key ≡ sessions crates earlier key)
  unfolding storage_after
  storage_after-sessions [] = (λ key. none, refl, λ key. refl)
  storage_after-sessions (a ∷ earlier) =
      let (before, reached, same) = storage_after-sessions earlier in
      let (response, storage, answered, shown, stored) = answered_from earlier a before same in
      (storage, rw reached (rw answered refl), stored)

  -- A request that comes after others, each after the one before has been answered, is answered; it
  -- is shown a page for those who have logged in exactly if it is a GET of one of their paths with
  -- the identifier of a session that the last events of its requests leave logged in; and the table
  -- is then what the events of the requests, with this one, say of each session.
  pub answer-sessions :
      (earlier : List Arrival) (a : Arrival)
      → (response : Response) × (storage : Storage) × (answer crates earlier a
          ≡ some (response, storage))
        × (is_for_members response
            ≡ (is_some (loaded (session_of a) (sessions crates earlier)) && members_path a.request))
        × ((key : Text) → storage key ≡ sessions crates (a ∷ earlier) key)
  answer-sessions earlier a =
      let (before, reached, same) = storage_after-sessions earlier in
      rw reached (answered_from earlier a before same)
