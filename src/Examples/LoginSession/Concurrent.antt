-- ===== src/Examples/LoginSession/Concurrent.antt =====
-- Requests to the site of examples/login-session.rs that are handled at the same time: each takes
-- the lock of the table twice, and others may take it in between.
pub mod Members
pub mod Overlap
use rouille.Common.{◌≡◌, ◌⊎◌, Option, none, some, List, [], ◌∷◌, ◌++◌, Text, text}
use rouille.Http.Request.{Request, Bodies}
use rouille.Http.Response.{Response}
use rouille.Session.{Session, open_session}
use rouille.Examples.LoginSession.{SessionData, Storage, Crates, handler}
use rouille.Examples.LoginSession.Events.{logs_in, event}

-- A request that has used the lock once, with the table as it then was.
pub record Waiting : Type 0 where
  pub request : Request
  pub bodies : Bodies
  pub generated : Text
  pub first : Storage

-- A request with its response.
pub record Answered : Type 0 where
  pub request : Request
  pub bodies : Bodies
  pub generated : Text
  pub response : Response

abbrev pub session_of : Request → Text → Session
session_of request generated = open_session request (text "SID") generated

abbrev pub key_of : Answered → Text
key_of a = (session_of a.request a.generated).key

-- The last one that was answered comes first.
pub record Site : Type 0 where
  pub storage : Storage
  pub waiting : List Waiting
  pub answered : List Answered

abbrev pub new_site : Site
new_site = record { storage = λ key. none; waiting = []; answered = [] }

module _ (crates : Crates) where
  pub data Move (s t : Site) : Type 0 where
    first_use :
        (request : Request) (bodies : Bodies) (generated : Text)
        → t ≡ record s {
          waiting =
              s.waiting
              ++ record {
                request = request;
                bodies = bodies;
                generated = generated;
                first = s.storage;
              }
                ∷ [];
        }
        → Move s t
    second_use :
        (before : List Waiting) (w : Waiting) (later : List Waiting) (response : Response)
        (storage : Storage)
        → s.waiting ≡ before ++ w ∷ later
        → handler crates w.request w.bodies w.generated w.first s.storage ≡ some (response, storage)
        → t ≡ record {
          storage = storage;
          waiting = before ++ later;
          answered =
              record {
                request = w.request;
                bodies = w.bodies;
                generated = w.generated;
                response = response;
              }
              ∷ s.answered;
        }
        → Move s t

  pub data Reach : Site → Type 0 where
    start : Reach new_site
    moves : {s t : Site} → Reach s → Move s t → Reach t

  -- One of these requests has logged the session in with this data.
  abbrev pub HasLogin : List Answered → Text → SessionData → Type 0
  HasLogin [] key d = ⊥
  HasLogin (a ∷ earlier) key d =
      ((key_of a ≡ key) × (event crates a.request a.bodies ≡ logs_in d)) ⊎ HasLogin earlier key d
