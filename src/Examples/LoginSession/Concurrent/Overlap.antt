-- ===== src/Examples/LoginSession/Concurrent/Overlap.antt =====
-- A logout in examples/login-session.rs that another request of its session overlaps.
use rouille.Common.{◌≡◌, refl, sym, ap, ◌∙◌, true, none, some, [], ◌∷◌, text_eq_self, arith}
use rouille.Http.Response.{Response}
use rouille.Session.{Session}
use rouille.Examples.LoginSession.{SessionData, Storage, Crates, handler}
use rouille.Examples.LoginSession.Events.{
  logs_out, nothing, event, after, stored_over, handler-table,
}
use rouille.Examples.LoginSession.Concurrent.{Waiting, Site, session_of, Move, second_use}

abbrev pub session_of_waiting : Waiting → Session
session_of_waiting w = session_of w.request w.generated

module _ (crates : Crates) where
  -- The second use of the lock by a request of a client with an identifier.
  ends :
      (w : Waiting) (second : Storage)
      → (session_of_waiting w).key_was_given ≡ true
      → (response : Response) × (storage : Storage) × (handler crates w.request w.bodies w.generated
            w.first second
          ≡ some (response, storage))
        × (storage (session_of_waiting w).key
            ≡ stored_over true
                (after (event crates w.request w.bodies) (w.first (session_of_waiting w).key))
                (second (session_of_waiting w).key))
  ends w second given =
      let (response, storage, answered, shown, stored) =
        handler-table crates w.request w.bodies w.generated w.first second in
      (
        response,
        storage,
        answered,
        ground (
          arith,
          given,
          stored (session_of_waiting w).key,
          text_eq_self (session_of_waiting w).key,
        ),
      )

  -- Where a logout and another request that neither logs in nor out are both between their uses of
  -- the lock, have the identifier of one session, and the other one has found data of it, this can
  -- follow: the logout ends and the session has no data, then the other request ends and the
  -- session has its data again.
  pub logout_undone :
      (s : Site) (logout visit : Waiting) (d : SessionData)
      → s.waiting ≡ logout ∷ visit ∷ []
      → (session_of_waiting logout).key_was_given ≡ true
      → (session_of_waiting visit).key_was_given ≡ true
      → (session_of_waiting logout).key ≡ (session_of_waiting visit).key
      → visit.first (session_of_waiting visit).key ≡ some d
      → event crates logout.request logout.bodies ≡ logs_out
      → event crates visit.request visit.bodies ≡ nothing
      → (t : Site) × (u : Site) × Move crates s t
        × (t.storage (session_of_waiting visit).key ≡ none)
        × Move crates t u
        × (u.storage (session_of_waiting visit).key ≡ some d)
  logout_undone s logout visit d e given given' same found out stays =
      let key = (session_of_waiting visit).key in
      let (response, storage, answered, empties) = ends logout s.storage given in
      let (response', storage', answered', restores) = ends visit storage given' in
      let t : Site = record {
        storage = storage;
        waiting = visit ∷ [];
        answered =
            record {
              request = logout.request;
              bodies = logout.bodies;
              generated = logout.generated;
              response = response;
            }
            ∷ s.answered;
      } in
      let u : Site = record {
        storage = storage';
        waiting = [];
        answered =
            record {
              request = visit.request;
              bodies = visit.bodies;
              generated = visit.generated;
              response = response';
            }
            ∷ t.answered;
      } in
      (
        t,
        u,
        second_use [] logout (visit ∷ []) response storage e answered refl,
        ap storage (sym same)
            ∙ empties
            ∙ ap
                (λ e.
                  stored_over true (after e (logout.first (session_of_waiting logout).key))
                    (s.storage (session_of_waiting logout).key))
                out,
        second_use [] visit [] response' storage' refl answered' refl,
        restores
            ∙ ap (λ e. stored_over true (after e (visit.first key)) (storage key)) stays
            ∙ ap (λ found_data. stored_over true found_data (storage key)) found,
      )
