-- ===== src/Session/Token.antt =====
-- The token that requests carry, and the pages that are shown
-- (web/client/src/screen/login/Login.js, web/client/src/screen/layout/ and
-- web/client/src/common/request/HttpRequest.js).
use gonitor.Prelude.{
  ℕ, zero, suc, Bool, true, false, not, Option, none, some, List, [], ◌∷◌, String, if◌then◌else◌,
  ◌==◌, nat_eq, string_eq, at, any, All, ◌≡◌, refl, ◌∙◌, arith,
}
use gonitor.Request.{got, failed, Config, request_interceptors}
use gonitor.Session.{
  Session, SessionEvent, routes, main_list_items, login_reply, login_out, link_of, follow_link,
  session_lost, on_session_event, run_session, SessionEffect, stored_text,
}

-- An answer that does not sign in
abbrev pub signs_in : SessionEvent → Bool
signs_in (SessionEvent.answers (got body)) = body.code == 0
signs_in _ = false

abbrev pub IsOther : SessionEvent → Type 0
IsOther e = signs_in e ≡ false

token-link_of : (link : Option (String × String)) (s : Session) → (link_of link s).token ≡ s.token
token-link_of none s = refl
token-link_of (some l) s = refl

token-event :
    (e : SessionEvent) (s : Session) → signs_in e ≡ false → (on_session_event e s).token ≡ s.token
unfolding on_session_event login_reply login_out follow_link session_lost
token-event (SessionEvent.answers (failed err)) s h = refl
token-event (SessionEvent.answers (got body)) s h = ground (arith, h)
token-event SessionEvent.leaves s h = refl
token-event (SessionEvent.follows i) s h = token-link_of (at i main_list_items) s
token-event SessionEvent.loses s h = refl

token-run :
    (es : List SessionEvent) (s : Session) → All IsOther es → (run_session es s).token ≡ s.token
unfolding run_session
token-run [] s h = refl
token-run (e ∷ es) s (h, hs) = token-run es (on_session_event e s) hs ∙ token-event e s h

-- The session after such an answer and some events
abbrev pub signed_in : String → String → List SessionEvent → Session → Session
unfolding login_reply run_session
signed_in token message es s =
    run_session es
      (login_reply (got (record { code = 0; message = message; content = some token })) s).0

-- From an answer that signs in with a token on, every request carries this token until another
-- answer signs in: also after the user has signed out and after the server has lost the session.
pub request-token :
    {P : Type 0} (token : String) (message : String) (es : List SessionEvent) (s : Session)
    (config : Config P)
    → All IsOther es
    → (request_interceptors (signed_in token message es s).token config).token ≡ some token
unfolding request_interceptors login_reply signed_in
request-token token message es s config h =
    token-run es
      (login_reply (got (record { code = 0; message = message; content = some token })) s).0 h

-- A path that has a route
unfoldable pub is_route : String → Bool
unfolding routes
is_route path = any (λ r. r.0 == path) routes

is_route-link :
    (i : ℕ) (links : List (String × String)) (s : Session)
    → All (λ l. is_route l.1 ≡ true) links
    → is_route s.path ≡ true
    → is_route (link_of (at i links) s).path ≡ true
is_route-link i [] s a h = h
is_route-link zero (l ∷ links) s (a, as') h = a
is_route-link (suc i) (l ∷ links) s (a, as') h = is_route-link i links s as' h

is_route-event :
    (e : SessionEvent) (s : Session)
    → is_route s.path ≡ true
    → is_route (on_session_event e s).path ≡ true
unfolding on_session_event login_reply login_out follow_link session_lost is_route routes
    main_list_items
is_route-event (SessionEvent.answers (failed err)) s h = h
is_route-event (SessionEvent.answers (got body)) s h = answered (body.code == 0)
  where
    answered :
        (b : Bool)
        → is_route
            (if◌then◌else◌ {A = Session × List SessionEffect}
              (not b)
              (s, SessionEffect.complain body.message ∷ [])
              (record { token = some (stored_text body.content); path = "/admin" }, [])).0.path
          ≡ true
    answered true = refl
    answered false = h
is_route-event SessionEvent.leaves s h = refl
is_route-event (SessionEvent.follows i) s h =
    is_route-link i main_list_items s (refl, (refl, (refl, (refl, (refl, (refl, tt)))))) h
is_route-event SessionEvent.loses s h = refl

-- Every path that the client goes to by itself, on signing in and out, through the main menu or
-- when the session is lost, has a route, so that a page is shown.
pub is_route-run_session :
    (es : List SessionEvent) (s : Session)
    → is_route s.path ≡ true
    → is_route (run_session es s).path ≡ true
unfolding run_session
is_route-run_session [] s h = h
is_route-run_session (e ∷ es) s h =
    is_route-run_session es (on_session_event e s) (is_route-event e s h)
