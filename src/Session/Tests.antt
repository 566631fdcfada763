-- ===== src/Session/Tests.antt =====
-- A session on concrete events, at which the theorems hold.
use gonitor.Prelude.{ℕ, none, some, List, [], ◌∷◌, ◌≡◌, refl}
use gonitor.Request.{Config, Method, request_interceptors}
use gonitor.Session.{Session, SessionEvent}
use gonitor.Session.Token.{signed_in, request-token}

abbrev fresh : Session
fresh = record { token = none; path = "/" }

abbrev config : Config ℕ
config = record { method = Method.get; url = []; payload = none; token = none }

abbrev events : List SessionEvent
events = SessionEvent.follows 3 ∷ SessionEvent.leaves ∷ []

request-token_example :
    (request_interceptors (signed_in "t" "" events fresh).token config).token ≡ some "t"
request-token_example = request-token "t" "" events fresh config (refl, (refl, tt))
