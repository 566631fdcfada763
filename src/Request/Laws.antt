-- ===== src/Request/Laws.antt =====
-- What a caller of class `Request` sees of an answer (web/client/src/common/request/).
use gonitor.Prelude.{Bool, false, Option, none, some, String, ◌≡◌, refl, nat_beq, ap}
use gonitor.Request.{
  Body, Failure, Settled, resolved, rejected, Config, Reply, got, failed, reply, perform,
  request_interceptors, intercept_response, redirects_after, unwrap,
}

module _ {A : Type 0} where
  -- What a caller sees of what axios settles with: a body as it is, the TypeError about null where
  -- the answer has no body, and the one about undefined where axios rejects.
  abbrev pub seen : Failure → Failure → Settled (Option (Body A)) → Reply A
  seen null_error undefined_error (resolved (some body)) = got body
  seen null_error undefined_error (resolved none) = failed null_error
  seen null_error undefined_error (rejected err) = failed undefined_error

  -- The page leaves for '/' where the body has the code of a lost session.
  abbrev pub leaves : Settled (Option (Body A)) → Bool
  leaves (resolved (some body)) = nat_beq body.code 100001
  leaves _ = false

  reply-unwrap :
      (null_error undefined_error : Failure) (answer : Settled (Option (Body A)))
      → reply undefined_error (unwrap (intercept_response null_error answer))
        ≡ seen null_error undefined_error answer
  unfolding reply unwrap intercept_response
  reply-unwrap null_error undefined_error (resolved none) = refl
  reply-unwrap null_error undefined_error (resolved (some body)) = refl
  reply-unwrap null_error undefined_error (rejected err) = refl

  redirects_after-leaves :
      (answer : Settled (Option (Body A))) → redirects_after answer ≡ leaves answer
  unfolding redirects_after
  redirects_after-leaves (resolved none) = refl
  redirects_after-leaves (resolved (some body)) = refl
  redirects_after-leaves (rejected err) = refl

module _ {P A : Type 0} (null_error : Failure) (stored : Option String)
    (transport : Config P → Settled (Option (Body A))) where
  -- A caller sees the body that the server answered the request with the stored token with; where
  -- the answer has no body, the TypeError that the interceptor throws about null; and where axios
  -- rejects, the TypeError that the caller's own reading of undefined throws, never the error of
  -- axios. The page leaves for '/' exactly on the code of a lost session.
  pub reply-perform :
      (undefined_error : Failure) (config : Config P)
      → (reply undefined_error (perform null_error stored transport config).settled
          ≡ seen null_error undefined_error (transport (record config { token = stored })))
        × ((perform null_error stored transport config).redirected
            ≡ leaves (transport (record config { token = stored })))
  unfolding perform request_interceptors
  reply-perform undefined_error config = (
    reply-unwrap null_error undefined_error (transport (request_interceptors stored config)),
    redirects_after-leaves (transport (request_interceptors stored config)),
  )

  -- A request that axios rejects resolves, with undefined: the `catch` and the `reject` of the
  -- four methods are not reached.
  pub perform-rejected :
      (config : Config P) (err : Failure)
      → transport (record config { token = stored }) ≡ rejected err
      → (perform null_error stored transport config).settled ≡ resolved none
  unfolding perform
  perform-rejected config err e = ap (λ a. unwrap (intercept_response null_error a)) e
