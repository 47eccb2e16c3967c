-- ===== src/Middleware/Chain/Fallback.antt =====
-- What becomes of a request when the endpoint or a middleware waits.
use fastapi_turbo.Prelude.{
  ℕ, ◌≡◌, ap, ◌∙◌, true, List, [], ◌∷◌, ◌++◌, append-nil, Option, none, some, if◌then◌else◌,
}
use fastapi_turbo.Middleware.Chain.{
  user, middleware_suspended, Out, ok, fails, Endpoint, Script, ends, awaits, next, Middleware,
  Call, after, send_endpoint, normalised, call_handler_sync, send_middleware, run_chain,
  run_endpoint, run_middleware, unless_suspended, build, with_private, drive_async_fallback,
  wrapped_sync,
}

module _ {Response Exc : Type 0} where
  -- Let the endpoint wait, and let the only middleware call the rest of the chain and answer with a
  -- response of its own when that raises. Then this response is the result: the endpoint is dropped at
  -- the point where it waits, and the event loop is never tried.
  pub wrapped_sync-swallows :
      (convert : Exc → Option Response) (m : Middleware Response Exc)
      (endpoint : Endpoint Response Exc) (k : Out Response Exc → Script Response Exc) (log : List ℕ)
      (r : Response)
      → send_endpoint endpoint.body ≡ (log, fails middleware_suspended)
      → m.script ≡ next k
      → k (fails middleware_suspended) ≡ ends (ok r)
      → wrapped_sync convert (m ∷ []) endpoint ≡ (log, ok r)
  unfolding wrapped_sync call_handler_sync run_chain send_middleware
  wrapped_sync-swallows convert m endpoint k log r e q x =
      let fallback = drive_async_fallback (m ∷ []) endpoint in
      ap (λ c. unless_suspended (send_middleware m.script (normalised convert c)) fallback) e
      ∙ ap (λ s. unless_suspended (send_middleware s (log, fails middleware_suspended)) fallback) q
      ∙ ap
          (λ s.
            unless_suspended
              (after (log, fails middleware_suspended)
                (send_middleware s (log, fails middleware_suspended)))
              fallback)
          x
      ∙ ap (λ l. (l, ok r)) (append-nil log)

  -- Let the endpoint answer without waiting, and take the private arguments; let the only middleware,
  -- a function, call the rest of the chain and then wait. Then the fallback starts from the beginning:
  -- what the endpoint does is done twice, and what the middleware does after the wait follows.
  pub wrapped_sync-twice :
      (convert : Exc → Option Response) (m : Middleware Response Exc)
      (endpoint : Endpoint Response Exc) (k : Out Response Exc → Script Response Exc)
      (s : Script Response Exc) (log : List ℕ) (r : Response)
      → send_endpoint endpoint.body ≡ (log, ok r)
      → run_endpoint endpoint.body ≡ (log, ok r)
      → endpoint.private ≡ none
      → m.is_function ≡ true
      → m.script ≡ next k
      → k (ok r) ≡ awaits s
      → let rest = run_middleware s (log, ok r) in
        wrapped_sync convert (m ∷ []) endpoint ≡ (log ++ (log ++ rest.0), rest.1)
  unfolding wrapped_sync call_handler_sync run_chain send_middleware drive_async_fallback build
      run_middleware
  wrapped_sync-twice convert m endpoint k s log r e e' p f q x =
      let fallback = drive_async_fallback (m ∷ []) endpoint in
      let rest = run_middleware s (log, ok r) in
      let late : fallback ≡ (log ++ rest.0, rest.1) =
        ap
          (λ b.
            if b
            then run_middleware m.script (with_private endpoint.body endpoint.private)
            else ([], Out.unawaited))
          f
        ∙ ap (λ o. run_middleware m.script (with_private endpoint.body o)) p
        ∙ ap (run_middleware m.script) e'
        ∙ ap (λ t. run_middleware t (log, ok r)) q
        ∙ ap (λ t. after (log, ok r) (run_middleware t (log, ok r))) x in
      ap (λ c. unless_suspended (send_middleware m.script (normalised convert c)) fallback) e
      ∙ ap (λ t. unless_suspended (send_middleware t (log, ok r)) fallback) q
      ∙ ap (λ t. unless_suspended (after (log, ok r) (send_middleware t (log, ok r))) fallback) x
      ∙ ap (λ (c : Call Response Exc). (log ++ [] ++ c.0, c.1)) late
      ∙ ap (λ l. (l ++ (log ++ rest.0), rest.1)) (append-nil log)

  -- Let the only middleware, a function, wait before it calls the rest of the chain, and let the
  -- endpoint not take the private arguments. Then the endpoint is never run: the middleware finds the
  -- exception that those arguments cause.
  pub wrapped_sync-private :
      (convert : Exc → Option Response) (m : Middleware Response Exc)
      (endpoint : Endpoint Response Exc) (k : Out Response Exc → Script Response Exc) (e : Exc)
      → endpoint.private ≡ some e
      → m.is_function ≡ true
      → m.script ≡ awaits (next k)
      → wrapped_sync convert (m ∷ []) endpoint
        ≡ run_middleware (k (fails (user e))) ([], fails (user e))
  unfolding wrapped_sync call_handler_sync run_chain send_middleware drive_async_fallback build
      run_middleware
  wrapped_sync-private convert m endpoint k e p f q =
      let fallback = drive_async_fallback (m ∷ []) endpoint in
      let handler = call_handler_sync convert endpoint in
      ap (λ t. unless_suspended (send_middleware t handler) fallback) q
      ∙ ap
          (λ b.
            if b
            then run_middleware m.script (with_private endpoint.body endpoint.private)
            else ([], Out.unawaited))
          f
      ∙ ap (λ o. run_middleware m.script (with_private endpoint.body o)) p
      ∙ ap (λ t. run_middleware t ([], fails (user e))) q
