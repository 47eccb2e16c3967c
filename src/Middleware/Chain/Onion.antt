-- ===== src/Middleware/Chain/Onion.antt =====
-- The chain when nothing in it waits: the middlewares stand around the endpoint in layers, the one that
-- was declared last outermost.

use mathlib.Core.Path.{subst}
use mathlib.Core.List.{reverse, reverse-append}
use fastapi_turbo.Prelude.{
  ℕ, ◌≡◌, refl, sym, ap, ◌∙◌, List, [], ◌∷◌, Option, none, some, All, All-append,
}
use fastapi_turbo.Middleware.Chain.{
  user, Out, ok, unawaited, fails, Body, returns, raises, Endpoint, Script, ends, next, Middleware,
  Call, seen, after, send_endpoint, converted, normalised, call_handler_sync, send_middleware,
  run_chain, run_endpoint, run_middleware, unless_suspended, drive_async_fallback, wrapped_sync,
}

-- An outcome that is no suspension.
pub data Settled (Response Exc : Type 0) : Type 0 where
  good : Response → Settled Response Exc
  coroutine : Settled Response Exc
  bad : Exc → Settled Response Exc

module _ {Response Exc : Type 0} where
  abbrev pub embed : Settled Response Exc → Out Response Exc
  embed (good r) = ok r
  embed coroutine = unawaited
  embed (bad e) = fails (user e)

  -- An endpoint that does not wait.
  abbrev pub Immediate : Body Response Exc → Type 0
  Immediate (returns r) = Unit
  Immediate (raises e) = Unit
  Immediate (Body.acts n b) = Immediate b
  Immediate (Body.awaits b) = ⊥

  -- A middleware that does not wait, when the rest of the chain did not.
  abbrev pub WaitFree : Script Response Exc → Type 0
  WaitFree (ends o) = (s : Settled Response Exc) × (o ≡ embed s)
  WaitFree (Script.acts n s) = WaitFree s
  WaitFree (Script.awaits s) = ⊥
  WaitFree (next k) = (o : Settled Response Exc) → WaitFree (k (embed o))

  -- The same outcome twice, and no suspension.
  abbrev pub Agrees : Call Response Exc → Call Response Exc → Type 0
  Agrees c d = (c ≡ d) × ((s : Settled Response Exc) × (c.1 ≡ embed s))

  seen-Agrees : (n : ℕ) (c d : Call Response Exc) → Agrees c d → Agrees (seen n c) (seen n d)
  seen-Agrees n c d (e, settled) = (ap (seen n) e, settled)

  after-Agrees : (f c d : Call Response Exc) → Agrees c d → Agrees (after f c) (after f d)
  after-Agrees f c d (e, settled) = (ap (after f) e, settled)

  pub send_endpoint-Agrees :
      (b : Body Response Exc) → Immediate b → Agrees (send_endpoint b) (run_endpoint b)
  unfolding send_endpoint run_endpoint
  send_endpoint-Agrees (returns r) i = (refl, (good r, refl))
  send_endpoint-Agrees (raises e) i = (refl, (bad e, refl))
  send_endpoint-Agrees (Body.acts n b) i =
      seen-Agrees n (send_endpoint b) (run_endpoint b) (send_endpoint-Agrees b i)
  send_endpoint-Agrees (Body.awaits b) i = absurd i

  send_middleware-Agrees :
      (s : Script Response Exc) (log : List ℕ) (o : Settled Response Exc)
      → WaitFree s
      → Agrees (send_middleware s (log, embed o)) (run_middleware s (log, embed o))
  unfolding send_middleware run_middleware
  send_middleware-Agrees (ends x) log o p = (refl, p)
  send_middleware-Agrees (Script.acts n s) log o p =
      seen-Agrees n (send_middleware s (log, embed o)) (run_middleware s (log, embed o))
        (send_middleware-Agrees s log o p)
  send_middleware-Agrees (Script.awaits s) log o p = absurd p
  send_middleware-Agrees (next k) log o p =
      after-Agrees (log, embed o) (send_middleware (k (embed o)) (log, embed o))
        (run_middleware (k (embed o)) (log, embed o))
        (send_middleware-Agrees (k (embed o)) log o (p o))

  -- The chain as an event loop would run it, every middleware awaited.
  unfoldable pub awaited : List (Middleware Response Exc) → Call Response Exc → Call Response Exc
  awaited [] handler = handler
  awaited (m ∷ ms) handler = run_middleware m.script (awaited ms handler)

  abbrev pub Prompt : Middleware Response Exc → Type 0
  Prompt m = WaitFree m.script

  around-Agrees :
      (s : Script Response Exc) (c d : Call Response Exc)
      → WaitFree s
      → Agrees c d
      → Agrees (send_middleware s c) (run_middleware s d)
  around-Agrees s c d p (e, (o, q)) =
      let a = send_middleware-Agrees s c.0 o p in
      let f : (c.0, embed o) ≡ c = ap (λ x. (c.0, x)) (sym q) in
      let g : (c.0, embed o) ≡ d = f ∙ e in
      (
        sym (ap (send_middleware s) f) ∙ a.0 ∙ ap (run_middleware s) g,
        (a.1.0, sym (ap (λ x. (send_middleware s x).1) f) ∙ a.1.1),
      )

  run_chain-Agrees :
      (ms : List (Middleware Response Exc)) (c d : Call Response Exc)
      → All Prompt ms
      → Agrees c d
      → Agrees (run_chain ms c) (awaited ms d)
  unfolding run_chain awaited
  run_chain-Agrees [] c d p a = a
  run_chain-Agrees (m ∷ ms) c d p a =
      around-Agrees m.script (run_chain ms c) (awaited ms d) p.0 (run_chain-Agrees ms c d p.1 a)

  pub normalised-Agrees :
      (convert : Exc → Option Response) (c d : Call Response Exc)
      → Agrees c d
      → Agrees (normalised convert c) (normalised convert d)
  normalised-Agrees convert c d (e, (o, q)) =
      let f : (c.0, embed o) ≡ c = ap (λ x. (c.0, x)) (sym q) in
      let t = settled c.0 o in
      (
        ap (normalised convert) e,
        (t.0, sym (ap (λ (x : Call Response Exc). (normalised convert x).1) f) ∙ t.1),
      )
    where
      converted_lem :
          (e : Exc) (r : Option Response)
          → (s : Settled Response Exc) × (converted convert e r ≡ embed s)
      converted_lem e none = (bad e, refl)
      converted_lem e (some r) = (good r, refl)

      settled :
          (log : List ℕ) (o : Settled Response Exc)
          → (s : Settled Response Exc) × ((normalised convert (log, embed o)).1 ≡ embed s)
      settled log (good r) = (good r, refl)
      settled log coroutine = (coroutine, refl)
      settled log (bad e) = converted_lem e (convert e)

  pub unless_suspended-settled :
      (c fallback : Call Response Exc) (s : Settled Response Exc)
      → c.1 ≡ embed s
      → unless_suspended c fallback ≡ c
  unless_suspended-settled c fallback s q =
      let f : (c.0, embed s) ≡ c = ap (λ x. (c.0, x)) (sym q) in
      sym (ap (λ x. unless_suspended x fallback) f) ∙ by_outcome s ∙ f
    where
      by_outcome :
          (s : Settled Response Exc) → unless_suspended (c.0, embed s) fallback ≡ (c.0, embed s)
      by_outcome (good r) = refl
      by_outcome coroutine = refl
      by_outcome (bad e) = refl

  All-reverse :
      (P : Middleware Response Exc → Type 0) (ms : List (Middleware Response Exc))
      → All P ms
      → All P (reverse ms)
  All-reverse P [] h = h
  All-reverse P (m ∷ ms) h =
      subst (All P) (sym (reverse-append (m ∷ []) ms))
        (All-append P (reverse ms) (m ∷ []) (All-reverse P ms h.1) (h.0, tt))

  -- Let neither the endpoint wait, nor any middleware when the rest of its chain did not. Then driving
  -- the chain without an event loop gives what an event loop would give, in what can be seen and in
  -- how it ends: the middlewares awaited one inside the other, the one declared last outermost, around
  -- the endpoint, whose exceptions are converted first; and the fallback is not used.
  pub wrapped_sync-awaited :
      (convert : Exc → Option Response) (ms : List (Middleware Response Exc))
      (endpoint : Endpoint Response Exc)
      → All Prompt ms
      → Immediate endpoint.body
      → wrapped_sync convert ms endpoint
        ≡ awaited (reverse ms) (normalised convert (run_endpoint endpoint.body))
  unfolding wrapped_sync call_handler_sync
  wrapped_sync-awaited convert ms endpoint p i =
      let c = send_endpoint endpoint.body in
      let d = run_endpoint endpoint.body in
      let a =
        run_chain-Agrees (reverse ms) (normalised convert c) (normalised convert d)
          (All-reverse Prompt ms p)
          (normalised-Agrees convert c d (send_endpoint-Agrees endpoint.body i)) in
      unless_suspended-settled (run_chain (reverse ms) (normalised convert c))
        (drive_async_fallback (reverse ms) endpoint) a.1.0 a.1.1
      ∙ a.0
