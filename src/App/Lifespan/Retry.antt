-- ===== src/App/Lifespan/Retry.antt =====
-- What a startup that failed in a lifespan leaves to the next one.
use mathlib.Core.Bool.{false≢true}
use fastapi_turbo.Prelude.{ℕ, ◌≡◌, ap, ◌∙◌, true, List, [], ◌∷◌, ◌++◌, map, none, All}
use fastapi_turbo.App.Lifecycle.{returned, raised, collect_lifespans, run_startup_handlers}
use fastapi_turbo.App.Lifespan.{
  Dict, update, Entered, yields, fails, Event, entering, Hooks, Site, Entry, startup, Session,
  startup_failed, answer_startup, open_all, enter_all, enter_next, finish_enter, enter_opened,
  start_lifespans, unless_entered, run_lifespan_startup, handlers, and_then, try_startup,
  asgi_lifespan,
}
use fastapi_turbo.App.Lifespan.Merge.{yielded}

module _ {Exc : Type 0} where
  enter_next-fails :
      (c : ℕ) (rest : Dict → Entry Exc) (x : Entered Exc) (ran : List Event) (e : Exc) (d : Dict)
      → yielded x ≡ true
      → ((u : Dict) → rest u ≡ (ran, fails e))
      → enter_next c rest x d ≡ (entering c ∷ ran, fails e)
  enter_next-fails c rest (yields u) ran e d y h =
      ap (λ (s : Entry Exc). (entering c ∷ s.0, s.1)) (h (update d u))
  enter_next-fails c rest (fails f) ran e d y h = absurd (false≢true y)

  enter_all-fails :
      (enters : ℕ → Entered Exc) (before after : List ℕ) (l : ℕ) (e : Exc) (d : Dict)
      → All (λ c. yielded (enters c) ≡ true) before
      → enters l ≡ fails e
      → enter_all enters (before ++ l ∷ after) d ≡ (map entering (before ++ l ∷ []), fails e)
  unfolding enter_all
  enter_all-fails enters [] after l e d y x = ap (λ r. enter_next l (enter_all enters after) r d) x
  enter_all-fails enters (c ∷ before) after l e d y x =
      enter_next-fails c (enter_all enters (before ++ l ∷ after)) (enters c)
        (map entering (before ++ l ∷ [])) e d (y.0)
        (λ u. enter_all-fails enters before after l e u y.1 x)

  start_lifespans-opened :
      (hooks : Hooks Exc) (before after : List ℕ) (l : ℕ) (site : Site Exc)
      → open_all hooks.opens (before ++ l ∷ after) ≡ none
      → start_lifespans hooks (before ++ l ∷ after) site
        ≡ finish_enter
            (enter_all hooks.enters (before ++ l ∷ after) [])
            (record site { lifespan_cms = before ++ l ∷ after })
  start_lifespans-opened hooks [] after l site o = ap (λ r. enter_opened hooks r (l ∷ after) site) o
  start_lifespans-opened hooks (c ∷ before) after l site o =
      ap (λ r. enter_opened hooks r (c ∷ before ++ l ∷ after) site) o

  pub run_lifespan_startup-fails :
      (hooks : Hooks Exc) (site : Site Exc) (before after : List ℕ) (l : ℕ) (e : Exc)
      → site.lifespan_cms ≡ []
      → collect_lifespans site.app ≡ before ++ l ∷ after
      → open_all hooks.opens (before ++ l ∷ after) ≡ none
      → All (λ c. yielded (hooks.enters c) ≡ true) before
      → hooks.enters l ≡ fails e
      → run_lifespan_startup hooks site ≡ (
        map entering (before ++ l ∷ []),
        raised e,
        record site { lifespan_cms = before ++ l ∷ after },
      )
  unfolding run_lifespan_startup
  run_lifespan_startup-fails hooks site before after l e c q o y x =
      ap (λ cms. unless_entered hooks cms site) c
      ∙ ap (λ ls. start_lifespans hooks ls site) q
      ∙ start_lifespans-opened hooks before after l site o
      ∙ ap (λ s. finish_enter s (record site { lifespan_cms = before ++ l ∷ after }))
          (enter_all-fails hooks.enters before after l e [] y x)

  pub run_lifespan_startup-held :
      (later : Hooks Exc) (before after : List ℕ) (l : ℕ) (site : Site Exc)
      → site.lifespan_cms ≡ before ++ l ∷ after
      → run_lifespan_startup later site ≡ ([], returned, site)
  unfolding run_lifespan_startup
  run_lifespan_startup-held later [] after l site c = ap (λ cms. unless_entered later cms site) c
  run_lifespan_startup-held later (b ∷ before) after l site c =
      ap (λ cms. unless_entered later cms site) c

  -- Take an application that holds no context managers, whose lifespans can all be called, and let
  -- `__aenter__` of one of them raise after all those before it yielded. The startup is answered as
  -- failed with that exception; only the lifespans up to that one were entered, none of them was
  -- left, and no handler ran. Yet the application now holds all its lifespans, the later ones never
  -- entered: a later startup enters none of them, whatever they would do by then, and returns.
  pub asgi_lifespan-retry :
      (hooks later : Hooks Exc) (site : Site Exc) (before after : List ℕ) (l : ℕ) (e : Exc)
      → site.lifespan_cms ≡ []
      → collect_lifespans site.app ≡ before ++ l ∷ after
      → open_all hooks.opens (before ++ l ∷ after) ≡ none
      → All (λ c. yielded (hooks.enters c) ≡ true) before
      → hooks.enters l ≡ fails e
      → let s = asgi_lifespan ((startup, hooks) ∷ []) site in
        (s.replies ≡ startup_failed (raised e) ∷ [])
        × (s.events ≡ map entering (before ++ l ∷ []))
        × (s.site.lifespan_cms ≡ before ++ l ∷ after)
        × (run_lifespan_startup later s.site ≡ ([], returned, s.site))
  unfolding asgi_lifespan try_startup
  asgi_lifespan-retry hooks later site before after l e c q o y x =
      let s = asgi_lifespan ((startup, hooks) ∷ []) site in
      let p =
        ap
          (λ r.
            answer_startup
              (and_then r
                (λ entered. handlers (run_startup_handlers hooks.calls entered.app) entered))
              (asgi_lifespan []))
          (run_lifespan_startup-fails hooks site before after l e c q o y x) in
      let held : s.site.lifespan_cms ≡ before ++ l ∷ after =
        ap (λ (t : Session Exc). t.site.lifespan_cms) p in
      (
        ap (λ (t : Session Exc). t.replies) p,
        ap (λ (t : Session Exc). t.events) p,
        held,
        run_lifespan_startup-held later before after l s.site held,
      )
