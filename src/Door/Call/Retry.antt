-- ===== src/Door/Call/Retry.antt =====
-- What the requests after a failed lifespan find.
use mathlib.Core.Path.{subst}
use fastapi_turbo.Prelude.{
  ℕ, ◌≡◌, refl, sym, ap, ◌∙◌, true, false, List, [], ◌∷◌, ◌++◌, map, Option, none, All,
  if◌then◌else◌,
}
use fastapi_turbo.App.Lifecycle.{
  not_started, running, started, returned, raised, run_startup_handlers, startup_from,
  finish_startup, call_all, collect_startup_handlers, collect_lifespans,
}
use fastapi_turbo.App.Lifespan.{
  Event, entering, calling, Hooks, Site, fails, open_all, and_then, handlers, run_lifespan_startup,
  try_startup,
}
use fastapi_turbo.App.Lifespan.Merge.{yielded}
use fastapi_turbo.App.Lifespan.Retry.{run_lifespan_startup-fails, run_lifespan_startup-held}
use fastapi_turbo.Door.Mount.{Scope, asgi_try_http_mount}
use fastapi_turbo.Door.Call.{
  http, Request, Server, raises, Called, is_failed, inject_root_path, refuse, in_process,
  dispatch_http, finish_install, install_in_process_dynamic_routes, call_http, call_kind, call,
}
use fastapi_turbo.Door.Call.Startup.{is_raise, install-fresh, through-quiet}

module _ {Exc : Type 0} where
  -- What a call that ran these events, and raised that, leaves.
  abbrev raised_call : List Event → Exc → Site Exc → Server Exc → Called Exc
  raised_call ran e site server = (ran, raises (raised e), record server { site = site })

  call_http-fails :
      (hooks : Hooks Exc) (request : Request) (scope : Scope) (server : Server Exc)
      (ran : List Event) (e : Exc) (site : Site Exc)
      → server.site.app.state ≡ not_started
      → server.site.app.dynamic_routes_installed ≡ false
      → run_lifespan_startup hooks server.site ≡ (ran, raised e, site)
      → call_http hooks request scope server ≡ raised_call ran e site server
  unfolding call_http try_startup
  call_http-fails hooks request scope server ran e site n f r =
      ap
        (λ state.
          if is_failed state
          then refuse hooks server
          else dispatch_http request scope (install_in_process_dynamic_routes hooks server))
        n
      ∙ ap (dispatch_http request scope) (install-fresh hooks server f)
      ∙ ap
          (λ run. dispatch_http request scope (
            finish_install
              (and_then run
                (λ entered. handlers (run_startup_handlers hooks.calls entered.app) entered))
              server))
          r

  quiet-call_all :
      (calls : ℕ → Option Exc) (hs : List ℕ)
      → All (λ h. calls h ≡ none) hs
      → call_all calls hs ≡ (hs, none)
  unfolding call_all
  quiet-call_all calls [] q = refl
  quiet-call_all calls (h ∷ hs) q = rw (q.0, quiet-call_all calls hs q.1) refl

  abbrev startup_done : Site Exc → Site Exc
  startup_done site = record site { app = record site.app { state = started } }

  try_startup-held :
      (later : Hooks Exc) (site : Site Exc)
      → run_lifespan_startup later site ≡ ([], returned, site)
      → site.app.state ≡ not_started
      → All (λ h. later.calls h ≡ none) (collect_startup_handlers site.app)
      → try_startup later site
        ≡ (map calling (collect_startup_handlers site.app), returned, startup_done site)
  unfolding try_startup run_startup_handlers
  try_startup-held later site r n q =
      let app = record site.app { state = running } in
      ap
        (λ run.
          and_then run (λ entered. handlers (run_startup_handlers later.calls entered.app) entered))
        r
      ∙ ap (λ state. handlers (startup_from later.calls state site.app) site) n
      ∙ ap (λ c. handlers (finish_startup c app) site)
          (quiet-call_all later.calls (collect_startup_handlers site.app) q)

  call_http-held :
      (later : Hooks Exc) (request : Request) (scope : Scope) (server : Server Exc)
      → run_lifespan_startup later server.site ≡ ([], returned, server.site)
      → server.site.app.state ≡ not_started
      → server.site.app.dynamic_routes_installed ≡ false
      → All (λ h. later.calls h ≡ none) (collect_startup_handlers server.site.app)
      → call_http later request scope server
        ≡ dispatch_http request scope (
            finish_install
              (
                map calling (collect_startup_handlers server.site.app),
                returned,
                startup_done server.site,
              )
              server)
  unfolding call_http
  call_http-held later request scope server r n f q =
      ap
        (λ state.
          if is_failed state
          then refuse later server
          else dispatch_http request scope (install_in_process_dynamic_routes later server))
        n
      ∙ ap (dispatch_http request scope) (install-fresh later server f)
      ∙ ap (λ run. dispatch_http request scope (finish_install run server))
          (try_startup-held later server.site r n q)

  -- The request ran just these startup handlers, and was not refused.
  abbrev pub Starts : List ℕ → Called Exc → Type 0
  Starts hs called = (called.0 ≡ map calling hs) × (is_raise called.1 ≡ false)

  call_http-Starts :
      (later : Hooks Exc) (request : Request) (scope : Scope) (server : Server Exc)
      → run_lifespan_startup later server.site ≡ ([], returned, server.site)
      → server.site.app.state ≡ not_started
      → server.site.app.dynamic_routes_installed ≡ false
      → All (λ h. later.calls h ≡ none) (collect_startup_handlers server.site.app)
      → Starts (collect_startup_handlers server.site.app) (call_http later request scope server)
  call_http-Starts later request scope server r n f q =
      let e = call_http-held later request scope server r n f q in
      let routes = server.docs ++ server.routes in
      (
        ap (λ (c : Called Exc). c.0) e,
        ap (λ (c : Called Exc). is_raise c.1) e
            ∙ through-quiet Exc (in_process request server)
                (asgi_try_http_mount server.mounts routes scope) scope,
      )

  -- Take an application that has served nothing yet and got no lifespan messages. Let every lifespan
  -- be callable and let `__aenter__` of one raise, on the first HTTP request, after those before it
  -- yielded. That request is refused with that exception. The next HTTP request, when no startup
  -- handler raises, runs the startup handlers alone and is served: the lifespan that failed, and those
  -- after it, are never entered.
  pub call-retry :
      (hooks later : Hooks Exc) (first second : Request) (server : Server Exc)
      (before after : List ℕ) (l : ℕ) (e : Exc)
      → first.kind ≡ http
      → second.kind ≡ http
      → server.site.app.state ≡ not_started
      → server.site.app.dynamic_routes_installed ≡ false
      → server.site.lifespan_cms ≡ []
      → collect_lifespans server.site.app ≡ before ++ l ∷ after
      → open_all hooks.opens (before ++ l ∷ after) ≡ none
      → All (λ c. yielded (hooks.enters c) ≡ true) before
      → hooks.enters l ≡ fails e
      → All (λ h. later.calls h ≡ none) (collect_startup_handlers server.site.app)
      → let r = call hooks first server in
        (r.1 ≡ raises (raised e))
        × Starts (collect_startup_handlers server.site.app) (call later second r.2)
  unfolding call
  call-retry hooks later first second server before after l e k k' n f c q o y x h =
      let scope = inject_root_path server first.scope in
      let site = record server.site { lifespan_cms = before ++ l ∷ after } in
      let refused = record server { site = site } in
      let scope' = inject_root_path refused second.scope in
      let p =
        ap (λ kind. call_kind hooks kind first server) k
        ∙ call_http-fails hooks first scope server (map entering (before ++ l ∷ [])) e site n f
            (run_lifespan_startup-fails hooks server.site before after l e c q o y x) in
      let s : Starts (collect_startup_handlers server.site.app)
          (call_kind later second.kind second refused) =
        subst
          (λ kind.
            Starts (collect_startup_handlers server.site.app) (call_kind later kind second refused))
          (sym k')
          (call_http-Starts later second scope' refused
            (run_lifespan_startup-held later before after l site refl) n f h) in
      (
        ap (λ (r : Called Exc). r.1) p,
        subst
            (λ (r : Called Exc).
              Starts (collect_startup_handlers server.site.app)
                (call_kind later second.kind second r.2))
            (sym p) s,
      )
