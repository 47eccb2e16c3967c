-- ===== src/Door/Call/Refusal.antt =====
-- What an application whose startup failed in a handler does with requests.
use fastapi_turbo.Prelude.{
  ℕ, ◌≡◌, refl, ap, ◌∙◌, false, List, [], ◌∷◌, ◌++◌, map, Option, none, some, All, if◌then◌else◌,
}
use fastapi_turbo.App.Lifecycle.{
  App, not_started, failed, returned, raised, earlier_failure, reentrant, run_startup_handlers,
  startup_from, collect_startup_handlers,
}
use fastapi_turbo.App.Lifecycle.Cycle.{run_startup_handlers-fails}
use fastapi_turbo.App.Lifespan.{
  calling, Hooks, Site, Run, Entry, fails, yields, finish_enter, enter_opened, enter_all, open_all,
  start_lifespans, unless_entered, run_lifespan_startup, handlers, and_then, try_startup,
}
use fastapi_turbo.Door.Mount.{websocket_mounts, Scope}
use fastapi_turbo.Door.Call.{
  http, websocket, Request, Server, raises, Called, is_failed, inject_root_path, refuse, in_process,
  dispatch_http, finish_install, install_in_process_dynamic_routes, call_http, call_websocket,
  call_kind, call,
}
use fastapi_turbo.Door.Call.Startup.{is_raise, install-fresh, through-quiet}

module _ {Exc : Type 0} where
  finish_enter-app : (r : Entry Exc) (site : Site Exc) → (finish_enter r site).2.app ≡ site.app
  finish_enter-app (ran, fails e) site = refl
  finish_enter-app (ran, yields merged) site = refl

  enter_opened-app :
      (hooks : Hooks Exc) (o : Option Exc) (ls : List ℕ) (site : Site Exc)
      → (enter_opened hooks o ls site).2.app ≡ site.app
  enter_opened-app hooks none ls site =
      finish_enter-app (enter_all hooks.enters ls []) (record site { lifespan_cms = ls })
  enter_opened-app hooks (some e) ls site = refl

  start_lifespans-app :
      (hooks : Hooks Exc) (ls : List ℕ) (site : Site Exc)
      → (start_lifespans hooks ls site).2.app ≡ site.app
  start_lifespans-app hooks [] site = refl
  start_lifespans-app hooks (l ∷ ls) site =
      enter_opened-app hooks (open_all hooks.opens (l ∷ ls)) (l ∷ ls) site

  run_lifespan_startup-app :
      (hooks : Hooks Exc) (cms : List ℕ) (site : Site Exc)
      → (unless_entered hooks cms site).2.app ≡ site.app
  run_lifespan_startup-app hooks [] site = start_lifespans-app hooks _ site
  run_lifespan_startup-app hooks (c ∷ cms) site = refl

  and_then-returned :
      (r : Run Exc) (next : Site Exc → Run Exc)
      → r.1 ≡ returned
      → and_then r next ≡ (r.0 ++ (next r.2).0, (next r.2).1, (next r.2).2)
  and_then-returned (ran, returned, site) next q = refl
  and_then-returned (ran, raised e, site) next q = cc
  and_then-returned (ran, earlier_failure, site) next q = cc
  and_then-returned (ran, reentrant, site) next q = cc

  finish_install-raises :
      (r : Run Exc) (e : Exc) (server : Server Exc)
      → r.1 ≡ raised e
      → finish_install r server ≡ (r.0, raises (raised e), record server { site = r.2 })
  finish_install-raises (ran, returned, site) e server q = cc
  finish_install-raises (ran, raised f, site) e server q =
      ap (λ t. (ran, raises t, record server { site = site })) q
  finish_install-raises (ran, earlier_failure, site) e server q = cc
  finish_install-raises (ran, reentrant, site) e server q = cc

  -- The startup of a site: what it ran and raised, and the state that it left.
  try_startup-fails :
      (hooks : Hooks Exc) (site : Site Exc) (before after : List ℕ) (h : ℕ) (e : Exc)
      → (run_lifespan_startup hooks site).1 ≡ returned
      → site.app.state ≡ not_started
      → collect_startup_handlers site.app ≡ before ++ h ∷ after
      → All (λ g. hooks.calls g ≡ none) before
      → hooks.calls h ≡ some e
      → let t = try_startup hooks site in
        (t.0 ≡ (run_lifespan_startup hooks site).0 ++ map calling (before ++ h ∷ []))
        × (t.1 ≡ raised e)
        × (t.2.app.state ≡ failed)
  unfolding try_startup run_lifespan_startup
  try_startup-fails hooks site before after h e ok n c quiet x =
      let r = run_lifespan_startup hooks site in
      let same : r.2.app ≡ site.app = run_lifespan_startup-app hooks site.lifespan_cms site in
      let run = run_startup_handlers hooks.calls r.2.app in
      let f =
        run_startup_handlers-fails hooks.calls hooks.calls [] r.2.app before after h e
          (ap (λ (a : App Exc). a.state) same ∙ n) (ap collect_startup_handlers same ∙ c) quiet x in
      let p =
        and_then-returned r
          (λ entered. handlers (run_startup_handlers hooks.calls entered.app) entered) ok in
      (
        ap (λ (t : Run Exc). t.0) p ∙ ap (λ hs. r.0 ++ map calling hs) f.0,
        ap (λ (t : Run Exc). t.1) p ∙ f.1,
        ap (λ (t : Run Exc). t.2.app.state) p ∙ f.2,
      )

  call_http-failed :
      (hooks : Hooks Exc) (request : Request) (scope : Scope) (server : Server Exc)
      → server.site.app.state ≡ failed
      → call_http hooks request scope server ≡ ([], raises earlier_failure, server)
  unfolding call_http run_startup_handlers
  call_http-failed hooks request scope server e =
      ap
        (λ s.
          if is_failed s
          then refuse hooks server
          else dispatch_http request scope (install_in_process_dynamic_routes hooks server))
        e
      ∙ ap
          (λ s.
            let r = handlers (startup_from hooks.calls s server.site.app) server.site in
            (r.0, raises r.1, record server { site = r.2 }))
          e

  call_http-fails :
      (hooks : Hooks Exc) (request : Request) (scope : Scope) (server : Server Exc) (e : Exc)
      → server.site.app.state ≡ not_started
      → server.site.app.dynamic_routes_installed ≡ false
      → (try_startup hooks server.site).1 ≡ raised e
      → let t = try_startup hooks server.site in
        call_http hooks request scope server
        ≡ (t.0, raises (raised e), record server { site = t.2 })
  unfolding call_http
  call_http-fails hooks request scope server e n f x =
      ap
        (λ s.
          if is_failed s
          then refuse hooks server
          else dispatch_http request scope (install_in_process_dynamic_routes hooks server))
        n
      ∙ ap (dispatch_http request scope) (install-fresh hooks server f)
      ∙ ap (dispatch_http request scope)
          (finish_install-raises (try_startup hooks server.site) e server x)

  -- What requests to a server find whose startup failed in a handler.
  abbrev pub Refuses : Hooks Exc → Request → Request → Server Exc → Type 0
  Refuses later request upgrade server =
      (call later request server ≡ ([], raises earlier_failure, server))
      × (is_raise (call later upgrade server).1 ≡ false)

  state-Refuses :
      (later : Hooks Exc) (request upgrade : Request) (server : Server Exc)
      → server.site.app.state ≡ failed
      → request.kind ≡ http
      → upgrade.kind ≡ websocket
      → Refuses later request upgrade server
  unfolding call call_websocket
  state-Refuses later request upgrade server f k u =
      let scope = inject_root_path server upgrade.scope in
      (
        ap (λ kind. call_kind later kind request server) k
            ∙ call_http-failed later request (inject_root_path server request.scope) server f,
        ap (λ kind. is_raise (call_kind later kind upgrade server).1) u
            ∙ through-quiet Exc (in_process upgrade server)
                (websocket_mounts server.mounts (server.installed ++ server.routes) scope) scope,
      )

  -- Take an application that has not been started, whose lifespans can be entered, and of whose startup
  -- handlers one raises, after those before it did not. The first HTTP request runs the startup up to
  -- that handler, and is refused with its exception. The next HTTP request, whatever its path, is
  -- refused with the error that names the earlier failure; it runs none of the program's startup code
  -- and changes nothing, so that the same holds for the one behind it. A WebSocket request is not
  -- refused for the failure.
  pub call-failed :
      (hooks later : Hooks Exc) (first second upgrade : Request) (server : Server Exc)
      (before after : List ℕ) (h : ℕ) (e : Exc)
      → first.kind ≡ http
      → second.kind ≡ http
      → upgrade.kind ≡ websocket
      → server.site.app.state ≡ not_started
      → server.site.app.dynamic_routes_installed ≡ false
      → (run_lifespan_startup hooks server.site).1 ≡ returned
      → collect_startup_handlers server.site.app ≡ before ++ h ∷ after
      → All (λ g. hooks.calls g ≡ none) before
      → hooks.calls h ≡ some e
      → let r = call hooks first server in
        (r.0 ≡ (run_lifespan_startup hooks server.site).0 ++ map calling (before ++ h ∷ []))
        × (r.1 ≡ raises (raised e))
        × Refuses later second upgrade r.2
  unfolding call
  call-failed hooks later first second upgrade server before after h e k k' u n f ok c quiet x =
      let t = try_startup-fails hooks server.site before after h e ok n c quiet x in
      let p =
        ap (λ kind. call_kind hooks kind first server) k
        ∙ call_http-fails hooks first (inject_root_path server first.scope) server e n f t.1 in
      (
        ap (λ (r : Called Exc). r.0) p ∙ t.0,
        ap (λ (r : Called Exc). r.1) p,
        state-Refuses later second upgrade (call hooks first server).2
            (ap (λ (r : Called Exc). r.2.site.app.state) p ∙ t.2) k' u,
      )
