-- ===== src/Door/Call/Startup.antt =====
-- The startup that the first HTTP request runs.
use mathlib.Core.Bool.{false≢true}
use mathlib.Core.Path.{subst}
use fastapi_turbo.Prelude.{
  ℕ, ◌≡◌, refl, sym, ap, ◌∙◌, Bool, true, false, List, [], ◌++◌, Option, none, some, if◌then◌else◌,
}
use fastapi_turbo.App.Lifecycle.{
  App, StartupState, not_started, running, started, failed, returned, earlier_failure, reentrant,
  raised, run_startup_handlers, startup_from, finish_startup, call_all, collect_startup_handlers,
}
use fastapi_turbo.App.Lifespan.{
  Event, Hooks, Site, Run, and_then, handlers, run_lifespan_startup, try_startup,
}
use fastapi_turbo.Door.Mount.{
  Scope, Outcome, unhandled, encode_error, handled, asgi_try_http_mount, websocket_mounts,
}
use fastapi_turbo.Door.Call.{
  Kind, http, websocket, lifespan, other, Request, Server, Action, raises, ignored, door, proxy,
  mounted, encoding_error, runs_lifespan, Called, is_failed, inject_root_path, refuse, through,
  in_process, dispatch_http, finish_install, install_in_process_dynamic_routes, call_http,
  call_websocket, call_kind, call,
}

abbrev pub is_raise : {Exc : Type 0} → Action Exc → Bool
is_raise (raises e) = true
is_raise _ = false

pub through-quiet :
    (Exc : Type 0) (b : Bool) (o : Outcome) (scope : Scope)
    → is_raise {Exc = Exc} (through b o scope) ≡ false
through-quiet Exc b (handled t inner) scope = refl
through-quiet Exc b encode_error scope = refl
through-quiet Exc true unhandled scope = refl
through-quiet Exc false unhandled scope = refl

module _ {Exc : Type 0} where
  -- What a startup that returned leaves.
  abbrev Up : Run Exc → Type 0
  Up (ran, returned, site) = site.app.state ≡ started
  Up (ran, ended, site) = Unit

  handlers-Up :
      (hooks : Hooks Exc) (state : StartupState) (app : App Exc) (site : Site Exc)
      → app.state ≡ state
      → Up (handlers (startup_from hooks.calls state app) site)
  handlers-Up hooks started app site e = e
  handlers-Up hooks failed app site e = tt
  handlers-Up hooks running app site e = tt
  handlers-Up hooks not_started app site e =
      finish_lem (call_all hooks.calls (collect_startup_handlers app))
    where
      finish_lem :
          (r : List ℕ × Option Exc)
          → Up (handlers (finish_startup r (record app { state = running })) site)
      finish_lem (ran, none) = refl
      finish_lem (ran, some e) = tt

  prefix-Up : (ran : List Event) (r : Run Exc) → Up r → Up (ran ++ r.0, r.1, r.2)
  prefix-Up ran (more, returned, site) h = h
  prefix-Up ran (more, raised e, site) h = tt
  prefix-Up ran (more, earlier_failure, site) h = tt
  prefix-Up ran (more, reentrant, site) h = tt

  and_then-Up :
      (r : Run Exc) (next : Site Exc → Run Exc)
      → ((site : Site Exc) → Up (next site))
      → Up (and_then r next)
  and_then-Up (ran, returned, site) next h = prefix-Up ran (next site) (h site)
  and_then-Up (ran, raised e, site) next h = tt
  and_then-Up (ran, earlier_failure, site) next h = tt
  and_then-Up (ran, reentrant, site) next h = tt

  try_startup-Up : (hooks : Hooks Exc) (site : Site Exc) → Up (try_startup hooks site)
  unfolding try_startup run_startup_handlers
  try_startup-Up hooks site =
      and_then-Up (run_lifespan_startup hooks site)
        (λ entered. handlers (run_startup_handlers hooks.calls entered.app) entered)
        (λ s. handlers-Up hooks s.app.state s.app s refl)

  -- An application that has installed its routes and is started.
  abbrev Serving : Server Exc → Type 0
  Serving server =
      (server.site.app.dynamic_routes_installed ≡ true) × (server.site.app.state ≡ started)

  -- A request that runs nothing of the program's startup, changes nothing and is not refused.
  abbrev pub Plain : Called Exc → Server Exc → Type 0
  Plain called server = (called.0 ≡ []) × (called.2 ≡ server) × (is_raise called.1 ≡ false)

  call_http-Serving :
      (later : Hooks Exc) (request : Request) (scope : Scope) (server : Server Exc)
      → Serving server
      → Plain (call_http later request scope server) server
  unfolding call_http install_in_process_dynamic_routes
  call_http-Serving later request scope server h =
      let o = asgi_try_http_mount server.mounts (server.installed ++ server.routes) scope in
      let action : Action Exc = through (in_process request server) o scope in
      let e : call_http later request scope server ≡ ([], action, server) =
        ap
          (λ state.
            if is_failed state
            then refuse later server
            else dispatch_http request scope (install_in_process_dynamic_routes later server))
          h.1
        ∙ ap
            (λ b. dispatch_http request scope (
              if b
              then ([], ignored, server)
              else finish_install (try_startup later server.site) server))
            h.0 in
      (
        ap (λ (c : Called Exc). c.0) e,
        ap (λ (c : Called Exc). c.2) e,
        ap (λ (c : Called Exc). is_raise c.1) e
            ∙ through-quiet Exc (in_process request server) o scope,
      )

  call_kind-Serving :
      (later : Hooks Exc) (kind : Kind) (request : Request) (server : Server Exc)
      → Serving server
      → Plain (call_kind later kind request server) server
  unfolding call_websocket
  call_kind-Serving later lifespan request server h = (refl, refl, refl)
  call_kind-Serving later other request server h = (refl, refl, refl)
  call_kind-Serving later websocket request server h =
      let scope = inject_root_path server request.scope in
      (
        refl,
        refl,
        through-quiet Exc (in_process request server)
            (websocket_mounts server.mounts (server.installed ++ server.routes) scope) scope,
      )
  call_kind-Serving later http request server h =
      call_http-Serving later request (inject_root_path server request.scope) server h

  finish_install-Serving :
      (r : Run Exc) (server : Server Exc)
      → Up r
      → is_raise (finish_install r server).1 ≡ false
      → Serving (finish_install r server).2
  finish_install-Serving (ran, returned, site) server u q = (refl, u)
  finish_install-Serving (ran, raised e, site) server u q = absurd (false≢true (sym q))
  finish_install-Serving (ran, earlier_failure, site) server u q = absurd (false≢true (sym q))
  finish_install-Serving (ran, reentrant, site) server u q = absurd (false≢true (sym q))

  dispatch_http-Serving :
      (request : Request) (scope : Scope) (c : Called Exc)
      → (is_raise c.1 ≡ false → Serving c.2)
      → is_raise (dispatch_http request scope c).1 ≡ false
      → Serving (dispatch_http request scope c).2
  dispatch_http-Serving request scope (ran, ignored, server) h q = h refl
  dispatch_http-Serving request scope (ran, runs_lifespan, server) h q = h q
  dispatch_http-Serving request scope (ran, encoding_error, server) h q = h q
  dispatch_http-Serving request scope (ran, raises e, server) h q = h q
  dispatch_http-Serving request scope (ran, mounted t inner, server) h q = h q
  dispatch_http-Serving request scope (ran, door s, server) h q = h q
  dispatch_http-Serving request scope (ran, proxy s, server) h q = h q

  pub install-fresh :
      (hooks : Hooks Exc) (server : Server Exc)
      → server.site.app.dynamic_routes_installed ≡ false
      → install_in_process_dynamic_routes hooks server
        ≡ finish_install (try_startup hooks server.site) server
  unfolding install_in_process_dynamic_routes
  install-fresh hooks server f =
      ap
        (λ b.
          if b
          then ([], ignored, server)
          else finish_install (try_startup hooks server.site) server)
        f

  call_http-Settled :
      (hooks : Hooks Exc) (request : Request) (scope : Scope) (server : Server Exc)
      → server.site.app.dynamic_routes_installed ≡ false
      → is_raise (call_http hooks request scope server).1 ≡ false
      → Serving (call_http hooks request scope server).2
  unfolding call_http
  call_http-Settled hooks request scope server f = by_state (is_failed server.site.app.state)
    where
      installed : Called Exc
      installed = install_in_process_dynamic_routes hooks server

      served : is_raise installed.1 ≡ false → Serving installed.2
      served =
          subst (λ (c : Called Exc). is_raise c.1 ≡ false → Serving c.2)
            (sym (install-fresh hooks server f))
            (finish_install-Serving (try_startup hooks server.site) server
              (try_startup-Up hooks server.site))

      by_state :
          (b : Bool)
          → is_raise (if b then refuse hooks server else dispatch_http request scope installed).1
            ≡ false
          → Serving (if b then refuse hooks server else dispatch_http request scope installed).2
      by_state true q = absurd (false≢true (sym q))
      by_state false q = dispatch_http-Serving request scope installed served q

  -- Let an HTTP request reach an application that has not installed its routes, and let it not be
  -- refused. Then the application is started: whatever scope comes next, of any type and whatever the
  -- program's code would do by then, `__call__` itself runs no lifespan and no startup handler for it,
  -- changes nothing of the application and does not refuse it. (A scope of the type `lifespan` it hands
  -- to the loop of `_asgi_lifespan`, of which nothing is said.)
  pub call-settles :
      (hooks later : Hooks Exc) (first second : Request) (server : Server Exc)
      → first.kind ≡ http
      → server.site.app.dynamic_routes_installed ≡ false
      → is_raise (call hooks first server).1 ≡ false
      → Plain (call later second (call hooks first server).2) (call hooks first server).2
  unfolding call
  call-settles hooks later first second server k f q =
      let scope = inject_root_path server first.scope in
      let e = ap (λ kind. call_kind hooks kind first server) k in
      call_kind-Serving later second.kind second (call_kind hooks first.kind first server).2 (
        subst (λ (c : Called Exc). Serving c.2) (sym e)
          (call_http-Settled hooks first scope server f
            (sym (ap (λ (c : Called Exc). is_raise c.1) e) ∙ q)))
