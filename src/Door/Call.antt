-- ===== src/Door/Call.antt =====
-- `FastAPI.__call__` (python/fastapi_turbo/applications.py): which of its doors a scope goes through,
-- and the startup that the first HTTP request runs, `_install_in_process_dynamic_routes`. The
-- documentation routes that the installation adds are given, in their final order; the registration
-- with `atexit` is not modelled.
pub mod Startup
pub mod Refusal
pub mod Retry
mod Tests
use fastapi_turbo.Prelude.{
  ℕ, Bool, true, false, not, ◌&&◌, List, [], ◌∷◌, ◌++◌, Option, none, some, if◌then◌else◌,
}
use fastapi_turbo.App.Lifecycle.{
  App, StartupState, not_started, running, started, failed, Ended, returned, earlier_failure,
  reentrant, raised, run_startup_handlers,
}
use fastapi_turbo.App.Lifespan.{Event, Hooks, Site, try_startup, handlers}
use fastapi_turbo.Door.Mount.{
  Mount, Route, Scope, Target, Outcome, unhandled, encode_error, handled, asgi_try_http_mount,
  websocket_mounts,
}

-- `scope["type"]`.
pub data Kind : Type 0 where
  lifespan http websocket other : Kind

pub record Request : Type 0 where
  pub kind : Kind
  pub scope : Scope
  pub force_proxy : Bool

-- `root_path` is empty when it is not configured; `docs` are the routes an installation adds, and
-- `installed` those that it has added.
pub record Server (Exc : Type 0) : Type 0 where
  pub site : Site Exc
  pub mounts : List Mount
  pub routes : List Route
  pub docs : List Route
  pub installed : List Route
  pub root_path : List ℕ
  pub oneshot_door : Bool

-- What a call does with the request: it runs the lifespan loop, raises, calls a mounted application,
-- goes through the in-process door or the loopback server, or does nothing.
pub data Action (Exc : Type 0) : Type 0 where
  runs_lifespan ignored encoding_error : Action Exc
  raises : Ended Exc → Action Exc
  mounted : Target → Scope → Action Exc
  door proxy : Scope → Action Exc

abbrev pub Called : Type 0 → Type 0
Called Exc = List Event × Action Exc × Server Exc

abbrev root_of : List ℕ → List ℕ → List ℕ
root_of configured [] = configured
root_of configured (a ∷ s) = a ∷ s

abbrev pub is_failed : StartupState → Bool
is_failed failed = true
is_failed _ = false

module _ {Exc : Type 0} where
  -- The configured `root_path`, unless the transport supplied one.
  unfoldable pub inject_root_path : Server Exc → Scope → Scope
  inject_root_path server scope = record scope {
    root_path = root_of server.root_path scope.root_path;
  }

  abbrev pub finish_install : (List Event × Ended Exc × Site Exc) → Server Exc → Called Exc
  finish_install (ran, returned, site) server = (
    ran,
    ignored,
    record server {
      site = record site { app = record site.app { dynamic_routes_installed = true } };
      installed = server.docs;
    },
  )
  finish_install (ran, ended, site) server = (ran, raises ended, record server { site = site })

  -- `_install_in_process_dynamic_routes`; `ignored` stands for its return.
  unfoldable pub install_in_process_dynamic_routes : Hooks Exc → Server Exc → Called Exc
  install_in_process_dynamic_routes hooks server =
      if server.site.app.dynamic_routes_installed
      then ([], ignored, server)
      else finish_install (try_startup hooks server.site) server

  -- `_run_startup_handlers` on an application whose startup failed.
  abbrev pub refuse : Hooks Exc → Server Exc → Called Exc
  refuse hooks server =
      let r = handlers (run_startup_handlers hooks.calls server.site.app) server.site in
      (r.0, raises r.1, record server { site = r.2 })

  -- The last step of the HTTP branch and of the WebSocket branch.
  abbrev pub through : Bool → Outcome → Scope → Action Exc
  through in_process (handled t inner) scope = mounted t inner
  through in_process encode_error scope = encoding_error
  through in_process unhandled scope = if in_process then door scope else proxy scope

  abbrev pub in_process : Request → Server Exc → Bool
  in_process request server = not request.force_proxy && server.oneshot_door

  -- The HTTP branch after the installation.
  abbrev pub dispatch_http : Request → Scope → Called Exc → Called Exc
  dispatch_http request scope (ran, ignored, server) = (
    ran,
    through (in_process request server)
        (asgi_try_http_mount server.mounts (server.installed ++ server.routes) scope) scope,
    server,
  )
  dispatch_http request scope (ran, action, server) = (ran, action, server)

  unfoldable pub call_http : Hooks Exc → Request → Scope → Server Exc → Called Exc
  call_http hooks request scope server =
      if is_failed server.site.app.state
      then refuse hooks server
      else dispatch_http request scope (install_in_process_dynamic_routes hooks server)

  unfoldable pub call_websocket : Request → Scope → Server Exc → Called Exc
  call_websocket request scope server = (
    [],
    through (in_process request server)
        (websocket_mounts server.mounts (server.installed ++ server.routes) scope) scope,
    server,
  )

  abbrev pub call_kind : Hooks Exc → Kind → Request → Server Exc → Called Exc
  call_kind hooks lifespan request server = ([], runs_lifespan, server)
  call_kind hooks http request server =
      call_http hooks request (inject_root_path server request.scope) server
  call_kind hooks websocket request server =
      call_websocket request (inject_root_path server request.scope) server
  call_kind hooks other request server = ([], ignored, server)

  -- `__call__`.
  unfoldable pub call : Hooks Exc → Request → Server Exc → Called Exc
  call hooks request server = call_kind hooks request.kind request server
