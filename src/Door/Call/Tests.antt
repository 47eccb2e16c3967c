-- ===== src/Door/Call/Tests.antt =====
-- An application with two lifespans and a startup handler, of which the second lifespan fails once.
use fastapi_turbo.Prelude.{
  ℕ, ◌≡◌, refl, true, false, [], ◌∷◌, ◌++◌, none, some, All, if◌then◌else◌, ◌==◌, map,
}
use fastapi_turbo.App.Lifecycle.{
  App, router, Routers, not_started, returned, raised, collect_lifespans, collect_startup_handlers,
  run_startup_handlers, call_all,
}
use fastapi_turbo.App.Lifespan.{
  Hooks, calling, yields, fails, open_all, try_startup, run_lifespan_startup, enter_all,
}
use fastapi_turbo.Door.Mount.{Scope, asgi_try_http_mount, try_mounts, try_mount_routes}
use fastapi_turbo.Door.Call.{
  http, websocket, Request, Server, raises, call, call_http, install_in_process_dynamic_routes,
}
use fastapi_turbo.Door.Call.Startup.{is_raise, Plain, call-settles}
use fastapi_turbo.Door.Call.Retry.{Starts, call-retry}
use fastapi_turbo.Door.Call.Refusal.{Refuses, call-failed}

abbrev app : App ℕ
app = record {
  on_startup = 7 ∷ [];
  on_shutdown = [];
  lifespan = some 2;
  root = router [] [] none (Routers.cons (router [] [] (some 1) Routers.nil) Routers.nil);
  included = Routers.nil;
  state = not_started;
  failure = none;
  dynamic_routes_installed = false;
}

abbrev server : Server ℕ
server = record {
  site = record { app = app; lifespan_cms = []; app_state = []; state = [] };
  mounts = [];
  routes = [];
  docs = [];
  installed = [];
  root_path = 47 ∷ 114 ∷ [];
  oneshot_door = true;
}

abbrev fine : Hooks ℕ
fine = record {
  opens = λ n. none;
  enters = λ l. yields [];
  exits = λ n. none;
  exit_timeout = none;
  calls = λ n. none;
}

abbrev rough : Hooks ℕ
rough = record fine { enters = λ l. if l == 2 then fails 98 else yields [] }

abbrev scope : Scope
scope = record { path = 47 ∷ []; method = 71 ∷ []; root_path = [] }

abbrev get : Request
get = record { kind = http; scope = scope; force_proxy = false }

abbrev upgrade : Request
upgrade = record { kind = websocket; scope = scope; force_proxy = false }

served : is_raise (call fine get server).1 ≡ false
unfolding call call_http install_in_process_dynamic_routes try_startup run_lifespan_startup
    collect_lifespans open_all enter_all run_startup_handlers call_all collect_startup_handlers
    asgi_try_http_mount try_mounts try_mount_routes
served = refl

settles_example : Plain (call rough upgrade (call fine get server).2) (call fine get server).2
settles_example = call-settles fine rough get upgrade server refl refl served

collected : collect_lifespans app ≡ (1 ∷ []) ++ 2 ∷ []
unfolding collect_lifespans
collected = refl

opened : open_all rough.opens ((1 ∷ []) ++ 2 ∷ []) ≡ none
unfolding open_all
opened = refl

quiet : All (λ h. fine.calls h ≡ none) (collect_startup_handlers app)
unfolding collect_startup_handlers
quiet = (refl, tt)

retry_example :
    ((call rough get server).1 ≡ raises (raised 98))
    × Starts (collect_startup_handlers app) (call fine get (call rough get server).2)
retry_example =
    call-retry rough fine get get server (1 ∷ []) [] 2 98 refl refl refl refl refl collected opened
      (refl, tt) refl quiet

-- The startup handler raises.
abbrev broken : Hooks ℕ
broken = record fine { calls = λ n. if n == 7 then some 97 else none }

entered : (run_lifespan_startup broken server.site).1 ≡ returned
unfolding run_lifespan_startup collect_lifespans open_all enter_all
entered = refl

handlers_of : collect_startup_handlers app ≡ [] ++ 7 ∷ []
unfolding collect_startup_handlers
handlers_of = refl

failed_example :
    ((call broken get server).0
      ≡ (run_lifespan_startup broken server.site).0 ++ map calling ([] ++ 7 ∷ []))
    × ((call broken get server).1 ≡ raises (raised 97))
    × Refuses fine get upgrade (call broken get server).2
failed_example =
    call-failed broken fine get get upgrade server [] [] 7 97 refl refl refl refl refl entered
      handlers_of tt refl
