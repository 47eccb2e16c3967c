-- ===== src/App/Lifespan/Tests.antt =====
-- A session of an application with two lifespans of its routers and one of its own.
use mathlib.Core.List.{reverse}
use fastapi_turbo.Prelude.{
  ℕ, ◌≡◌, refl, false, ◌==◌, if◌then◌else◌, List, [], ◌∷◌, ◌++◌, map, Option, none, some, take,
}
use fastapi_turbo.App.Lifecycle.{
  App, router, Routers, not_started, returned, raised, collect_lifespans, run_startup_handlers,
  call_all, collect_startup_handlers,
}
use fastapi_turbo.App.Lifespan.{
  yields, fails, Hooks, Session, Site, Message, startup, shutdown, other, startup_complete,
  startup_failed, shutdown_failed, entering, exiting, calling, asgi_lifespan, enter_all, exit_all,
  run_lifespan_startup, run_lifespan_shutdown, earlier, open_all, outcome, try_startup,
  try_shutdown,
}
use fastapi_turbo.App.Lifespan.Exits.{first_raised, run_lifespan_shutdown-exits}
use fastapi_turbo.App.Lifespan.Merge.{get_item, last_given, run_lifespan_startup-merges}
use fastapi_turbo.App.Lifespan.Protocol.{Allowed, kinds, asgi_lifespan-Allowed}
use fastapi_turbo.App.Lifespan.Opened.{entered, exited}
use fastapi_turbo.App.Lifespan.Balance.{
  shut, Restartable, asgi_lifespan-balanced, asgi_lifespan-Restartable,
}
use fastapi_turbo.App.Lifespan.Retry.{asgi_lifespan-retry}
use fastapi_turbo.App.Lifespan.Timeout.{asgi_lifespan-times_out}

abbrev app : App ℕ
app = record {
  on_startup = 7 ∷ [];
  on_shutdown = 8 ∷ [];
  lifespan = some 3;
  root = router [] [] none (Routers.cons (router [] [] (some 1) Routers.nil) Routers.nil);
  included = Routers.cons (router [] [] (some 2) Routers.nil) Routers.nil;
  state = not_started;
  failure = none;
  dynamic_routes_installed = false;
}

abbrev site : Site ℕ
site = record { app = app; lifespan_cms = []; app_state = []; state = (5, 50) ∷ [] }

abbrev fine : ℕ → Option ℕ
fine n = none

-- Every lifespan gives key 4 its own number.
abbrev hooks : Hooks ℕ
hooks = record {
  opens = fine;
  enters = λ l. yields ((4, l) ∷ []);
  exits = fine;
  exit_timeout = none;
  calls = fine;
}

-- Leaving lifespan 2 raises.
abbrev rough : Hooks ℕ
rough = record hooks { exits = λ l. if l == 2 then some 99 else none }

-- Entering lifespan 2 raises.
abbrev stuck : Hooks ℕ
stuck = record hooks { enters = λ l. if l == 2 then fails 98 else yields [] }

abbrev messages : List (Message × Hooks ℕ)
messages = (other, hooks) ∷ (startup, hooks) ∷ (startup, hooks) ∷ (shutdown, rough) ∷ []

replies_of :
    (asgi_lifespan messages site).replies
    ≡ startup_complete ∷ startup_complete ∷ shutdown_failed (raised 99) ∷ []
unfolding asgi_lifespan try_startup try_shutdown run_lifespan_startup run_lifespan_shutdown
    collect_lifespans open_all enter_all run_startup_handlers call_all collect_startup_handlers
    exit_all
replies_of = refl

events_of :
    (asgi_lifespan messages site).events
    ≡ entering 1 ∷ entering 2 ∷ entering 3 ∷ calling 7 ∷ exiting 3 ∷ exiting 2 ∷ exiting 1 ∷ []
unfolding asgi_lifespan try_startup try_shutdown run_lifespan_startup run_lifespan_shutdown
    collect_lifespans open_all enter_all run_startup_handlers call_all collect_startup_handlers
    exit_all
events_of = refl

balanced_example : exited (asgi_lifespan messages site).events ≡ (
    if shut (asgi_lifespan messages site).replies
    then reverse (entered (asgi_lifespan messages site).events)
    else [])
balanced_example = asgi_lifespan-balanced messages site refl (refl, (refl, (refl, (refl, tt))))

allowed_example : Allowed (kinds messages) (asgi_lifespan messages site).replies
allowed_example = asgi_lifespan-Allowed messages site

shutdown_example : Restartable (asgi_lifespan messages site).site
unfolding asgi_lifespan try_startup try_shutdown run_lifespan_startup run_lifespan_shutdown
    collect_lifespans open_all enter_all run_startup_handlers call_all collect_startup_handlers
    exit_all
shutdown_example = asgi_lifespan-Restartable messages site (refl, (refl, (refl, (refl, tt)))) refl

abbrev held : Site ℕ
held = record site { lifespan_cms = 1 ∷ 2 ∷ 3 ∷ [] }

exits_example : run_lifespan_shutdown rough held ≡ (
  map exiting (reverse held.lifespan_cms),
  outcome (first_raised rough.exits (reverse held.lifespan_cms)),
  record held { lifespan_cms = [] },
)
exits_example = run_lifespan_shutdown-exits rough held refl

-- The time elapses while the second lifespan is left.
abbrev slow : Hooks ℕ
slow = record hooks { exit_timeout = some (2, 97) }

abbrev cut : Session ℕ
cut = asgi_lifespan ((shutdown, slow) ∷ []) held

times_out_example :
    (cut.replies ≡ shutdown_failed (raised 97) ∷ [])
    × (cut.events ≡ take 2 (map exiting (reverse (1 ∷ 2 ∷ 3 ∷ []))))
    × (cut.site.app.state ≡ not_started)
    × (cut.site.lifespan_cms ≡ 1 ∷ 2 ∷ 3 ∷ [])
    × (run_lifespan_startup hooks cut.site ≡ ([], returned, cut.site))
times_out_example = asgi_lifespan-times_out slow hooks held 1 (2 ∷ 3 ∷ []) 2 97 refl refl

collected : collect_lifespans app ≡ 1 ∷ 2 ∷ 3 ∷ []
unfolding collect_lifespans
collected = refl

starts : (run_lifespan_startup hooks site).1 ≡ returned
unfolding run_lifespan_startup collect_lifespans open_all enter_all
starts = refl

merges_example :
    ((run_lifespan_startup hooks site).0 ≡ map entering (1 ∷ 2 ∷ 3 ∷ []))
    × ((run_lifespan_startup hooks site).2.lifespan_cms ≡ 1 ∷ 2 ∷ 3 ∷ [])
    × (get_item 4 (run_lifespan_startup hooks site).2.app_state
        ≡ last_given 4 hooks.enters (1 ∷ 2 ∷ 3 ∷ []))
    × (get_item 4 (run_lifespan_startup hooks site).2.state
        ≡ earlier (last_given 4 hooks.enters (1 ∷ 2 ∷ 3 ∷ [])) (get_item 4 site.state))
merges_example = run_lifespan_startup-merges hooks site 1 (2 ∷ 3 ∷ []) 4 refl collected starts

opened : open_all stuck.opens (1 ∷ 2 ∷ 3 ∷ []) ≡ none
unfolding open_all
opened = refl

retry_example :
    ((asgi_lifespan ((startup, stuck) ∷ []) site).replies ≡ startup_failed (raised 98) ∷ [])
    × ((asgi_lifespan ((startup, stuck) ∷ []) site).events ≡ map entering ((1 ∷ []) ++ 2 ∷ []))
    × ((asgi_lifespan ((startup, stuck) ∷ []) site).site.lifespan_cms ≡ (1 ∷ []) ++ 2 ∷ 3 ∷ [])
    × (run_lifespan_startup hooks (asgi_lifespan ((startup, stuck) ∷ []) site).site
        ≡ ([], returned, (asgi_lifespan ((startup, stuck) ∷ []) site).site))
retry_example =
    asgi_lifespan-retry stuck hooks site (1 ∷ []) (3 ∷ []) 2 98 refl collected opened (refl, tt)
      refl
