-- ===== src/App/Tests.antt =====
-- The application on concrete inputs: a small tree of routers, exceptions and pending teardowns.
use mathlib.Core.List.{reverse}
use fastapi_turbo.Prelude.{
  ◌≢◌, ◌⊎◌, ℕ, suc, ◌+◌, ◌≤◌, ◌≡◌, refl, true, false, ◌==◌, if◌then◌else◌, [], ◌∷◌, ◌++◌, Option,
  none, some, length,
}
use fastapi_turbo.App.Lifecycle.{
  Router, router, Routers, App, StartupState, not_started, failed, raised, earlier_failure,
  run_startup_handlers, collect_startup_handlers, collect_shutdown_handlers,
}
use fastapi_turbo.App.Lifecycle as Lifecycle
use fastapi_turbo.App.Lifecycle.Order.{mirror_app, collect_shutdown_handlers-mirror}
use fastapi_turbo.App.Lifecycle.Cycle.{
  start, stop, startups, shutdowns, restarted, run_startup_handlers-fails, startups-le,
}
use fastapi_turbo.App.Exceptions.{
  handler_of, Key, cls, status, Exc, Answer, response, register, lookup_exception_handler,
  is_instance, wrap_with_exception_handlers, door_handle_dep_exception,
}
use fastapi_turbo.App.Exceptions as Exceptions
use fastapi_turbo.App.Exceptions.Lookup.{
  lookup_exception_handler-register, lookup_exception_handler-other,
}
use fastapi_turbo.App.Exceptions.Capture.{wrapped_as, wrap_with_exception_handlers-door}
use fastapi_turbo.App.Teardown.{
  Pending, stops, raises, on_worker, nowhere, suspends, run_pending_teardowns, stepped,
}
use fastapi_turbo.App.Teardown.Order.{
  errors, ended_by, run_pending_teardowns-all, run_pending_teardowns-thrown,
}

abbrev app : App ℕ
app = record {
  on_startup = 1 ∷ 2 ∷ [];
  on_shutdown = [];
  lifespan = none;
  root = router [] [] none Routers.nil;
  included = Routers.cons (router (3 ∷ []) [] none Routers.nil) Routers.nil;
  state = not_started;
  failure = none;
  dynamic_routes_installed = false;
}

mirror_example : collect_shutdown_handlers (mirror_app app) ≡ reverse (collect_startup_handlers app)
mirror_example = collect_shutdown_handlers-mirror app

-- Handler 2 raises.
abbrev second_raises : ℕ → Option ℕ
second_raises h = if h == 2 then some 9 else none

abbrev nothing_raises : ℕ → Option ℕ
nothing_raises h = none

handlers : collect_startup_handlers app ≡ (1 ∷ []) ++ 2 ∷ 3 ∷ []
unfolding collect_startup_handlers
handlers = refl

abbrev failed_run : Lifecycle.Run ℕ
failed_run = run_startup_handlers second_raises app

fails_example :
    (failed_run.0 ≡ (1 ∷ []) ++ 2 ∷ [])
    × (failed_run.1 ≡ raised 9)
    × (failed_run.2.state ≡ failed)
    × (run_startup_handlers nothing_raises (restarted (second_raises ∷ []) failed_run.2)
        ≡ ([], earlier_failure, failed_run.2))
fails_example =
    run_startup_handlers-fails second_raises nothing_raises (second_raises ∷ []) app (1 ∷ [])
      (3 ∷ []) 2 9 refl handlers (refl, tt) refl

startups_example :
    startups
      (start nothing_raises
        ∷ start nothing_raises
        ∷ stop nothing_raises
        ∷ start nothing_raises
        ∷ [])
      app
    ≤ shutdowns
        (start nothing_raises
          ∷ start nothing_raises
          ∷ stop nothing_raises
          ∷ start nothing_raises
          ∷ [])
        app
      + 1
startups_example =
    startups-le
      (start nothing_raises
        ∷ start nothing_raises
        ∷ stop nothing_raises
        ∷ start nothing_raises
        ∷ [])
      app refl

abbrev first : ℕ
first = 20

abbrev second : ℕ
second = 21

-- Class 5 with the base classes 3 and 0, and the status 404.
abbrev exc : Exc
exc = record { type = 5; parents = 3 ∷ 0 ∷ []; status_code = some 404 }

register_example :
    lookup_exception_handler exc
      (register (cls 3) second ((cls 0, first) ∷ (status 404, first) ∷ []))
    ≡ some second
unfolding handler_of
register_example =
    lookup_exception_handler-register exc (cls 5 ∷ []) (cls 0 ∷ status 404 ∷ []) (cls 3) second
      ((cls 0, first) ∷ (status 404, first) ∷ []) refl (refl, tt)

other_example :
    lookup_exception_handler exc (register (cls 4) second ((cls 0, first) ∷ []))
    ≡ lookup_exception_handler exc ((cls 0, first) ∷ [])
other_example =
    lookup_exception_handler-other exc (cls 4) second ((cls 0, first) ∷ [])
      (refl, (refl, (refl, (refl, tt))))

abbrev answer : ℕ → Exc → Answer ℕ
answer h e = response h

door_example :
    (wrap_with_exception_handlers answer 0 8
        ((cls 0, first) ∷ [])
        (Exceptions.raised exc)
        ((cls 0, first) ∷ [])
        []
      ≡ wrapped_as exc (door_handle_dep_exception answer 0 8 exc ((cls 0, first) ∷ []) []))
    × (((door_handle_dep_exception answer 0 8 exc ((cls 0, first) ∷ []) []).0 ≢ none)
        ⊎ ((door_handle_dep_exception answer 0 8 exc ((cls 0, first) ∷ []) []).1 ≡ []))
door_example =
    wrap_with_exception_handlers-door answer 0 8 exc [] ((cls 0, first) ∷ []) (cls 0, first) [] refl
      refl

-- A generator that raises what is thrown into it, and one that takes it.
abbrev reraises : Pending
reraises = record {
  place = on_worker;
  async = true;
  attempt = λ thrown. suspends;
  resume = λ thrown. elim thrown [ none ↦ stops | some x ↦ raises x ];
}

abbrev takes : Pending
takes = record {
  place = nowhere;
  async = true;
  attempt = λ thrown. suspends;
  resume = λ thrown. stops;
}

abbrev breaks : Pending
breaks = record {
  place = nowhere;
  async = false;
  attempt = λ thrown. suspends;
  resume = λ thrown. raises 6;
}

all_example : run_pending_teardowns false none (reraises ∷ breaks ∷ takes ∷ []) ≡ record {
  resumed = length (reraises ∷ breaks ∷ takes ∷ []);
  collected = errors (reraises ∷ breaks ∷ takes ∷ []);
  failure = none;
}
all_example = run_pending_teardowns-all (reraises ∷ breaks ∷ takes ∷ [])

thrown_example :
    run_pending_teardowns true (some 4) ((reraises ∷ []) ++ takes ∷ breaks ∷ []) ≡ record {
      resumed = suc (length (reraises ∷ []));
      collected = [];
      failure = some (ended_by (stepped (some 4) takes));
    }
unfolding stepped
thrown_example =
    run_pending_teardowns-thrown true 4 (reraises ∷ []) (breaks ∷ []) takes (refl, tt) (λ e. cc)
