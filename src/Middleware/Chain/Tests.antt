-- ===== src/Middleware/Chain/Tests.antt =====
-- Chains of one or two middlewares around small endpoints.
use mathlib.Core.List.{reverse}
use fastapi_turbo.Background.{Task, finished, raised}
use fastapi_turbo.Background.Drain.{event, generation}
use fastapi_turbo.App.Teardown.{Pending, nowhere, suspends, stops}
use fastapi_turbo.Middleware.Chain.Finally.{
  task, resumed_from, close_request, close_request-drains, close_request-raises,
}
use fastapi_turbo.Prelude.{
  List, false, suc, ◌+◌, map, length, ℕ, ◌≡◌, refl, true, [], ◌∷◌, ◌++◌, Option, none, some,
}
use fastapi_turbo.Middleware.Chain.{
  Out, ok, unawaited, fails, user, middleware_suspended, Body, returns, raises, Endpoint, Script,
  ends, next, Middleware, normalised, send_endpoint, run_endpoint, run_middleware, wrapped_sync,
}
use fastapi_turbo.Middleware.Chain.Onion.{
  Settled, good, coroutine, bad, embed, WaitFree, awaited, wrapped_sync-awaited,
}
use fastapi_turbo.Middleware.Chain.Layers.{around_all, wrapped_sync-layers}
use fastapi_turbo.Middleware.Chain.Fallback.{
  wrapped_sync-swallows, wrapped_sync-twice, wrapped_sync-private,
}

abbrev convert : ℕ → Option ℕ
convert e = some 404

-- An endpoint that does 5 and raises 3, one that does 5 and answers 200, and one that waits after 5.
abbrev missing : Endpoint ℕ ℕ
missing = record { body = Body.acts 5 (raises 3); private = none }

abbrev answers : Endpoint ℕ ℕ
answers = record { body = Body.acts 5 (returns 200); private = none }

abbrev slow : Endpoint ℕ ℕ
slow = record { body = Body.acts 5 (Body.awaits (Body.acts 6 (returns 200))); private = none }

abbrev strict : Endpoint ℕ ℕ
strict = record { body = Body.acts 5 (returns 200); private = some 9 }

layers_example :
    wrapped_sync convert (around_all ((1, 2) ∷ (3, 4) ∷ [])) missing
    ≡ (reverse (1 ∷ 3 ∷ []) ++ ((5 ∷ []) ++ 2 ∷ 4 ∷ []), ok 404)
unfolding run_endpoint
layers_example = wrapped_sync-layers convert ((1, 2) ∷ (3, 4) ∷ []) missing tt

-- What a middleware makes of the outcome: 500 for an exception, and the response else.
abbrev catch_all : Out ℕ ℕ → Script ℕ ℕ
catch_all (ok r) = ends (ok r)
catch_all unawaited = ends unawaited
catch_all (fails e) = ends (ok 500)

abbrev catching : Middleware ℕ ℕ
catching = record { is_function = true; script = next catch_all }

catch_all-WaitFree : (o : Settled ℕ ℕ) → WaitFree (catch_all (embed o))
catch_all-WaitFree (good r) = (good r, refl)
catch_all-WaitFree coroutine = (coroutine, refl)
catch_all-WaitFree (bad e) = (good 500, refl)

awaited_example :
    wrapped_sync convert (catching ∷ []) missing
    ≡ awaited (reverse (catching ∷ [])) (normalised convert (run_endpoint missing.body))
awaited_example = wrapped_sync-awaited convert (catching ∷ []) missing (catch_all-WaitFree, tt) tt

waits_at_once : send_endpoint slow.body ≡ (5 ∷ [], fails middleware_suspended)
unfolding send_endpoint
waits_at_once = refl

swallows_example : wrapped_sync convert (catching ∷ []) slow ≡ (5 ∷ [], ok 500)
swallows_example =
    wrapped_sync-swallows convert catching slow catch_all (5 ∷ []) 500 waits_at_once refl refl

-- It waits after the rest of the chain, and passes the outcome on.
abbrev logs_late : Middleware ℕ ℕ
logs_late = record {
  is_function = true;
  script = next (λ o. Script.awaits (Script.acts 7 (ends o)));
}

sent_once : send_endpoint answers.body ≡ (5 ∷ [], ok 200)
unfolding send_endpoint
sent_once = refl

run_once : run_endpoint answers.body ≡ (5 ∷ [], ok 200)
unfolding run_endpoint
run_once = refl

twice_example :
    wrapped_sync convert (logs_late ∷ []) answers ≡ ((5 ∷ []) ++ ((5 ∷ []) ++ 7 ∷ []), ok 200)
unfolding run_middleware
twice_example =
    wrapped_sync-twice convert logs_late answers (λ o. Script.awaits (Script.acts 7 (ends o)))
      (Script.acts 7 (ends (ok 200))) (5 ∷ []) 200 sent_once run_once refl refl refl refl

abbrev looks_up : Middleware ℕ ℕ
looks_up = record { is_function = true; script = Script.awaits (next (λ o. ends o)) }

private_example : wrapped_sync convert (looks_up ∷ []) strict ≡ ([], fails (user 9))
unfolding run_middleware
private_example = wrapped_sync-private convert looks_up strict (λ o. ends o) 9 refl refl refl

abbrev tasks : List Task
tasks = record { func = 1; is_async = false } ∷ record { func = 2; is_async = true } ∷ []

abbrev pending : Pending
pending = record {
  place = nowhere;
  async = false;
  attempt = λ thrown. suspends;
  resume = λ thrown. stops;
}

abbrev quiet : ℕ → Option ℕ
quiet f = none

abbrev rough : ℕ → Option ℕ
rough f = some 9

abbrev adds : ℕ → List Task
adds f = []

deferred_example :
    close_request quiet adds
      (length tasks + (length (generation quiet adds tasks) + 0))
      tasks
      (pending ∷ [])
    ≡ record {
      acts =
          map task (map event tasks ++ map event (generation quiet adds tasks))
          ++ resumed_from 0 (length (pending ∷ []));
      ended = finished;
    }
deferred_example =
    close_request-drains quiet adds (record { func = 1; is_async = false })
      (record { func = 2; is_async = true } ∷ []) pending [] (refl, (refl, tt)) tt refl

lost_example :
    close_request rough adds (0 + suc 3) tasks (pending ∷ [])
    ≡ record { acts = task (event (record { func = 1; is_async = false })) ∷ []; ended = raised 9 }
lost_example =
    close_request-raises rough adds (record { func = 1; is_async = false })
      (record { func = 2; is_async = true } ∷ []) pending [] 9 3 refl refl
