-- ===== src/App/Lifespan/Protocol.antt =====
-- What the ASGI server sees of `_asgi_lifespan`: the replies, against the protocol it may rely on.
use fastapi_turbo.Prelude.{List, [], ◌∷◌}
use fastapi_turbo.App.Lifecycle.{Ended, returned, earlier_failure, reentrant, raised}
use fastapi_turbo.App.Lifespan.{
  Hooks, Site, Run, Message, startup, shutdown, other, Reply, startup_complete, startup_failed,
  shutdown_complete, shutdown_failed, Session, answer_startup, answer_shutdown, try_startup,
  try_shutdown, asgi_lifespan,
}

-- The replies that the lifespan protocol allows to these messages: one for each, of its own kind and
-- in turn; a failure, and the answer to a shutdown, are the last.
pub data Allowed {Exc : Type 0} : List Message → List (Reply Exc) → Type 0 where
  waiting : Allowed [] []
  ignored : {ms : List Message} {rs : List (Reply Exc)} → Allowed ms rs → Allowed (other ∷ ms) rs
  completed :
      {ms : List Message} {rs : List (Reply Exc)}
      → Allowed ms rs
      → Allowed (startup ∷ ms) (startup_complete ∷ rs)
  refused : {ms : List Message} (e : Ended Exc) → Allowed (startup ∷ ms) (startup_failed e ∷ [])
  ended : {ms : List Message} → Allowed (shutdown ∷ ms) (shutdown_complete ∷ [])
  broken : {ms : List Message} (e : Ended Exc) → Allowed (shutdown ∷ ms) (shutdown_failed e ∷ [])

module _ {Exc : Type 0} where
  abbrev pub kinds : List (Message × Hooks Exc) → List Message
  kinds [] = []
  kinds ((m, hooks) ∷ ms) = m ∷ kinds ms

  answer_startup-Allowed :
      (ms : List Message) (r : Run Exc) (rest : Site Exc → Session Exc)
      → ((site : Site Exc) → Allowed ms (rest site).replies)
      → Allowed (startup ∷ ms) (answer_startup r rest).replies
  answer_startup-Allowed ms (ran, returned, site) rest h = completed (h site)
  answer_startup-Allowed ms (ran, raised e, site) rest h = refused (raised e)
  answer_startup-Allowed ms (ran, earlier_failure, site) rest h = refused earlier_failure
  answer_startup-Allowed ms (ran, reentrant, site) rest h = refused reentrant

  answer_shutdown-Allowed :
      (ms : List Message) (r : Run Exc) → Allowed (shutdown ∷ ms) (answer_shutdown r).replies
  answer_shutdown-Allowed ms (ran, returned, site) = ended
  answer_shutdown-Allowed ms (ran, raised e, site) = broken (raised e)
  answer_shutdown-Allowed ms (ran, earlier_failure, site) = broken earlier_failure
  answer_shutdown-Allowed ms (ran, reentrant, site) = broken reentrant

  -- Whatever the application's state and whatever its code does at each message, the replies to any
  -- sequence of messages are among those the lifespan protocol allows.
  pub asgi_lifespan-Allowed :
      (ms : List (Message × Hooks Exc)) (site : Site Exc)
      → Allowed (kinds ms) (asgi_lifespan ms site).replies
  unfolding asgi_lifespan
  asgi_lifespan-Allowed [] site = waiting
  asgi_lifespan-Allowed ((startup, hooks) ∷ ms) site =
      answer_startup-Allowed (kinds ms) (try_startup hooks site) (asgi_lifespan ms)
        (asgi_lifespan-Allowed ms)
  asgi_lifespan-Allowed ((shutdown, hooks) ∷ ms) site =
      answer_shutdown-Allowed (kinds ms) (try_shutdown hooks site)
  asgi_lifespan-Allowed ((other, hooks) ∷ ms) site = ignored (asgi_lifespan-Allowed ms site)
