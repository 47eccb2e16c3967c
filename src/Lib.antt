-- ===== src/Lib.antt =====
-- fastapi-turbo: a drop-in for FastAPI whose server is written in Rust and whose Python part
-- keeps the interface of FastAPI and Starlette. This library models the Python part's own logic,
-- and proves what its components promise. Paths are from the repository's root.
--
-- The components:
--   Redis: python/fastapi_turbo/contrib_redis.py. Redis/Reader.antt is `_PyReader` (`parse` is
--   `_parse`, `gets` is `gets`), Redis/Encode.antt `_encode_command` and the bytes of `get` and
--   `set`, Redis/Mux.antt the state of `RedisMux` and one function for each of its methods and of
--   the protocol's callbacks; `connect` is split where it awaits. Redis/Wire.antt is the RESP2
--   protocol, from which nothing of the program is taken; Redis/Header.antt,
--   Redis/RoundTrip.antt, Redis/Mux/Order.antt and Redis/Mux/Demux.antt hold the theorems.
--   WebSocket: python/fastapi_turbo/websockets.py. WebSocket/Socket.antt has the state of the
--   class `WebSocket`, WebSocket.antt the accept, the close and the sends, WebSocket/Receive.antt
--   the receives, WebSocket/CloseInfo.antt `_extract_close_info_from_error`;
--   WebSocket/Protocol.antt is the ASGI protocol. `flush` is the end of `_asgi_ws_door`
--   (python/fastapi_turbo/applications.py), the component's client.
--   Worker: python/fastapi_turbo/_async_worker.py, the thread with the one event loop, to which
--   the application hands its coroutines. Worker/Init.antt and Worker/Submit.antt are step
--   relations whose steps are what one thread does between two points at which another may run;
--   Worker/Pool.antt and Worker/Timeout.antt are functions.
--   App: python/fastapi_turbo/applications.py. App/Lifecycle.antt is `_run_startup_handlers`,
--   `_run_shutdown_handlers` and the walks over the routers, App/Exceptions.antt the exception
--   handlers, App/Teardown.antt `_run_pending_teardowns`, App/Routes.antt `_collect_all_routes`
--   for plain routes.
--   App/Lifespan.antt is `_run_lifespan_startup`, `_run_lifespan_shutdown`, their `_async_` twins
--   and `_asgi_lifespan`, which runs the lifespans around those handlers; the time that the
--   worker gives to a shutdown may elapse.
--   Door: the ASGI entry points of python/fastapi_turbo/applications.py. Door/Call.antt is
--   `__call__`, with the startup that the first HTTP request runs; Door/Mount.antt is `mount`,
--   `_asgi_try_http_mount` and its WebSocket counterpart, Door/Mount/Render.antt
--   `_asgi_call_mounted`; Door/Oneshot.antt is `_asgi_oneshot_http` around the Rust engine;
--   Door/Socket.antt is the choice of the route in `_ws_door_table` and `_asgi_ws_door`.
--   Stream: python/fastapi_turbo/responses.py, `_step_anext` and `_drive_stream`, which run on
--   the worker's loop.
--   Middleware: Middleware/TrustedHost.antt is python/fastapi_turbo/middleware/trustedhost.py and
--   `_match_host` of `FastAPI.host`, Middleware/Auth.antt python/fastapi_turbo/authentication.py,
--   Middleware/Chain.antt `_wrap_with_http_middlewares` and its fallback in
--   python/fastapi_turbo/_middleware_wrap.py, with the tasks and teardowns that follow it in
--   Middleware/Chain/Finally.antt, and Middleware/Shim.antt `_make_asgi_middleware_shim` of the
--   same file; Middleware/Registry.antt is `add_middleware` and `_asgi_oneshot_http_with_mw` of
--   python/fastapi_turbo/applications.py, and Middleware/Session.antt the signed cookie of
--   python/fastapi_turbo/middleware/sessions.py.
--   Background: python/fastapi_turbo/background.py, `BackgroundTasks.run_sync`, which the server
--   calls behind a response, and which hands coroutines to the worker; Background/Response.antt is
--   `_run_background_obj`, for the background of a response.
--   Prelude: names passed on, lists, integers and decimal numerals over the native numbers. The
--   modules called Tests apply the theorems to concrete inputs.
--
-- Conventions. Numbers are unbounded, as in Python. Bytes are lists of numbers; text is a String
-- where it is only passed on, and a list of code points where it is taken apart. An exception is
-- a value, and state is passed explicitly. What a user's handler, generator, backend or coroutine
-- does, and what the interpreter's json, UTF-8 and float conversions compute, is a parameter, and
-- so is the order of events.
--
-- Fuel and bounds. `parse` recurses on the nesting that the interpreter's stack allows, and a
-- reply that nests less deeply is read in full; `drain` runs on a number of rounds, of which one
-- more than there are replies is enough; so it is with `iter_text` and the messages, and with
-- `run_sync` and the tasks, of which there may be more than the queue began with.
-- `run_background_obj` is bounded by how deep lists stand in lists, as by Python's stack. All else is
-- structural: a coroutine is the tree of what it does, and a driver consumes the list of the
-- answers it gets.
--
-- Not modelled: the Rust core and the server, the hiredis parser, mounted applications and
-- WebSocket routes in the collection of routes, OpenAPI, requests, the other middleware and
-- the report to Sentry. Timing enters only as the choice of the next step.
pub mod App
pub mod Background
pub mod Door
pub mod Middleware
pub mod Prelude
pub mod Redis
pub mod Stream
pub mod WebSocket
pub mod Worker
