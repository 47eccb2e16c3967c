-- ===== src/Door/Mount.antt =====
-- Sub-applications under a path prefix: `_asgi_try_http_mount` and the WebSocket branch of
-- `FastAPI.__call__` (python/fastapi_turbo/applications.py). Text is a list of code points; `/` is 47.
pub mod Prefix
pub mod First
pub mod Render
mod Tests
use fastapi_turbo.Prelude.{
  ℕ, Bool, true, false, not, ◌&&◌, ◌||◌, List, [], ◌∷◌, ◌++◌, Option, none, some, ltb, all, any,
  if◌then◌else◌, length, drop, same, startswith, rstrip_slash,
}

-- What is mounted: an `APIRouter`, another callable, or something that is neither.
pub data Target : Type 0 where
  api_router callable : ℕ → Target
  inert : Target

pub record Mount : Type 0 where
  pub path : List ℕ
  pub app : Target

-- A route of the application's own router: a Starlette `Mount`, with what `_mounted_route_asgi_app`
-- makes of it, or any other route.
pub data Shape : Type 0 where
  plain : Shape
  mount : Option Target → Shape

-- `methods` are upper-cased.
pub record Route : Type 0 where
  pub path : List ℕ
  pub methods : List (List ℕ)
  pub shape : Shape

pub record Scope : Type 0 where
  pub path : List ℕ
  pub method : List ℕ
  pub root_path : List ℕ

-- No mount takes the request; `encode("latin-1")` raises; or a mounted application is called.
pub data Outcome : Type 0 where
  unhandled encode_error : Outcome
  handled : Target → Scope → Outcome

abbrev pub is_mount : Shape → Bool
is_mount plain = false
is_mount (mount t) = true

abbrev pub empty : List ℕ → Bool
empty [] = true
empty (a ∷ s) = false

-- `path == prefix or path.startswith(prefix + "/")`.
unfoldable pub under : List ℕ → List ℕ → Bool
under path prefix = same path prefix || startswith path (prefix ++ 47 ∷ [])

abbrev pub or_slash : List ℕ → List ℕ
or_slash [] = 47 ∷ []
or_slash (a ∷ s) = a ∷ s

-- `path[len(prefix):] or "/"`.
unfoldable pub sub_path : List ℕ → List ℕ → List ℕ
sub_path path prefix = or_slash (drop (length prefix) path)

unfoldable pub latin_1 : List ℕ → Bool
latin_1 s = all (λ a. ltb a 256) s

unfoldable pub sub_scope : Scope → List ℕ → Scope
unfolding sub_path
sub_scope scope prefix = record scope {
  path = sub_path scope.path prefix;
  root_path = scope.root_path ++ prefix;
}

unfoldable pub hits : Scope → Route → Bool
hits scope r = same r.path scope.path && any (same scope.method) r.methods

-- A route of the application answers the very path, so that the mount is passed over.
unfoldable pub top_level_hit : Scope → List Route → Bool
unfolding hits
top_level_hit scope rs = any (hits scope) rs

unfoldable pub top_level_hit_beside : Scope → List Route → Bool
unfolding hits
top_level_hit_beside scope rs = any (λ r. not (is_mount r.shape) && hits scope r) rs

-- The call of what is mounted; `rest` is the rest of the loop.
abbrev pub dispatch : Target → Scope → Outcome → Outcome
dispatch (api_router n) scope rest = handled (api_router n) scope
dispatch (callable n) scope rest = handled (callable n) scope
dispatch inert scope rest = rest

abbrev pub enter : Target → Scope → List ℕ → Outcome → Outcome
enter t scope prefix rest =
    if latin_1 (sub_path scope.path prefix)
    then dispatch t (sub_scope scope prefix) rest
    else encode_error

-- The tests on the prefix that both loops begin with.
abbrev pub takes : Scope → List ℕ → Bool
takes scope prefix = not (empty prefix) && under scope.path prefix

-- The body of the loop over the routes.
abbrev pub try_route : List Route → Scope → List ℕ → Shape → Outcome → Outcome
try_route routes scope prefix plain rest = rest
try_route routes scope prefix (mount none) rest = rest
try_route routes scope prefix (mount (some t)) rest =
    if takes scope prefix && not (top_level_hit_beside scope routes)
    then enter t scope prefix rest
    else rest

unfoldable pub try_mount_routes : List Route → List Route → Scope → Outcome
try_mount_routes routes [] scope = unhandled
try_mount_routes routes (r ∷ rs) scope =
    try_route routes scope (rstrip_slash r.path) r.shape (try_mount_routes routes rs scope)

unfoldable pub try_mounts : List Mount → List Route → Scope → Outcome
try_mounts [] routes scope = try_mount_routes routes routes scope
try_mounts (m ∷ ms) routes scope =
    let rest = try_mounts ms routes scope in
    let prefix = rstrip_slash m.path in
    if takes scope prefix && not (top_level_hit scope routes)
    then enter m.app scope prefix rest
    else rest

-- `_asgi_try_http_mount`.
unfoldable pub asgi_try_http_mount : List Mount → List Route → Scope → Outcome
asgi_try_http_mount ms routes scope = try_mounts ms routes scope

-- The WebSocket loops call what is callable and no `APIRouter`.
abbrev pub enter_websocket : Target → Scope → List ℕ → Outcome → Outcome
enter_websocket (callable n) scope prefix rest = enter (callable n) scope prefix rest
enter_websocket (api_router n) scope prefix rest = rest
enter_websocket inert scope prefix rest = rest

abbrev pub try_websocket_route : Scope → List ℕ → Shape → Outcome → Outcome
try_websocket_route scope prefix plain rest = rest
try_websocket_route scope prefix (mount none) rest = rest
try_websocket_route scope prefix (mount (some t)) rest =
    if takes scope prefix then enter_websocket t scope prefix rest else rest

unfoldable pub websocket_mount_routes : List Route → Scope → Outcome
websocket_mount_routes [] scope = unhandled
websocket_mount_routes (r ∷ rs) scope =
    try_websocket_route scope (rstrip_slash r.path) r.shape (websocket_mount_routes rs scope)

unfoldable pub websocket_mounts : List Mount → List Route → Scope → Outcome
websocket_mounts [] routes scope = websocket_mount_routes routes scope
websocket_mounts (m ∷ ms) routes scope =
    let rest = websocket_mounts ms routes scope in
    let prefix = rstrip_slash m.path in
    if takes scope prefix then enter_websocket m.app scope prefix rest else rest
