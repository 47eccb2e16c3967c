-- ===== src/Door/Mount/Prefix.antt =====
-- What a mounted application sees of the path: the prefix moves to the root path, and nothing is lost.
use mathlib.Core.Bool.{false≢true}
use mathlib.Core.Path.{subst}
use fastapi_turbo.Prelude.{
  ℕ, ◌≡◌, refl, sym, ap, ◌∙◌, Bool, true, false, not, ◌&&◌, ◌⊎◌, inl, inr, Bool-cases, List, [],
  ◌∷◌, ◌++◌, append_assoc, append-nil, none, some, if◌then◌else◌, length, drop, drop-append, same,
  same-eq, startswith, startswith-split, rstrip_slash, arith,
}
use fastapi_turbo.Door.Mount.{
  Target, api_router, callable, inert, Mount, Shape, plain, mount, Route, Scope, Outcome, unhandled,
  encode_error, handled, under, or_slash, sub_path, latin_1, sub_scope, top_level_hit,
  top_level_hit_beside, dispatch, enter, takes, try_route, try_websocket_route, try_mount_routes,
  try_mounts, asgi_try_http_mount, enter_websocket, websocket_mount_routes, websocket_mounts,
}

-- The same place: the root path and the path spell the same text, or the path was the whole of the
-- prefix and is now `/`.
abbrev pub Within : Scope → Scope → Type 0
Within scope inner =
    (startswith inner.path (47 ∷ []) ≡ true)
    × (inner.method ≡ scope.method)
    × ((inner.root_path ++ inner.path ≡ scope.root_path ++ scope.path)
        ⊎ ((inner.path ≡ 47 ∷ []) × (inner.root_path ≡ scope.root_path ++ scope.path)))

pub under-split :
    (path prefix : List ℕ)
    → under path prefix ≡ true
    → (path ≡ prefix) ⊎ ((rest : List ℕ) × (path ≡ prefix ++ 47 ∷ rest))
unfolding under
under-split path prefix u = elim (Bool-cases (same path prefix)) [
  | inl y ↦ inl (same-eq path prefix y)
  | inr n ↦
      let s = startswith-split path (prefix ++ 47 ∷ []) (ground arith) in
      let rest = drop (length (prefix ++ 47 ∷ [])) path in
      inr (rest, s ∙ append_assoc prefix (47 ∷ []) rest)
]

sub_path-below :
    (path prefix rest : List ℕ) → path ≡ prefix ++ 47 ∷ rest → sub_path path prefix ≡ 47 ∷ rest
unfolding sub_path
sub_path-below path prefix rest e =
    ap (λ p. or_slash (drop (length prefix) p)) e ∙ ap or_slash (drop-append prefix (47 ∷ rest))

sub_path-whole : (path prefix : List ℕ) → path ≡ prefix → sub_path path prefix ≡ 47 ∷ []
unfolding sub_path
sub_path-whole path prefix e =
    ap (λ p. or_slash (drop (length prefix) p)) (e ∙ sym (append-nil prefix))
    ∙ ap or_slash (drop-append prefix [])

slash-first : (rest : List ℕ) → startswith (47 ∷ rest) (47 ∷ []) ≡ true
unfolding startswith
slash-first rest = refl

sub_scope-Within :
    (scope : Scope) (prefix : List ℕ)
    → under scope.path prefix ≡ true
    → Within scope (sub_scope scope prefix)
unfolding sub_scope
sub_scope-Within scope prefix u = elim (under-split scope.path prefix u) [
  | inl e ↦
      let w = sub_path-whole scope.path prefix e in
      (
        ap (λ s. startswith s (47 ∷ [])) w ∙ slash-first [],
        refl,
        inr (w, ap (λ p. scope.root_path ++ p) (sym e)),
      )
  | inr (rest, e) ↦
      let b = sub_path-below scope.path prefix rest e in
      (
        ap (λ s. startswith s (47 ∷ [])) b ∙ slash-first rest,
        refl,
        inl (
            ap (λ s. scope.root_path ++ prefix ++ s) b
            ∙ append_assoc scope.root_path prefix (47 ∷ rest)
            ∙ ap (λ p. scope.root_path ++ p) (sym e)),
      )
]

-- What holds of an outcome that calls an application.
abbrev Placed : Scope → Outcome → Type 0
Placed scope unhandled = Unit
Placed scope encode_error = Unit
Placed scope (handled t inner) = Within scope inner

enter-Placed :
    (t : Target) (scope : Scope) (prefix : List ℕ) (rest : Outcome)
    → under scope.path prefix ≡ true
    → Placed scope rest
    → Placed scope (enter t scope prefix rest)
enter-Placed t scope prefix rest u h = by_code (latin_1 (sub_path scope.path prefix)) t
  where
    by_code :
        (b : Bool) (t : Target)
        → Placed scope (if b then dispatch t (sub_scope scope prefix) rest else encode_error)
    by_code true (api_router n) = sub_scope-Within scope prefix u
    by_code true (callable n) = sub_scope-Within scope prefix u
    by_code true inert = h
    by_code false t = tt

enter_websocket-Placed :
    (t : Target) (scope : Scope) (prefix : List ℕ) (rest : Outcome)
    → under scope.path prefix ≡ true
    → Placed scope rest
    → Placed scope (enter_websocket t scope prefix rest)
enter_websocket-Placed (callable n) scope prefix rest u h =
    enter-Placed (callable n) scope prefix rest u h
enter_websocket-Placed (api_router n) scope prefix rest u h = h
enter_websocket-Placed inert scope prefix rest u h = h

if-Placed :
    (scope : Scope) (b : Bool) (o rest : Outcome)
    → (b ≡ true → Placed scope o)
    → Placed scope rest
    → Placed scope (if b then o else rest)
if-Placed scope true o rest h k = h refl
if-Placed scope false o rest h k = k

takes-under :
    (scope : Scope) (prefix : List ℕ) → takes scope prefix ≡ true → under scope.path prefix ≡ true
takes-under scope [] e = absurd (false≢true e)
takes-under scope (a ∷ prefix) e = e

and_first : (a b : Bool) → (a && b) ≡ true → a ≡ true
and_first true b e = refl
and_first false b e = e

step-Placed :
    (t : Target) (scope : Scope) (prefix : List ℕ) (free : Bool) (rest : Outcome)
    → Placed scope rest
    → Placed scope (if takes scope prefix && free then enter t scope prefix rest else rest)
step-Placed t scope prefix free rest k =
    if-Placed scope (takes scope prefix && free) (enter t scope prefix rest) rest
      (λ b.
        enter-Placed t scope prefix rest
          (takes-under scope prefix (and_first (takes scope prefix) free b)) k)
      k

step_websocket-Placed :
    (t : Target) (scope : Scope) (prefix : List ℕ) (rest : Outcome)
    → Placed scope rest
    → Placed scope (if takes scope prefix then enter_websocket t scope prefix rest else rest)
step_websocket-Placed t scope prefix rest k =
    if-Placed scope (takes scope prefix) (enter_websocket t scope prefix rest) rest
      (λ b. enter_websocket-Placed t scope prefix rest (takes-under scope prefix b) k) k

try_route-Placed :
    (routes : List Route) (scope : Scope) (prefix : List ℕ) (shape : Shape) (rest : Outcome)
    → Placed scope rest
    → Placed scope (try_route routes scope prefix shape rest)
try_route-Placed routes scope prefix plain rest k = k
try_route-Placed routes scope prefix (mount none) rest k = k
try_route-Placed routes scope prefix (mount (some t)) rest k =
    step-Placed t scope prefix (not (top_level_hit_beside scope routes)) rest k

try_mount_routes-Placed :
    (routes rs : List Route) (scope : Scope) → Placed scope (try_mount_routes routes rs scope)
unfolding try_mount_routes
try_mount_routes-Placed routes [] scope = tt
try_mount_routes-Placed routes (r ∷ rs) scope =
    try_route-Placed routes scope (rstrip_slash r.path) r.shape (try_mount_routes routes rs scope)
      (try_mount_routes-Placed routes rs scope)

try_mounts-Placed :
    (ms : List Mount) (routes : List Route) (scope : Scope)
    → Placed scope (try_mounts ms routes scope)
unfolding try_mounts
try_mounts-Placed [] routes scope = try_mount_routes-Placed routes routes scope
try_mounts-Placed (m ∷ ms) routes scope =
    step-Placed m.app scope (rstrip_slash m.path) (not (top_level_hit scope routes))
      (try_mounts ms routes scope) (try_mounts-Placed ms routes scope)

try_websocket_route-Placed :
    (scope : Scope) (prefix : List ℕ) (shape : Shape) (rest : Outcome)
    → Placed scope rest
    → Placed scope (try_websocket_route scope prefix shape rest)
try_websocket_route-Placed scope prefix plain rest k = k
try_websocket_route-Placed scope prefix (mount none) rest k = k
try_websocket_route-Placed scope prefix (mount (some t)) rest k =
    step_websocket-Placed t scope prefix rest k

websocket_mount_routes-Placed :
    (rs : List Route) (scope : Scope) → Placed scope (websocket_mount_routes rs scope)
unfolding websocket_mount_routes
websocket_mount_routes-Placed [] scope = tt
websocket_mount_routes-Placed (r ∷ rs) scope =
    try_websocket_route-Placed scope (rstrip_slash r.path) r.shape (websocket_mount_routes rs scope)
      (websocket_mount_routes-Placed rs scope)

websocket_mounts-Placed :
    (ms : List Mount) (routes : List Route) (scope : Scope)
    → Placed scope (websocket_mounts ms routes scope)
unfolding websocket_mounts
websocket_mounts-Placed [] routes scope = websocket_mount_routes-Placed routes scope
websocket_mounts-Placed (m ∷ ms) routes scope =
    step_websocket-Placed m.app scope (rstrip_slash m.path) (websocket_mounts ms routes scope)
      (websocket_mounts-Placed ms routes scope)

-- Whichever mounted application a request is handed to, over HTTP, it sees the same method and a path
-- that begins with `/`, and its root path followed by its path spells the root path and the path of
-- the request; unless the request's path was the mount's prefix itself, which becomes the root path's
-- end, and the path is `/`.
pub asgi_try_http_mount-Within :
    (ms : List Mount) (routes : List Route) (scope inner : Scope) (t : Target)
    → asgi_try_http_mount ms routes scope ≡ handled t inner
    → Within scope inner
unfolding asgi_try_http_mount
asgi_try_http_mount-Within ms routes scope inner t e =
    subst (λ o. Placed scope o) e (try_mounts-Placed ms routes scope)

-- The same for a WebSocket.
pub websocket_mounts-Within :
    (ms : List Mount) (routes : List Route) (scope inner : Scope) (t : Target)
    → websocket_mounts ms routes scope ≡ handled t inner
    → Within scope inner
websocket_mounts-Within ms routes scope inner t e =
    subst (λ o. Placed scope o) e (websocket_mounts-Placed ms routes scope)
