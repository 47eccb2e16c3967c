-- ===== src/Door/Mount/First.antt =====
-- Which of the mounts takes a request: the first that covers the path, unless a route of the
-- application answers the very path.
use mathlib.Core.Bool.{false≢true}
use fastapi_turbo.Prelude.{
  ℕ, ◌≡◌, refl, sym, ap, ◌∙◌, Bool, true, false, not, ◌&&◌, ◌↔◌, ◌⊎◌, inl, inr, List, [], ◌∷◌, ◌++◌,
  append_assoc, none, some, if◌then◌else◌, any, All, same_refl, startswith, startswith-append,
  rstrip_slash, arith,
}
use fastapi_turbo.Door.Mount.{
  callable, Mount, Shape, plain, mount, Route, Scope, Outcome, unhandled, encode_error, handled,
  under, sub_path, latin_1, sub_scope, hits, is_mount, top_level_hit, top_level_hit_beside,
  dispatch, enter, takes, try_route, try_mount_routes, try_mounts, asgi_try_http_mount,
}
use fastapi_turbo.Door.Mount.Prefix.{under-split}

-- A mount that the loop passes over for its path.
abbrev pub Passes : Scope → Mount → Type 0
Passes scope m = takes scope (rstrip_slash m.path) ≡ false

under-whole : (path : List ℕ) → under path path ≡ true
unfolding under
under-whole path = ground (arith, same_refl path)

under-below : (prefix rest : List ℕ) → under (prefix ++ 47 ∷ rest) prefix ≡ true
unfolding under
under-below prefix rest =
    let e : startswith (prefix ++ 47 ∷ rest) (prefix ++ 47 ∷ []) ≡ true =
      ap (λ s. startswith s (prefix ++ 47 ∷ [])) (sym (append_assoc prefix (47 ∷ []) rest))
      ∙ startswith-append (prefix ++ 47 ∷ []) rest in
    ground (arith, e)

-- A path is under a prefix exactly when it is the prefix, or goes on after it with a `/`; so `/subway`
-- is not under `/sub`.
pub under_iff :
    (path prefix : List ℕ)
    → (under path prefix ≡ true)
      ↔ ((path ≡ prefix) ⊎ ((rest : List ℕ) × (path ≡ prefix ++ 47 ∷ rest)))
under_iff path prefix = (
  under-split path prefix,
  λ c. elim c [
    | inl e ↦ ap (λ p. under p prefix) e ∙ under-whole prefix
    | inr (rest, e) ↦ ap (λ p. under p prefix) e ∙ under-below prefix rest
  ],
)

try_mounts-Passes :
    (before after : List Mount) (routes : List Route) (scope : Scope)
    → All (Passes scope) before
    → try_mounts (before ++ after) routes scope ≡ try_mounts after routes scope
unfolding try_mounts
try_mounts-Passes [] after routes scope h = refl
try_mounts-Passes (m ∷ before) after routes scope h =
    ap
      (λ b.
        if b && not (top_level_hit scope routes)
        then enter m.app scope (rstrip_slash m.path) (try_mounts (before ++ after) routes scope)
        else try_mounts (before ++ after) routes scope)
      h.0
    ∙ try_mounts-Passes before after routes scope h.1

-- Let no mount before this one cover the path, and let this one cover it; let no route of the
-- application answer the very path, and let the rest of the path be Latin-1. Then the callable
-- mounted here is called, with the prefix moved to the root path, whatever is mounted after it.
pub asgi_try_http_mount-first :
    (before after : List Mount) (m : Mount) (n : ℕ) (routes : List Route) (scope : Scope)
    → All (Passes scope) before
    → m.app ≡ callable n
    → takes scope (rstrip_slash m.path) ≡ true
    → top_level_hit scope routes ≡ false
    → latin_1 (sub_path scope.path (rstrip_slash m.path)) ≡ true
    → asgi_try_http_mount (before ++ m ∷ after) routes scope
      ≡ handled (callable n) (sub_scope scope (rstrip_slash m.path))
unfolding asgi_try_http_mount try_mounts
asgi_try_http_mount-first before after m n routes scope h a t f l =
    let rest = try_mounts after routes scope in
    let prefix = rstrip_slash m.path in
    try_mounts-Passes before (m ∷ after) routes scope h
    ∙ ap
        (λ b. if b && not (top_level_hit scope routes) then enter m.app scope prefix rest else rest)
        t
    ∙ ap (λ b. if not b then enter m.app scope prefix rest else rest) f
    ∙ ap (λ b. if b then dispatch m.app (sub_scope scope prefix) rest else encode_error) l
    ∙ ap (λ x. dispatch x (sub_scope scope prefix) rest) a

hits-beside :
    (scope : Scope) (rs : List Route)
    → any (λ r. not (is_mount r.shape) && hits scope r) rs ≡ true
    → any (hits scope) rs ≡ true
hits-beside scope [] h = absurd (false≢true h)
hits-beside scope (r ∷ rs) h = ground (arith, hits-beside scope rs)

and_never : (a b : Bool) → b ≡ true → (a && not b) ≡ false
and_never a b h = ground arith

shadowed : (a b : Bool) (o rest : Outcome) → b ≡ true → (if a && not b then o else rest) ≡ rest
shadowed a b o rest h = ap (λ t. if t then o else rest) (and_never a b h)

try_route-shadowed :
    (routes : List Route) (scope : Scope) (prefix : List ℕ) (shape : Shape) (rest : Outcome)
    → top_level_hit_beside scope routes ≡ true
    → try_route routes scope prefix shape rest ≡ rest
try_route-shadowed routes scope prefix plain rest h = refl
try_route-shadowed routes scope prefix (mount none) rest h = refl
try_route-shadowed routes scope prefix (mount (some t)) rest h =
    shadowed (takes scope prefix) (top_level_hit_beside scope routes) (enter t scope prefix rest)
      rest h

try_mount_routes-shadowed :
    (routes rs : List Route) (scope : Scope)
    → top_level_hit_beside scope routes ≡ true
    → try_mount_routes routes rs scope ≡ unhandled
unfolding try_mount_routes
try_mount_routes-shadowed routes [] scope h = refl
try_mount_routes-shadowed routes (r ∷ rs) scope h =
    try_route-shadowed routes scope (rstrip_slash r.path) r.shape (try_mount_routes routes rs scope)
      h
    ∙ try_mount_routes-shadowed routes rs scope h

try_mounts-shadowed :
    (ms : List Mount) (routes : List Route) (scope : Scope)
    → top_level_hit_beside scope routes ≡ true
    → try_mounts ms routes scope ≡ unhandled
unfolding try_mounts top_level_hit top_level_hit_beside
try_mounts-shadowed [] routes scope h = try_mount_routes-shadowed routes routes scope h
try_mounts-shadowed (m ∷ ms) routes scope h =
    let prefix = rstrip_slash m.path in
    let rest = try_mounts ms routes scope in
    shadowed (takes scope prefix) (top_level_hit scope routes) (enter m.app scope prefix rest) rest
      (hits-beside scope routes h)
    ∙ try_mounts-shadowed ms routes scope h

-- If a route of the application that is no mount has the very path of the request and its method, then
-- no mount takes the request, whatever is mounted: it is left to the application's own routes.
pub asgi_try_http_mount-shadowed :
    (ms : List Mount) (routes : List Route) (scope : Scope)
    → top_level_hit_beside scope routes ≡ true
    → asgi_try_http_mount ms routes scope ≡ unhandled
unfolding asgi_try_http_mount
asgi_try_http_mount-shadowed ms routes scope h = try_mounts-shadowed ms routes scope h
