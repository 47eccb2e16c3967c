-- ===== src/Middleware/Registry.antt =====
-- The registration of middleware in python/fastapi_turbo/applications.py: `add_middleware`, the decorator
-- `middleware`, `_keep_sentry_outermost`, and the chain that `_asgi_oneshot_http_with_mw` composes around
-- the in-process door. Classes, functions and instances are numbers; what kind a class is of, and
-- whether making an instance of it raises, is the program's own. Keyword arguments are left out, and
-- so is a class that cannot be put around the chain.
pub mod Sentry
pub mod Outer
mod Tests
use fastapi_turbo.Prelude.{
  ℕ, suc, ◌+◌, Bool, true, false, not, ◌&&◌, ◌||◌, List, [], ◌∷◌, ◌++◌, if◌then◌else◌,
}

-- A string; a class that runs as a Python HTTP middleware; one that stands for a layer of the Rust
-- server (CORS, GZip, HTTPS redirect); a `BaseHTTPMiddleware`; an ASGI class that takes `app`; other.
pub data Kind : Type 0 where
  shorthand python_http tower base_http asgi unknown : Kind

-- A call of `add_middleware`. `sentry` is whether the class is `SentryAsgiMiddleware`, `with_args`
-- whether there are positional arguments, `builds` whether an instance can be made.
pub record Addition : Type 0 where
  pub cls : ℕ
  pub kind : Kind
  pub sentry : Bool
  pub with_args : Bool
  pub builds : Bool

-- An entry of `_http_middlewares`, and whether `_keep_sentry_outermost` takes it for Sentry's.
pub record Entry : Type 0 where
  pub cls : ℕ
  pub sentry : Bool

pub data Layer : Type 0 where
  tower raw : ℕ → Layer

pub record Registry : Type 0 where
  pub middleware_stack : List ℕ
  pub http_middlewares : List Entry
  pub raw_asgi_middlewares : List ℕ
  pub log : List (Layer × ℕ)
  pub seq : ℕ

abbrev pub fresh : Registry
fresh = record {
  middleware_stack = [];
  http_middlewares = [];
  raw_asgi_middlewares = [];
  log = [];
  seq = 0;
}

abbrev pub add_entry : Entry → Registry → Registry
add_entry e r = record r { http_middlewares = r.http_middlewares ++ e ∷ [] }

abbrev pub add_layer : Layer → Registry → Registry
add_layer l r = record r { log = r.log ++ (l, suc r.seq) ∷ []; seq = suc r.seq }

abbrev pub add_stack : ℕ → Registry → Registry
add_stack c r = record r { middleware_stack = r.middleware_stack ++ c ∷ [] }

abbrev pub add_kind : Kind → Addition → Registry → Registry
add_kind shorthand a r = add_layer (tower a.cls) (add_stack a.cls r)
add_kind tower a r = add_layer (tower a.cls) (add_stack a.cls r)
add_kind python_http a r =
    if a.builds then add_entry (record { cls = a.cls; sentry = a.sentry }) r else r
add_kind base_http a r =
    if a.builds then add_entry (record { cls = a.cls; sentry = false }) r else r
add_kind asgi a r =
    add_layer (raw a.cls)
      (record (add_entry (record { cls = a.cls; sentry = a.sentry && not a.with_args }) r) {
        raw_asgi_middlewares = r.raw_asgi_middlewares ++ a.cls ∷ [];
      })
add_kind unknown a r = add_stack a.cls r

-- `_add_middleware_impl`; an instance that cannot be made leaves all as it was.
unfoldable pub add_middleware_impl : Addition → Registry → Registry
add_middleware_impl a r = add_kind a.kind a r

unfoldable pub others : List Entry → List Entry
others [] = []
others (e ∷ es) = let rest = others es in if e.sentry then rest else e ∷ rest

unfoldable pub sentries : List Entry → List Entry
sentries [] = []
sentries (e ∷ es) = let rest = sentries es in if e.sentry then e ∷ rest else rest

-- `_keep_sentry_outermost`, where `sentry_sdk` can be imported.
unfoldable pub keep_sentry_outermost : Registry → Registry
keep_sentry_outermost r = record r {
  http_middlewares = others r.http_middlewares ++ sentries r.http_middlewares;
}

-- `add_middleware`; the reordering stands in a `finally`.
unfoldable pub add_middleware : Addition → Registry → Registry
add_middleware a r = keep_sentry_outermost (add_middleware_impl a r)

-- The decorator that `middleware("http")` gives, on a function.
unfoldable pub decorate : ℕ → Registry → Registry
decorate f r = add_entry (record { cls = f; sentry = false }) r

pub data Op : Type 0 where
  add : Addition → Op
  decorates : ℕ → Op

unfoldable pub run : List Op → Registry → Registry
run [] r = r
run (add a ∷ ops) r = run ops (add_middleware a r)
run (decorates f ∷ ops) r = run ops (decorate f r)

abbrev pub any_tower : List (Layer × ℕ) → Bool
any_tower [] = false
any_tower ((tower c, n) ∷ log) = true
any_tower ((raw c, n) ∷ log) = any_tower log

abbrev pub not_empty : List ℕ → Bool
not_empty [] = false
not_empty (c ∷ cs) = true

-- `_door_has_tower_raw_mix`.
unfoldable pub door_has_tower_raw_mix : Registry → Bool
door_has_tower_raw_mix r = not_empty r.raw_asgi_middlewares && any_tower r.log

-- The loop `composed = mw_cls(app=composed)`: the chain, from the outermost in.
abbrev pub compose : List ℕ → List ℕ → List ℕ
compose [] composed = composed
compose (c ∷ cs) composed = compose cs (c ∷ composed)

-- The class that stands in for a layer of the server, if `_resolve_tower_bound_to_asgi_class` has one.
module _ (resolve : ℕ → List ℕ) where
  abbrev pub classes : List (Layer × ℕ) → List ℕ
  classes [] = []
  classes ((tower c, n) ∷ log) = resolve c ++ classes log
  classes ((raw c, n) ∷ log) = c ∷ classes log

  -- `_door_outer_mw_list`.
  unfoldable pub door_outer_mw_list : Registry → List ℕ
  door_outer_mw_list r = if door_has_tower_raw_mix r then classes r.log else []

  -- The middlewares that `_asgi_oneshot_http_with_mw` puts around the door.
  unfoldable pub asgi_oneshot_http_with_mw : Registry → List ℕ
  asgi_oneshot_http_with_mw r = compose (door_outer_mw_list r) []
