-- ===== src/App/Routes.antt =====
-- `_collect_all_routes`, `_collect_routes_from_router` and `_get_all_dependencies_for_route` of
-- python/fastapi_turbo/applications.py, for HTTP routes of the plain kind: the tree of routers is
-- flattened, and each route gets the prefixes, tags, dependencies and callbacks of all that it stands
-- in. Tags, dependencies and callbacks are numbers, a path is a list of code points.
pub mod Trails
pub mod Path
mod Tests
use fastapi_turbo.Prelude.{
  ℕ, Bool, true, false, not, ◌&&◌, ◌||◌, List, [], ◌∷◌, ◌++◌, map, Option, none, some, ◌==◌,
  if◌then◌else◌,
}
use mathlib.Core.List.{reverse}

pub record Route : Type 0 where
  pub path : List ℕ
  pub tags : List ℕ
  pub dependencies : List ℕ
  pub callbacks : List ℕ
  pub deprecated : Bool
  pub include_in_schema : Bool
  -- `_fastapi_turbo_bypass_deps`, and what `_route_dispatch_customized` says
  pub bypass_deps : Bool
  pub customized : Bool

-- A router's own settings; `customized` is what `_router_dispatch_customized` says.
pub record Head : Type 0 where
  pub prefix : List ℕ
  pub tags : List ℕ
  pub dependencies : List ℕ
  pub callbacks : List ℕ
  pub deprecated : Bool
  pub customized : Bool

-- What `include_router` was called with.
pub record Meta : Type 0 where
  pub prefix : List ℕ
  pub tags : List ℕ
  pub dependencies : List ℕ
  pub callbacks : List ℕ
  pub deprecated : Option Bool
  pub include_in_schema : Bool

mutual
  pub data Router : Type 0 where
    router : Head → List Route → Included → Router

  pub data Included : Type 0 where
    nil : Included
    cons : Meta → Router → Included → Included

pub record App : Type 0 where
  pub dependencies : List ℕ
  pub callbacks : List ℕ
  pub root : Router
  pub included : Included

-- The arguments that `_collect_routes_from_router` hands down.
pub record Context : Type 0 where
  pub prefix : List ℕ
  pub tags : List ℕ
  pub dependencies : List ℕ
  pub callbacks : List ℕ
  pub deprecated : Option Bool
  pub include_in_schema : Bool

-- What is collected of a route.
pub record Entry : Type 0 where
  pub path : List ℕ
  pub tags : List ℕ
  pub dependencies : List ℕ
  pub callbacks : List ℕ
  pub deprecated : Bool
  pub include_in_schema : Bool
  pub door_exclude : Bool

-- `s.lstrip("/")`; "/" is 47.
abbrev pub lstrip_slash : List ℕ → List ℕ
lstrip_slash [] = []
lstrip_slash (c ∷ s) = if c == 47 then lstrip_slash s else c ∷ s

-- `s.strip("/")`.
abbrev pub strip_slash : List ℕ → List ℕ
strip_slash s = reverse (lstrip_slash (reverse (lstrip_slash s)))

-- `s.endswith("/")`.
abbrev pub ends_in_slash : List ℕ → Bool
ends_in_slash [] = false
ends_in_slash (c ∷ []) = c == 47
ends_in_slash (c ∷ d ∷ s) = ends_in_slash (d ∷ s)

abbrev pub is_root : List ℕ → Bool
is_root (c ∷ []) = c == 47
is_root _ = false

unfoldable pub normalised : List ℕ → List ℕ
normalised s =
    if is_root s then s else 47 ∷ strip_slash s ++ (if ends_in_slash s then 47 ∷ [] else [])

-- `_get_all_dependencies_for_route`.
unfoldable pub all_dependencies : App → Head → Route → List ℕ → List ℕ
all_dependencies app h route include_deps =
    if route.bypass_deps
    then []
    else app.dependencies ++ include_deps ++ h.dependencies ++ route.dependencies

abbrev pub is_true : Option Bool → Bool
is_true none = false
is_true (some b) = b

abbrev pub first_set : Option Bool → Option Bool → Option Bool
first_set none o = o
first_set (some b) o = some b

-- The entry of a route of the router.
unfoldable pub entry : App → Head → Context → Route → Entry
unfolding normalised all_dependencies
entry app h c route = record {
  path = normalised ((c.prefix ++ h.prefix) ++ route.path);
  tags = (c.tags ++ h.tags) ++ route.tags;
  dependencies = all_dependencies app h route c.dependencies;
  callbacks = (c.callbacks ++ h.callbacks) ++ route.callbacks;
  deprecated = route.deprecated || h.deprecated || is_true c.deprecated;
  include_in_schema = route.include_in_schema && c.include_in_schema;
  door_exclude = route.customized;
}

-- What is handed down to a router that the router includes.
unfoldable pub descend : Head → Meta → Context → Context
descend h m c = record {
  prefix = (c.prefix ++ h.prefix) ++ m.prefix;
  tags = (c.tags ++ h.tags) ++ m.tags;
  dependencies = c.dependencies ++ h.dependencies ++ m.dependencies;
  callbacks = (c.callbacks ++ h.callbacks) ++ m.callbacks;
  deprecated = first_set m.deprecated c.deprecated;
  include_in_schema = c.include_in_schema && m.include_in_schema;
}

abbrev pub head_of : Router → Head
head_of (router h routes children) = h

abbrev pub exclude : Entry → Entry
exclude e = record e { door_exclude = true }

-- The routes of a router that is dispatched by hooks of its own are kept off the door.
abbrev pub marked : Head → List Entry → List Entry
marked h entries = if h.customized then map exclude entries else entries

unfoldable mutual
  -- `_collect_routes_from_router`.
  pub collect_routes : App → Router → Context → List Entry
  collect_routes app (router h routes children) c =
      map (entry app h c) routes ++ collect_children app h c children

  pub collect_children : App → Head → Context → Included → List Entry
  collect_children app h c nil = []
  collect_children app h c (cons m r rest) =
      marked (head_of r) (collect_routes app r (descend h m c)) ++ collect_children app h c rest

-- The defaults of the arguments, with the application's callbacks.
abbrev pub at_root : App → Context
at_root app = record {
  prefix = [];
  tags = [];
  dependencies = [];
  callbacks = app.callbacks;
  deprecated = none;
  include_in_schema = true;
}

-- The arguments for a router that the application includes.
abbrev pub of_meta : App → Meta → Context
of_meta app m = record {
  prefix = m.prefix;
  tags = m.tags;
  dependencies = m.dependencies;
  callbacks = app.callbacks ++ m.callbacks;
  deprecated = m.deprecated;
  include_in_schema = m.include_in_schema;
}

unfoldable pub collect_included : App → Included → List Entry
unfolding collect_routes
collect_included app nil = []
collect_included app (cons m r rest) =
    marked (head_of r) (collect_routes app r (of_meta app m)) ++ collect_included app rest

-- `_collect_all_routes`, without the mounted applications.
unfoldable pub collect_all_routes : App → List Entry
unfolding collect_routes collect_included
collect_all_routes app =
    collect_routes app app.root (at_root app) ++ collect_included app app.included
