-- ===== src/App/Routes/Tests.antt =====
-- The collection of routes on a small application: a router included in a router.
use fastapi_turbo.Prelude.{◌≡◌, refl, true, false, [], ◌∷◌, ◌++◌, map, some}
use fastapi_turbo.App.Routes.{
  Route, Head, Meta, Router, router, nil, cons, App, normalised, head_of, at_root,
  collect_all_routes,
}
use fastapi_turbo.App.Routes.Trails.{
  placed, trails, child_trails, no_head, collect_all_routes-trails,
}
use fastapi_turbo.App.Routes.Path.{normalised-inner}

abbrev route : Route
route = record {
  path = 47 ∷ 114 ∷ [];
  tags = 1 ∷ [];
  dependencies = 2 ∷ [];
  callbacks = [];
  deprecated = false;
  include_in_schema = true;
  bypass_deps = false;
  customized = false;
}

abbrev head : Head
head = record {
  prefix = 47 ∷ 104 ∷ [];
  tags = 3 ∷ [];
  dependencies = 4 ∷ [];
  callbacks = [];
  deprecated = false;
  customized = true;
}

abbrev meta : Meta
meta = record {
  prefix = 47 ∷ 109 ∷ [];
  tags = [];
  dependencies = 5 ∷ [];
  callbacks = [];
  deprecated = some true;
  include_in_schema = false;
}

abbrev inner : Router
inner = router head (route ∷ []) nil

abbrev app : App
app = record {
  dependencies = 6 ∷ [];
  callbacks = 7 ∷ [];
  root = router no_head (route ∷ []) (cons meta inner nil);
  included = cons meta inner nil;
}

collect_example :
    collect_all_routes app
    ≡ map (placed app (at_root app) (head_of app.root)) (trails app.root)
      ++ map (placed app (at_root app) no_head) (child_trails app.included)
collect_example = collect_all_routes-trails app

-- "/a//i" has two slashes inside.
normalised_example :
    normalised (47 ∷ 97 ∷ (47 ∷ 47 ∷ []) ++ 105 ∷ []) ≡ 47 ∷ 97 ∷ (47 ∷ 47 ∷ []) ++ 105 ∷ []
normalised_example = normalised-inner 97 105 (47 ∷ 47 ∷ []) refl refl
