-- ===== src/App/Routes/Trails.antt =====
-- Every route of the tree, by the way that leads to it: what is collected of it depends on that way
-- alone.
use fastapi_turbo.Prelude.{
  ℕ, Bool, true, false, ◌&&◌, ◌||◌, ◌≡◌, refl, sym, ap, ◌∙◌, List, [], ◌∷◌, ◌++◌, map, append_assoc,
  append-nil, Option, none, some, if◌then◌else◌, Bool-cases, inl, inr,
}
use mathlib.Core.List.{map-map, map-append}
use fastapi_turbo.App.Routes.{
  Route, Head, Meta, Router, router, Included, nil, cons, App, Context, Entry, normalised,
  all_dependencies, is_true, first_set, entry, descend, head_of, exclude, marked, collect_routes,
  collect_children, at_root, of_meta, collect_included, collect_all_routes,
}

-- The includes on the way from a router down to the one that has the route, and the route.
abbrev pub Trail : Type 0
Trail = List (Meta × Head) × Route

abbrev pub under : Meta → Head → Trail → Trail
under m h (hops, route) = ((m, h) ∷ hops, route)

abbrev pub here : Route → Trail
here route = ([], route)

abbrev mutual
  pub trails : Router → List Trail
  trails (router h routes children) = map here routes ++ child_trails children

  pub child_trails : Included → List Trail
  child_trails nil = []
  child_trails (cons m r rest) = map (under m (head_of r)) (trails r) ++ child_trails rest

-- What stands on the way, joined from the outside to the inside.
abbrev pub along : (Head → List ℕ) → (Meta → List ℕ) → Head → List (Meta × Head) → List ℕ
along own given h [] = own h
along own given h ((m, g) ∷ hops) = own h ++ given m ++ along own given g hops

abbrev pub innermost : Head → List (Meta × Head) → Head
innermost h [] = h
innermost h ((m, g) ∷ hops) = innermost g hops

-- The value of the innermost include that has one.
abbrev pub nearest : Option Bool → List (Meta × Head) → Option Bool
nearest o [] = o
nearest o ((m, g) ∷ hops) = nearest (first_set m.deprecated o) hops

abbrev pub all_shown : List (Meta × Head) → Bool
all_shown [] = true
all_shown ((m, g) ∷ hops) = m.include_in_schema && all_shown hops

abbrev pub any_customized : List (Meta × Head) → Bool
any_customized [] = false
any_customized ((m, g) ∷ hops) = g.customized || any_customized hops

-- What a trail makes of its route, below a router with the settings `h` and the arguments `c`.
unfoldable pub placed : App → Context → Head → Trail → Entry
placed app c h (hops, route) = record {
  path = normalised (c.prefix ++ along (λ g. g.prefix) (λ m. m.prefix) h hops ++ route.path);
  tags = c.tags ++ along (λ g. g.tags) (λ m. m.tags) h hops ++ route.tags;
  dependencies =
      if route.bypass_deps
      then []
      else app.dependencies
        ++ c.dependencies
        ++ along (λ g. g.dependencies) (λ m. m.dependencies) h hops
        ++ route.dependencies;
  callbacks = c.callbacks ++ along (λ g. g.callbacks) (λ m. m.callbacks) h hops ++ route.callbacks;
  deprecated =
      route.deprecated || (innermost h hops).deprecated || is_true (nearest c.deprecated hops);
  include_in_schema = route.include_in_schema && c.include_in_schema && all_shown hops;
  door_exclude = route.customized || any_customized hops;
}

and-true : (b : Bool) → b && true ≡ b
and-true true = refl
and-true false = refl

and_assoc : (a b c : Bool) → a && (b && c) ≡ (a && b) && c
and_assoc true b c = refl
and_assoc false b c = refl

or-false : (b : Bool) → b || false ≡ b
or-false true = refl
or-false false = refl

placed-here :
    (app : App) (h : Head) (c : Context) (route : Route)
    → placed app c h ([], route) ≡ entry app h c route
unfolding placed entry all_dependencies
placed-here app h c route = simp (append_assoc, and-true, or-false)

or-true : (b : Bool) → b || true ≡ true
or-true true = refl
or-true false = refl

abbrev mark : Head → Entry → Entry
mark h e = if h.customized then exclude e else e

placed-under :
    (app : App) (h g : Head) (m : Meta) (c : Context) (t : Trail)
    → mark g (placed app (descend h m c) g t) ≡ placed app c h (under m g t)
unfolding placed descend
placed-under app h g m c (hops, route) = elim (Bool-cases g.customized) [
  | inl y ↦ rw y (simp (append_assoc, and_assoc, or-true))
  | inr n ↦ rw n (simp (append_assoc, and_assoc))
]

map_ext : {A B : Type 0} (f g : A → B) (xs : List A) → ((x : A) → f x ≡ g x) → map f xs ≡ map g xs
map_ext f g [] e = refl
map_ext f g (x ∷ xs) e = ap (λ y. y ∷ map f xs) (e x) ∙ ap (λ ys. g x ∷ ys) (map_ext f g xs e)

map_self : (entries : List Entry) → entries ≡ map (λ e. e) entries
map_self [] = refl
map_self (e ∷ entries) = ap (λ es. e ∷ es) (map_self entries)

mark_if :
    (b : Bool) (entries : List Entry)
    → (if b then map exclude entries else entries) ≡ map (λ e. if b then exclude e else e) entries
mark_if true entries = refl
mark_if false entries = map_self entries

-- One step down: the entries of a router that is included, as those of the longer trails.
marked_lem :
    (app : App) (h g : Head) (m : Meta) (c : Context) (ts : List Trail)
    → marked g (map (placed app (descend h m c) g) ts) ≡ map (placed app c h) (map (under m g) ts)
marked_lem app h g m c ts =
    mark_if g.customized (map (placed app (descend h m c) g) ts)
    ∙ map-map (mark g) (placed app (descend h m c) g) ts
    ∙ map_ext (λ t. mark g (placed app (descend h m c) g t)) (λ t. placed app c h (under m g t)) ts
        (placed-under app h g m c)
    ∙ sym (map-map (placed app c h) (under m g) ts)

mutual
  unfolding collect_routes

  collect_routes-trails :
      (app : App) (r : Router) (c : Context)
      → collect_routes app r c ≡ map (placed app c (head_of r)) (trails r)
  collect_routes-trails app (router h routes children) c =
      ap (λ es. map (entry app h c) routes ++ es) (collect_children-trails app h c children)
      ∙ ap (λ es. es ++ map (placed app c h) (child_trails children))
          (map_ext (entry app h c) (λ r. placed app c h (here r)) routes
              (λ r. sym (placed-here app h c r))
            ∙ sym (map-map (placed app c h) here routes))
      ∙ sym (map-append (placed app c h) (map here routes) (child_trails children))

  collect_children-trails :
      (app : App) (h : Head) (c : Context) (children : Included)
      → collect_children app h c children ≡ map (placed app c h) (child_trails children)
  collect_children-trails app h c nil = refl
  collect_children-trails app h c (cons m r rest) =
      ap (λ es. marked (head_of r) es ++ collect_children app h c rest)
        (collect_routes-trails app r (descend h m c))
      ∙ ap (λ es. es ++ collect_children app h c rest) (marked_lem app h (head_of r) m c (trails r))
      ∙ ap (λ es. map (placed app c h) (map (under m (head_of r)) (trails r)) ++ es)
          (collect_children-trails app h c rest)
      ∙ sym (map-append (placed app c h) (map (under m (head_of r)) (trails r)) (child_trails rest))

-- The application itself, as what includes a router: it adds nothing on the way.
abbrev pub no_head : Head
no_head = record {
  prefix = [];
  tags = [];
  dependencies = [];
  callbacks = [];
  deprecated = false;
  customized = false;
}

first_set-none : (o : Option Bool) → first_set o none ≡ o
first_set-none none = refl
first_set-none (some b) = refl

descend-no_head : (app : App) (m : Meta) → descend no_head m (at_root app) ≡ of_meta app m
unfolding descend
descend-no_head app m = λ i. record (of_meta app m) {
  callbacks = append-nil app.callbacks i ++ m.callbacks;
  deprecated = first_set-none m.deprecated i;
}

collect_included-children :
    (app : App) (children : Included)
    → collect_included app children ≡ collect_children app no_head (at_root app) children
unfolding collect_included collect_routes descend
collect_included-children app nil = refl
collect_included-children app (cons m r rest) =
    ap (λ c. marked (head_of r) (collect_routes app r c) ++ collect_included app rest)
      (sym (descend-no_head app m))
    ∙ ap (λ es. marked (head_of r) (collect_routes app r (descend no_head m (at_root app))) ++ es)
        (collect_included-children app rest)

-- Every route of the application's router tree is collected once, in the order of the tree, and as
-- its trail says: the path is the prefixes of the includes and of the routers on the way, joined from
-- the outside in, and the route's own path, normalised at the ends; so are the tags and the callbacks;
-- the dependencies are the application's, those on the way, and the route's, and none of a route that
-- bypasses them; it is in the schema if nothing on the way hides it; it is deprecated if the route, its own
-- router, or the innermost include that says anything about it, says so; and it is kept off the door
-- if it, or a router included on the way, has hooks of its own.
pub collect_all_routes-trails :
    (app : App)
    → collect_all_routes app
      ≡ map (placed app (at_root app) (head_of app.root)) (trails app.root)
        ++ map (placed app (at_root app) no_head) (child_trails app.included)
unfolding collect_all_routes
collect_all_routes-trails app =
    ap (λ es. es ++ collect_included app app.included)
      (collect_routes-trails app app.root (at_root app))
    ∙ ap (λ es. map (placed app (at_root app) (head_of app.root)) (trails app.root) ++ es)
        (collect_included-children app app.included
          ∙ collect_children-trails app no_head (at_root app) app.included)
