-- ===== src/Middleware/Registry/Sentry.antt =====
-- Where Sentry's middleware ends up.
use fastapi_turbo.Prelude.{
  ◌≡◌, refl, sym, ap, ◌∙◌, Bool, true, false, not, ◌&&◌, List, [], ◌∷◌, ◌++◌, append_assoc,
  append-nil, if◌then◌else◌,
}
use fastapi_turbo.Middleware.Registry.{
  Kind, shorthand, python_http, tower, base_http, asgi, unknown, Addition, Entry, Registry, fresh,
  add_entry, add_kind, add_middleware_impl, others, sentries, keep_sentry_outermost, add_middleware,
  decorate, Op, add, decorates, run,
}

if-append :
    (b : Bool) (e : Entry) (es fs : List Entry)
    → (if b then es ++ fs else e ∷ (es ++ fs)) ≡ (if b then es else e ∷ es) ++ fs
if-append true e es fs = refl
if-append false e es fs = refl

else-append :
    (b : Bool) (e : Entry) (es fs : List Entry)
    → (if b then e ∷ (es ++ fs) else es ++ fs) ≡ (if b then e ∷ es else es) ++ fs
else-append true e es fs = refl
else-append false e es fs = refl

others-append : (es fs : List Entry) → others (es ++ fs) ≡ others es ++ others fs
unfolding others
others-append [] fs = refl
others-append (e ∷ es) fs =
    ap (λ r. if e.sentry then r else e ∷ r) (others-append es fs)
    ∙ if-append e.sentry e (others es) (others fs)

sentries-append : (es fs : List Entry) → sentries (es ++ fs) ≡ sentries es ++ sentries fs
unfolding sentries
sentries-append [] fs = refl
sentries-append (e ∷ es) fs =
    ap (λ r. if e.sentry then e ∷ r else r) (sentries-append es fs)
    ∙ else-append e.sentry e (sentries es) (sentries fs)

abbrev Apart : Entry → List Entry → Bool → Type 0
Apart e es b =
    (others (if b then es else e ∷ es) ≡ (if b then others es else e ∷ others es))
    × (sentries (if b then es else e ∷ es) ≡ sentries es)
    × (others (if b then e ∷ es else es) ≡ others es)
    × (sentries (if b then e ∷ es else es) ≡ (if b then e ∷ sentries es else sentries es))

apart : (e : Entry) (es : List Entry) (b : Bool) → e.sentry ≡ b → Apart e es b
unfolding others sentries
apart e es true q = (
  refl,
  refl,
  ap (λ b. if b then others es else e ∷ others es) q,
  ap (λ b. if b then e ∷ sentries es else sentries es) q,
)
apart e es false q = (
  ap (λ b. if b then others es else e ∷ others es) q,
  ap (λ b. if b then e ∷ sentries es else sentries es) q,
  refl,
  refl,
)

others-others : (es : List Entry) → others (others es) ≡ others es
unfolding others
others-others [] = refl
others-others (e ∷ es) =
    (apart e (others es) e.sentry refl).0
    ∙ ap (λ r. if e.sentry then r else e ∷ r) (others-others es)

if_both : (b : Bool) (es : List Entry) → (if b then es else es) ≡ es
if_both true es = refl
if_both false es = refl

sentries-others : (es : List Entry) → sentries (others es) ≡ []
unfolding others sentries
sentries-others [] = refl
sentries-others (e ∷ es) = (apart e (others es) e.sentry refl).1 ∙ sentries-others es

others-sentries : (es : List Entry) → others (sentries es) ≡ []
unfolding others sentries
others-sentries [] = refl
others-sentries (e ∷ es) = (apart e (sentries es) e.sentry refl).2 ∙ others-sentries es

sentries-sentries : (es : List Entry) → sentries (sentries es) ≡ sentries es
unfolding sentries
sentries-sentries [] = refl
sentries-sentries (e ∷ es) =
    (apart e (sentries es) e.sentry refl).3
    ∙ ap (λ r. if e.sentry then e ∷ r else r) (sentries-sentries es)

-- The entries that a call adds, in terms of its kind.
abbrev pub entries_of_kind : Kind → Addition → List Entry
entries_of_kind python_http a =
    if a.builds then record { cls = a.cls; sentry = a.sentry } ∷ [] else []
entries_of_kind base_http a = if a.builds then record { cls = a.cls; sentry = false } ∷ [] else []
entries_of_kind asgi a = record { cls = a.cls; sentry = a.sentry && not a.with_args } ∷ []
entries_of_kind _ a = []

-- All that a sequence of registrations adds, in order.
abbrev pub registered : List Op → List Entry
registered [] = []
registered (add a ∷ ops) = entries_of_kind a.kind a ++ registered ops
registered (decorates f ∷ ops) = record { cls = f; sentry = false } ∷ registered ops

add-entries :
    (b : Bool) (e : Entry) (r : Registry)
    → (if b then add_entry e r else r).http_middlewares
      ≡ r.http_middlewares ++ (if b then e ∷ [] else [])
add-entries true e r = refl
add-entries false e r = sym (append-nil r.http_middlewares)

add_kind-entries :
    (k : Kind) (a : Addition) (r : Registry)
    → (add_kind k a r).http_middlewares ≡ r.http_middlewares ++ entries_of_kind k a
add_kind-entries shorthand a r = sym (append-nil r.http_middlewares)
add_kind-entries tower a r = sym (append-nil r.http_middlewares)
add_kind-entries python_http a r =
    add-entries a.builds (record { cls = a.cls; sentry = a.sentry }) r
add_kind-entries base_http a r = add-entries a.builds (record { cls = a.cls; sentry = false }) r
add_kind-entries asgi a r = refl
add_kind-entries unknown a r = sym (append-nil r.http_middlewares)

-- The two kinds of entries, each in its order.
abbrev Same : List Entry → List Entry → Type 0
Same es fs = (others es ≡ others fs) × (sentries es ≡ sentries fs)

keep-Same : (es : List Entry) → Same (others es ++ sentries es) es
keep-Same es = (
  others-append (others es) (sentries es)
      ∙ rw (others-others es, others-sentries es) (append-nil (others es)),
  sentries-append (others es) (sentries es) ∙ rw (sentries-others es, sentries-sentries es) refl,
)

append-Same : (es fs gs : List Entry) → Same es fs → Same (es ++ gs) (fs ++ gs)
append-Same es fs gs h = (
  others-append es gs ∙ ap (λ r. r ++ others gs) h.0 ∙ sym (others-append fs gs),
  sentries-append es gs ∙ ap (λ r. r ++ sentries gs) h.1 ∙ sym (sentries-append fs gs),
)

trans-Same : (es fs gs : List Entry) → Same es fs → Same fs gs → Same es gs
trans-Same es fs gs h k = (h.0 ∙ k.0, h.1 ∙ k.1)

eq-Same : (es fs : List Entry) → es ≡ fs → Same es fs
eq-Same es fs e = (ap others e, ap sentries e)

add_middleware-Same :
    (a : Addition) (r : Registry)
    → Same (add_middleware a r).http_middlewares (r.http_middlewares ++ entries_of_kind a.kind a)
unfolding add_middleware keep_sentry_outermost add_middleware_impl
add_middleware-Same a r =
    let es = (add_kind a.kind a r).http_middlewares in
    trans-Same (others es ++ sentries es) es (r.http_middlewares ++ entries_of_kind a.kind a)
      (keep-Same es)
      (eq-Same es (r.http_middlewares ++ entries_of_kind a.kind a) (add_kind-entries a.kind a r))

run-Same :
    (ops : List Op) (r : Registry)
    → Same (run ops r).http_middlewares (r.http_middlewares ++ registered ops)
unfolding run decorate
run-Same [] r =
    eq-Same r.http_middlewares (r.http_middlewares ++ []) (sym (append-nil r.http_middlewares))
run-Same (add a ∷ ops) r =
    let new = entries_of_kind a.kind a in
    let next = add_middleware a r in
    trans-Same (run ops next).http_middlewares (next.http_middlewares ++ registered ops)
      (r.http_middlewares ++ registered (add a ∷ ops)) (run-Same ops next)
      (trans-Same (next.http_middlewares ++ registered ops)
        ((r.http_middlewares ++ new) ++ registered ops)
        (r.http_middlewares ++ (new ++ registered ops))
        (append-Same next.http_middlewares (r.http_middlewares ++ new) (registered ops)
          (add_middleware-Same a r))
        (eq-Same ((r.http_middlewares ++ new) ++ registered ops)
          (r.http_middlewares ++ (new ++ registered ops))
          (append_assoc r.http_middlewares new (registered ops))))
run-Same (decorates f ∷ ops) r =
    let new : Entry = record { cls = f; sentry = false } in
    trans-Same (run ops (decorate f r)).http_middlewares
      ((r.http_middlewares ++ new ∷ []) ++ registered ops)
      (r.http_middlewares ++ (new ∷ registered ops)) (run-Same ops (decorate f r))
      (eq-Same ((r.http_middlewares ++ new ∷ []) ++ registered ops)
        (r.http_middlewares ++ (new ∷ registered ops))
        (append_assoc r.http_middlewares (new ∷ []) (registered ops)))

-- After any registrations on a new application, of which the last is a call of `add_middleware`, the
-- entries taken for Sentry's stand behind all the others, and so outermost when requests run; those of
-- each kind are all that were registered, but for those whose instance could not be made, in the order
-- of registration.
pub add_middleware-outermost :
    (ops : List Op) (a : Addition)
    → let all = registered ops ++ entries_of_kind a.kind a in
      (add_middleware a (run ops fresh)).http_middlewares ≡ others all ++ sentries all
unfolding add_middleware keep_sentry_outermost add_middleware_impl
add_middleware-outermost ops a =
    let r = run ops fresh in
    let new = entries_of_kind a.kind a in
    let s = append-Same r.http_middlewares (registered ops) new (run-Same ops fresh) in
    ap (λ es. others es ++ sentries es) (add_kind-entries a.kind a r)
    ∙ ap (λ es. es ++ sentries (r.http_middlewares ++ new)) s.0
    ∙ ap (λ es. others (registered ops ++ new) ++ es) s.1
