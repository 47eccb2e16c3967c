-- ===== src/Middleware/Registry/Outer.antt =====
-- The chain around the in-process door, in terms of the registrations.
use mathlib.Core.List.{reverse, reverse-append}
use fastapi_turbo.Prelude.{
  ℕ, ◌≡◌, refl, sym, ap, ◌∙◌, Bool, true, false, ◌&&◌, ◌||◌, List, [], ◌∷◌, ◌++◌, append_assoc,
  append-nil, if◌then◌else◌,
}
use fastapi_turbo.Middleware.Registry.{
  Kind, shorthand, python_http, tower, base_http, asgi, unknown, Addition, Entry, Layer, raw,
  Registry, fresh, add_entry, add_kind, add_middleware_impl, keep_sentry_outermost, add_middleware,
  decorate, Op, add, decorates, run, any_tower, not_empty, door_has_tower_raw_mix, classes,
  door_outer_mw_list, compose, asgi_oneshot_http_with_mw,
}

abbrev tower_kind : Kind → Bool
tower_kind shorthand = true
tower_kind tower = true
tower_kind _ = false

abbrev raw_kind : Kind → Bool
raw_kind asgi = true
raw_kind _ = false

-- Whether one of the registrations is a layer of the server, and whether one is an ASGI class.
abbrev pub any_layer : List Op → Bool
any_layer [] = false
any_layer (add a ∷ ops) = tower_kind a.kind || any_layer ops
any_layer (decorates f ∷ ops) = any_layer ops

abbrev pub any_asgi : List Op → Bool
any_asgi [] = false
any_asgi (add a ∷ ops) = raw_kind a.kind || any_asgi ops
any_asgi (decorates f ∷ ops) = any_asgi ops

or_false : (b : Bool) → (b || false) ≡ b
or_false true = refl
or_false false = refl

or_assoc : (a b c : Bool) → ((a || b) || c) ≡ (a || (b || c))
or_assoc true b c = refl
or_assoc false b c = refl

any_tower-append :
    (log more : List (Layer × ℕ)) → any_tower (log ++ more) ≡ (any_tower log || any_tower more)
any_tower-append [] more = refl
any_tower-append ((tower c, n) ∷ log) more = refl
any_tower-append ((raw c, n) ∷ log) more = any_tower-append log more

not_empty-append : (cs more : List ℕ) → not_empty (cs ++ more) ≡ (not_empty cs || not_empty more)
not_empty-append [] more = refl
not_empty-append (c ∷ cs) more = refl

compose-reverse : (cs composed : List ℕ) → compose cs composed ≡ reverse cs ++ composed
compose-reverse [] composed = refl
compose-reverse (c ∷ cs) composed =
    compose-reverse cs (c ∷ composed)
    ∙ sym (append_assoc (reverse cs) (c ∷ []) composed)
    ∙ ap (λ ds. ds ++ composed) (sym (reverse-append (c ∷ []) cs))

composed-if :
    (b : Bool) (cs : List ℕ) → compose (if b then cs else []) [] ≡ (if b then reverse cs else [])
composed-if true cs = compose-reverse cs [] ∙ append-nil (reverse cs)
composed-if false cs = refl

module _ (resolve : ℕ → List ℕ) where
  -- What one registration contributes to the chain, and what all of them do, in order.
  abbrev pub classes_of_kind : Kind → ℕ → List ℕ
  classes_of_kind shorthand c = resolve c
  classes_of_kind tower c = resolve c
  classes_of_kind asgi c = c ∷ []
  classes_of_kind _ c = []

  abbrev pub registered_classes : List Op → List ℕ
  registered_classes [] = []
  registered_classes (add a ∷ ops) = classes_of_kind a.kind a.cls ++ registered_classes ops
  registered_classes (decorates f ∷ ops) = registered_classes ops

  classes-append :
      (log more : List (Layer × ℕ))
      → classes resolve (log ++ more) ≡ classes resolve log ++ classes resolve more
  classes-append [] more = refl
  classes-append ((tower c, n) ∷ log) more =
      ap (λ cs. resolve c ++ cs) (classes-append log more)
      ∙ sym (append_assoc (resolve c) (classes resolve log) (classes resolve more))
  classes-append ((raw c, n) ∷ log) more = ap (λ cs. c ∷ cs) (classes-append log more)

  -- What a registry says about the chain.
  abbrev Says : Registry → Registry → List ℕ → Bool → Bool → Type 0
  Says s r cs t a =
      (classes resolve s.log ≡ classes resolve r.log ++ cs)
      × (any_tower s.log ≡ (any_tower r.log || t))
      × (not_empty s.raw_asgi_middlewares ≡ (not_empty r.raw_asgi_middlewares || a))

  Says-none : (r : Registry) → Says r r [] false false
  Says-none r = (
    sym (append-nil (classes resolve r.log)),
    sym (or_false (any_tower r.log)),
    sym (or_false (not_empty r.raw_asgi_middlewares)),
  )

  tower_kind-Says :
      (c n : ℕ) (r : Registry)
      → (classes resolve (r.log ++ (tower c, n) ∷ []) ≡ classes resolve r.log ++ resolve c)
        × (any_tower (r.log ++ (tower c, n) ∷ []) ≡ (any_tower r.log || true))
        × (not_empty r.raw_asgi_middlewares ≡ (not_empty r.raw_asgi_middlewares || false))
  tower_kind-Says c n r = (
    classes-append r.log ((tower c, n) ∷ [])
        ∙ ap (λ cs. classes resolve r.log ++ cs) (append-nil (resolve c)),
    any_tower-append r.log ((tower c, n) ∷ []),
    sym (or_false (not_empty r.raw_asgi_middlewares)),
  )

  built-Says :
      (b : Bool) (e : Entry) (r : Registry) → Says (if b then add_entry e r else r) r [] false false
  built-Says true e r = Says-none r
  built-Says false e r = Says-none r

  add_kind-Says :
      (k : Kind) (a : Addition) (r : Registry)
      → Says (add_kind k a r) r (classes_of_kind k a.cls) (tower_kind k) (raw_kind k)
  add_kind-Says shorthand a r = tower_kind-Says a.cls _ r
  add_kind-Says tower a r = tower_kind-Says a.cls _ r
  add_kind-Says python_http a r = built-Says a.builds (record { cls = a.cls; sentry = a.sentry }) r
  add_kind-Says base_http a r = built-Says a.builds (record { cls = a.cls; sentry = false }) r
  add_kind-Says asgi a r = (
    classes-append r.log ((raw a.cls, _) ∷ []),
    any_tower-append r.log ((raw a.cls, _) ∷ []),
    not_empty-append r.raw_asgi_middlewares (a.cls ∷ []),
  )
  add_kind-Says unknown a r = Says-none r

  trans-Says :
      (s r q : Registry) (cs ds : List ℕ) (t u a b : Bool)
      → Says s r ds u b
      → Says r q cs t a
      → Says s q (cs ++ ds) (t || u) (a || b)
  trans-Says s r q cs ds t u a b h k = (
    h.0 ∙ ap (λ xs. xs ++ ds) k.0 ∙ append_assoc (classes resolve q.log) cs ds,
    h.1 ∙ ap (λ x. x || u) k.1 ∙ or_assoc (any_tower q.log) t u,
    h.2 ∙ ap (λ x. x || b) k.2 ∙ or_assoc (not_empty q.raw_asgi_middlewares) a b,
  )

  run-Says :
      (ops : List Op) (r : Registry)
      → Says (run ops r) r (registered_classes ops) (any_layer ops) (any_asgi ops)
  unfolding run decorate add_middleware keep_sentry_outermost add_middleware_impl
  run-Says [] r = Says-none r
  run-Says (add a ∷ ops) r =
      trans-Says (run ops (add_middleware a r)) (add_middleware a r) r
        (classes_of_kind a.kind a.cls) (registered_classes ops) (tower_kind a.kind) (any_layer ops)
        (raw_kind a.kind) (any_asgi ops) (run-Says ops (add_middleware a r))
        (add_kind-Says a.kind a r)
  run-Says (decorates f ∷ ops) r = run-Says ops (decorate f r)

  -- After any registrations on a new application: if they include both an ASGI class and a layer of the
  -- Rust server, the chain around the in-process door has the class of each, a layer being replaced by
  -- the class that stands for it, if there is one, and the one registered last is the outermost;
  -- otherwise there is no such chain.
  pub asgi_oneshot_http_with_mw-outer :
      (ops : List Op)
      → asgi_oneshot_http_with_mw resolve (run ops fresh)
        ≡ (if any_asgi ops && any_layer ops then reverse (registered_classes ops) else [])
  unfolding asgi_oneshot_http_with_mw door_outer_mw_list door_has_tower_raw_mix
  asgi_oneshot_http_with_mw-outer ops =
      let s = run-Says ops fresh in
      ap
        (λ b.
          compose
            (if b && any_tower (run ops fresh).log then classes resolve (run ops fresh).log else [])
            [])
        s.2
      ∙ ap (λ b. compose (if any_asgi ops && b then classes resolve (run ops fresh).log else []) [])
          s.1
      ∙ ap (λ cs. compose (if any_asgi ops && any_layer ops then cs else []) []) s.0
      ∙ composed-if (any_asgi ops && any_layer ops) (registered_classes ops)
