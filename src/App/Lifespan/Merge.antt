-- ===== src/App/Lifespan/Merge.antt =====
-- The state that the lifespans yield: on a key that several of them give, the last one started wins.
use mathlib.Core.Bool.{false≢true}
use fastapi_turbo.Prelude.{
  ℕ, ◌≡◌, ◌≢◌, refl, sym, ap, ◌∙◌, Bool, true, false, List, [], ◌∷◌, map, Option, none, some, ◌==◌,
  if◌then◌else◌, arith,
}
use fastapi_turbo.App.Lifecycle.{returned, raised, collect_lifespans}
use fastapi_turbo.App.Lifespan.{
  earlier_assoc, earlier-none, Dict, set_item, update, Entered, yields, fails, entering, Hooks,
  Site, Run, Entry, earlier, open_all, enter_next, enter_all, finish_enter, enter_opened,
  start_lifespans, unless_entered, run_lifespan_startup,
}

abbrev pub get_item : ℕ → Dict → Option ℕ
get_item k [] = none
get_item k ((j, w) ∷ d) = if j == k then some w else get_item k d

-- The last value that a dictionary's items give a key.
abbrev pub last_item : ℕ → Dict → Option ℕ
last_item k [] = none
last_item k ((j, w) ∷ d) = earlier (last_item k d) (if j == k then some w else none)

if_same : (t : Bool) (o : Option ℕ) → (if t then o else o) ≡ o
if_same true o = refl
if_same false o = refl

get_item-set_item :
    (k j v : ℕ) (d : Dict) → get_item k (set_item j v d) ≡ (if j == k then some v else get_item k d)
unfolding set_item
get_item-set_item k j v [] = refl
get_item-set_item k j v ((i, w) ∷ d) = ground (arith, get_item-set_item k j v d)

if-earlier :
    (t : Bool) (v : ℕ) (o : Option ℕ)
    → (if t then some v else o) ≡ earlier (if t then some v else none) o
if-earlier true v o = refl
if-earlier false v o = refl

-- `dict.update`: what the new items give, else what was there.
pub get_item-update :
    (k : ℕ) (d u : Dict) → get_item k (update d u) ≡ earlier (last_item k u) (get_item k d)
unfolding update
get_item-update k d [] = refl
get_item-update k d ((j, v) ∷ u) =
    get_item-update k (set_item j v d) u
    ∙ ap (earlier (last_item k u))
        (get_item-set_item k j v d ∙ if-earlier (j == k) v (get_item k d))
    ∙ sym (earlier_assoc (last_item k u) (if j == k then some v else none) (get_item k d))

-- No key occurs twice.
abbrev pub Distinct : Dict → Type 0
Distinct [] = Unit
Distinct ((j, w) ∷ d) = (get_item j d ≡ none) × Distinct d

set_item-Distinct : (k v : ℕ) (d : Dict) → Distinct d → Distinct (set_item k v d)
unfolding set_item
set_item-Distinct k v [] h = (refl, tt)
set_item-Distinct k v ((j, w) ∷ d) h =
    ground (arith, h, get_item-set_item j k v d, set_item-Distinct k v d h.1)

update-Distinct : (d u : Dict) → Distinct d → Distinct (update d u)
unfolding update
update-Distinct d [] h = h
update-Distinct d ((j, v) ∷ u) h = update-Distinct (set_item j v d) u (set_item-Distinct j v d h)

last_item-get_item : (k : ℕ) (d : Dict) → Distinct d → last_item k d ≡ get_item k d
last_item-get_item k [] h = refl
last_item-get_item k ((j, w) ∷ d) h = ground (arith, h, last_item-get_item k d h.1)

module _ {Exc : Type 0} where
  abbrev pub given : Entered Exc → Dict
  given (yields u) = u
  given (fails e) = []

  -- The value that the last of the lifespans to give the key gives it.
  abbrev pub last_given : ℕ → (ℕ → Entered Exc) → List ℕ → Option ℕ
  last_given k enters [] = none
  last_given k enters (l ∷ ls) = earlier (last_given k enters ls) (last_item k (given (enters l)))

  -- The dictionary after entering these lifespans, when all of them yield.
  abbrev pub merged_of : (ℕ → Entered Exc) → List ℕ → Dict → Dict
  merged_of enters [] d = d
  merged_of enters (l ∷ ls) d = merged_of enters ls (update d (given (enters l)))

  merged_of-Distinct :
      (enters : ℕ → Entered Exc) (ls : List ℕ) (d : Dict)
      → Distinct d
      → Distinct (merged_of enters ls d)
  merged_of-Distinct enters [] d h = h
  merged_of-Distinct enters (l ∷ ls) d h =
      merged_of-Distinct enters ls (update d (given (enters l)))
        (update-Distinct d (given (enters l)) h)

  get_item-merged_of :
      (k : ℕ) (enters : ℕ → Entered Exc) (ls : List ℕ) (d : Dict)
      → get_item k (merged_of enters ls d) ≡ earlier (last_given k enters ls) (get_item k d)
  get_item-merged_of k enters [] d = refl
  get_item-merged_of k enters (l ∷ ls) d =
      get_item-merged_of k enters ls (update d (given (enters l)))
      ∙ ap (earlier (last_given k enters ls)) (get_item-update k d (given (enters l)))
      ∙ sym (earlier_assoc (last_given k enters ls) (last_item k (given (enters l))) (get_item k d))

  abbrev pub yielded : Entered Exc → Bool
  yielded (yields u) = true
  yielded (fails e) = false

  enter_next-yields :
      (enters : ℕ → Entered Exc) (l : ℕ) (ls : List ℕ) (x : Entered Exc) (d : Dict)
      → ((u : Dict)
          → yielded (enter_all enters ls u).1 ≡ true
          → enter_all enters ls u ≡ (map entering ls, yields (merged_of enters ls u)))
      → yielded (enter_next l (enter_all enters ls) x d).1 ≡ true
      → enter_next l (enter_all enters ls) x d
        ≡ (map entering (l ∷ ls), yields (merged_of enters ls (update d (given x))))
  enter_next-yields enters l ls (fails e) d rest q = absurd (false≢true q)
  enter_next-yields enters l ls (yields u) d rest q =
      ap (λ (s : Entry Exc). (entering l ∷ s.0, s.1)) (rest (update d u) q)

  pub enter_all-yields :
      (enters : ℕ → Entered Exc) (ls : List ℕ) (d : Dict)
      → yielded (enter_all enters ls d).1 ≡ true
      → enter_all enters ls d ≡ (map entering ls, yields (merged_of enters ls d))
  unfolding enter_all
  enter_all-yields enters [] d q = refl
  enter_all-yields enters (l ∷ ls) d q =
      enter_next-yields enters l ls (enters l) d (enter_all-yields enters ls) q

  raised≢returned : {e : Exc} → raised e ≢ returned
  raised≢returned q = cc

  finish_enter-yielded :
      (s : Entry Exc) (site : Site Exc) → (finish_enter s site).1 ≡ returned → yielded s.1 ≡ true
  finish_enter-yielded (ran, yields u) site q = refl
  finish_enter-yielded (ran, fails e) site q = absurd (raised≢returned q)

  abbrev started : Hooks Exc → List ℕ → Site Exc → Run Exc
  started hooks ls site =
      let merged = merged_of hooks.enters ls [] in
      (
        map entering ls,
        returned,
        record site { lifespan_cms = ls; app_state = merged; state = update site.state merged },
      )

  enter_opened-returned :
      (hooks : Hooks Exc) (o : Option Exc) (ls : List ℕ) (site : Site Exc)
      → (enter_opened hooks o ls site).1 ≡ returned
      → enter_opened hooks o ls site ≡ started hooks ls site
  enter_opened-returned hooks (some e) ls site q = absurd (raised≢returned q)
  enter_opened-returned hooks none ls site q =
      ap (λ s. finish_enter s (record site { lifespan_cms = ls }))
        (enter_all-yields hooks.enters ls [] (
          finish_enter-yielded (enter_all hooks.enters ls []) (record site { lifespan_cms = ls })
            q))

  run_lifespan_startup-returned :
      (hooks : Hooks Exc) (site : Site Exc) (l : ℕ) (ls : List ℕ)
      → site.lifespan_cms ≡ []
      → collect_lifespans site.app ≡ l ∷ ls
      → (run_lifespan_startup hooks site).1 ≡ returned
      → run_lifespan_startup hooks site ≡ started hooks (l ∷ ls) site
  unfolding run_lifespan_startup
  run_lifespan_startup-returned hooks site l ls c q r =
      let e =
        ap (λ cms. unless_entered hooks cms site) c ∙ ap (λ xs. start_lifespans hooks xs site) q in
      e
      ∙ enter_opened-returned hooks (open_all hooks.opens (l ∷ ls)) (l ∷ ls) site
          (sym (ap (λ (s : Run Exc). s.1) e) ∙ r)

  -- Take an application that holds no context managers and has at least one lifespan, and a startup
  -- that returns. Each lifespan was entered once, in order, and is held. On every key the state it
  -- publishes is what the last lifespan to give that key gave, and an attribute of `self.state` is
  -- that, or what it was where no lifespan gave it.
  pub run_lifespan_startup-merges :
      (hooks : Hooks Exc) (site : Site Exc) (l : ℕ) (ls : List ℕ) (k : ℕ)
      → site.lifespan_cms ≡ []
      → collect_lifespans site.app ≡ l ∷ ls
      → (run_lifespan_startup hooks site).1 ≡ returned
      → let r = run_lifespan_startup hooks site in
        let value = last_given k hooks.enters (l ∷ ls) in
        (r.0 ≡ map entering (l ∷ ls))
        × (r.2.lifespan_cms ≡ l ∷ ls)
        × (get_item k r.2.app_state ≡ value)
        × (get_item k r.2.state ≡ earlier value (get_item k site.state))
  run_lifespan_startup-merges hooks site l ls k c q r =
      let e = run_lifespan_startup-returned hooks site l ls c q r in
      let merged = merged_of hooks.enters (l ∷ ls) [] in
      let g =
        get_item-merged_of k hooks.enters (l ∷ ls) []
        ∙ earlier-none (last_given k hooks.enters (l ∷ ls)) in
      (
        ap (λ (s : Run Exc). s.0) e,
        ap (λ (s : Run Exc). s.2.lifespan_cms) e,
        ap (λ (s : Run Exc). get_item k s.2.app_state) e ∙ g,
        ap (λ (s : Run Exc). get_item k s.2.state) e
            ∙ get_item-update k site.state merged
            ∙ ap (λ o. earlier o (get_item k site.state))
                (last_item-get_item k merged (merged_of-Distinct hooks.enters (l ∷ ls) [] tt) ∙ g),
      )
