-- ===== src/App/Lifespan/Opened.antt =====
-- The lifespans that a startup enters: it leaves none of them, and holds them when it returns.
use mathlib.Core.Bool.{false≢true}
use fastapi_turbo.Prelude.{
  ℕ, ◌≡◌, refl, sym, ap, ◌∙◌, Bool, true, false, List, [], ◌∷◌, ◌++◌, map, append-nil, Option, none,
  some,
}
use fastapi_turbo.App.Lifecycle.{
  App, run_startup_handlers, collect_lifespans, Ended, returned, earlier_failure, reentrant, raised,
}
use fastapi_turbo.App.Lifespan.{
  Dict, update, Entered, yields, fails, Entry, enter_next, enter_all, finish_enter, enter_opened,
  open_all, start_lifespans, unless_entered, run_lifespan_startup, handlers, and_then, Event,
  entering, exiting, calling, Hooks, Site, Run, try_startup,
}
use fastapi_turbo.App.Lifespan.Merge.{yielded, enter_all-yields}

abbrev pub entered : List Event → List ℕ
entered [] = []
entered (entering l ∷ es) = l ∷ entered es
entered (exiting l ∷ es) = entered es
entered (calling h ∷ es) = entered es

abbrev pub exited : List Event → List ℕ
exited [] = []
exited (entering l ∷ es) = exited es
exited (exiting l ∷ es) = l ∷ exited es
exited (calling h ∷ es) = exited es

pub entered-append : (xs ys : List Event) → entered (xs ++ ys) ≡ entered xs ++ entered ys
entered-append [] ys = refl
entered-append (entering l ∷ xs) ys = ap (λ r. l ∷ r) (entered-append xs ys)
entered-append (exiting l ∷ xs) ys = entered-append xs ys
entered-append (calling l ∷ xs) ys = entered-append xs ys

pub exited-append : (xs ys : List Event) → exited (xs ++ ys) ≡ exited xs ++ exited ys
exited-append [] ys = refl
exited-append (exiting l ∷ xs) ys = ap (λ r. l ∷ r) (exited-append xs ys)
exited-append (entering l ∷ xs) ys = exited-append xs ys
exited-append (calling l ∷ xs) ys = exited-append xs ys

pub entered-map_entering : (ls : List ℕ) → entered (map entering ls) ≡ ls
entered-map_entering [] = refl
entered-map_entering (l ∷ ls) = ap (λ r. l ∷ r) (entered-map_entering ls)

pub exited-calling : (hs : List ℕ) → exited (map calling hs) ≡ []
exited-calling [] = refl
exited-calling (h ∷ hs) = exited-calling hs

pub entered-calling : (hs : List ℕ) → entered (map calling hs) ≡ []
entered-calling [] = refl
entered-calling (h ∷ hs) = entered-calling hs

pub exited-exiting : (cs : List ℕ) → exited (map exiting cs) ≡ cs
exited-exiting [] = refl
exited-exiting (c ∷ cs) = ap (λ r. c ∷ r) (exited-exiting cs)

pub entered-exiting : (cs : List ℕ) → entered (map exiting cs) ≡ []
entered-exiting [] = refl
entered-exiting (c ∷ cs) = entered-exiting cs

module _ {Exc : Type 0} where
  abbrev pub is_returned : Ended Exc → Bool
  is_returned returned = true
  is_returned _ = false

  -- What a startup that began with these context managers has to show: it left none, and when it
  -- returns it holds them and those it entered.
  abbrev pub Opened : List ℕ → Run Exc → Type 0
  Opened cms r =
      (exited r.0 ≡ []) × (is_returned r.1 ≡ true → r.2.lifespan_cms ≡ cms ++ entered r.0)

  finish_enter-Opened :
      (s : Entry Exc) (ls : List ℕ) (site : Site Exc)
      → site.lifespan_cms ≡ ls
      → exited s.0 ≡ []
      → (yielded s.1 ≡ true → entered s.0 ≡ ls)
      → Opened [] (finish_enter s site)
  finish_enter-Opened (ran, yields u) ls site c x h = (x, λ q. c ∙ sym (h refl))
  finish_enter-Opened (ran, fails e) ls site c x h = (x, λ q. absurd (false≢true q))

  enter_next-exited :
      (l : ℕ) (rest : Dict → Entry Exc) (x : Entered Exc) (d : Dict)
      → ((u : Dict) → exited (rest u).0 ≡ [])
      → exited (enter_next l rest x d).0 ≡ []
  enter_next-exited l rest (yields u) d h = h (update d u)
  enter_next-exited l rest (fails e) d h = refl

  enter_all-exited :
      (enters : ℕ → Entered Exc) (ls : List ℕ) (d : Dict) → exited (enter_all enters ls d).0 ≡ []
  unfolding enter_all
  enter_all-exited enters [] d = refl
  enter_all-exited enters (l ∷ ls) d =
      enter_next-exited l (enter_all enters ls) (enters l) d (enter_all-exited enters ls)

  enter_opened-Opened :
      (hooks : Hooks Exc) (o : Option Exc) (ls : List ℕ) (site : Site Exc)
      → Opened [] (enter_opened hooks o ls site)
  enter_opened-Opened hooks (some e) ls site = (refl, λ q. absurd (false≢true q))
  enter_opened-Opened hooks none ls site =
      let s = enter_all hooks.enters ls [] in
      finish_enter-Opened s ls (record site { lifespan_cms = ls }) refl
        (enter_all-exited hooks.enters ls [])
        (λ q.
          ap (λ (t : Entry Exc). entered t.0) (enter_all-yields hooks.enters ls [] q)
          ∙ entered-map_entering ls)

  start_lifespans-Opened :
      (hooks : Hooks Exc) (ls : List ℕ) (site : Site Exc)
      → site.lifespan_cms ≡ []
      → Opened [] (start_lifespans hooks ls site)
  start_lifespans-Opened hooks [] site c = (refl, λ q. c)
  start_lifespans-Opened hooks (l ∷ ls) site c =
      enter_opened-Opened hooks (open_all hooks.opens (l ∷ ls)) (l ∷ ls) site

  unless_entered-Opened :
      (hooks : Hooks Exc) (cms : List ℕ) (site : Site Exc)
      → site.lifespan_cms ≡ cms
      → Opened cms (unless_entered hooks cms site)
  unless_entered-Opened hooks [] site c =
      start_lifespans-Opened hooks (collect_lifespans site.app) site c
  unless_entered-Opened hooks (l ∷ cms) site c = (refl, λ q. c ∙ sym (append-nil (l ∷ cms)))

  and_then-Opened :
      (cms : List ℕ) (r : Run Exc) (next : Site Exc → List ℕ × Ended Exc × App Exc)
      → Opened cms r
      → Opened cms (and_then r (λ site. handlers (next site) site))
  and_then-Opened cms (ran, returned, site) next h =
      let hs = (next site).0 in
      (
        exited-append ran (map calling hs) ∙ rw (h.0, exited-calling hs) refl,
        λ q.
            h.1 refl
            ∙ sym (
                ap (λ es. cms ++ es)
                  (entered-append ran (map calling hs)
                    ∙ rw (entered-calling hs) (append-nil (entered ran)))),
      )
  and_then-Opened cms (ran, raised e, site) next h = h
  and_then-Opened cms (ran, earlier_failure, site) next h = h
  and_then-Opened cms (ran, reentrant, site) next h = h

  pub try_startup-Opened :
      (hooks : Hooks Exc) (site : Site Exc) → Opened site.lifespan_cms (try_startup hooks site)
  unfolding try_startup run_lifespan_startup
  try_startup-Opened hooks site =
      and_then-Opened site.lifespan_cms (unless_entered hooks site.lifespan_cms site)
        (λ entered. run_startup_handlers hooks.calls entered.app)
        (unless_entered-Opened hooks site.lifespan_cms site refl)
