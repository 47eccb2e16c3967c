-- ===== src/App/Lifespan/Exits.antt =====
-- Leaving the lifespans: every one of them, last entered first, whatever they raise.
use mathlib.Core.List.{reverse}
use fastapi_turbo.Prelude.{ℕ, ◌≡◌, refl, ap, ◌∙◌, List, [], ◌∷◌, map, Option, none}
use fastapi_turbo.App.Lifespan.{
  earlier_assoc, earlier-none, Event, exiting, Hooks, Site, earlier, exit_all, exit_in_time,
  outcome, run_lifespan_shutdown, exit_entered,
}

module _ {Exc : Type 0} where
  -- The first exception that leaving these lifespans in turn raises.
  abbrev pub first_raised : (ℕ → Option Exc) → List ℕ → Option Exc
  first_raised exits [] = none
  first_raised exits (c ∷ cms) = earlier (exits c) (first_raised exits cms)

  pub exit_all_lem :
      (exits : ℕ → Option Exc) (first_exc : Option Exc) (cms : List ℕ)
      → exit_all exits first_exc cms ≡ (map exiting cms, earlier first_exc (first_raised exits cms))
  unfolding exit_all
  exit_all_lem exits first_exc [] = simp (earlier-none first_exc)
  exit_all_lem exits first_exc (c ∷ cms) =
      ap (λ (r : List Event × Option Exc). (exiting c ∷ r.0, r.1))
        (exit_all_lem exits (earlier first_exc (exits c)) cms)
      ∙ simp (earlier_assoc first_exc (exits c) (first_raised exits cms))

  exit_entered_lem :
      (hooks : Hooks Exc) (cms : List ℕ) (site : Site Exc)
      → site.lifespan_cms ≡ cms
      → hooks.exit_timeout ≡ none
      → exit_entered hooks cms site ≡ (
        map exiting (reverse cms),
        outcome (first_raised hooks.exits (reverse cms)),
        record site { lifespan_cms = [] },
      )
  exit_entered_lem hooks [] site q t =
      ap (λ cms. ([], outcome none, record site { lifespan_cms = cms })) q
  exit_entered_lem hooks (c ∷ cms) site q t =
      ap (exit_in_time (exit_all hooks.exits none (reverse (c ∷ cms))) site) t
      ∙ ap (λ (r : List Event × Option Exc). (r.0, outcome r.1, record site { lifespan_cms = [] }))
          (exit_all_lem hooks.exits none (reverse (c ∷ cms)))

  -- A shutdown whose time does not elapse leaves every context manager the application holds, each once and in the reverse of
  -- their order, whichever of them raise; it then holds none, nothing else of it has changed, and the
  -- exception that surfaces is the first one raised.
  pub run_lifespan_shutdown-exits :
      (hooks : Hooks Exc) (site : Site Exc)
      → hooks.exit_timeout ≡ none
      → run_lifespan_shutdown hooks site ≡ (
        map exiting (reverse site.lifespan_cms),
        outcome (first_raised hooks.exits (reverse site.lifespan_cms)),
        record site { lifespan_cms = [] },
      )
  unfolding run_lifespan_shutdown
  run_lifespan_shutdown-exits hooks site t = exit_entered_lem hooks site.lifespan_cms site refl t
