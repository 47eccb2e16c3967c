-- ===== src/Worker/Timeout.antt =====
-- `_default_timeout` and the choice that `submit` makes, of python/fastapi_turbo/_async_worker.py.
-- Seconds are a type of the environment's, and so is `float(...)` of the variable's text.
use fastapi_turbo.Prelude.{◌≡◌, ◌≢◌, String, Option, none, some, arith, str_eq, if◌then◌else◌}

-- What `getattr(app, "worker_timeout", …)` finds.
pub data Attribute (Seconds : Type 0) : Type 0 where
  missing null : Attribute Seconds
  seconds : Seconds → Attribute Seconds

module _ {Seconds : Type 0} (float : String → Option Seconds) where
  -- The last-constructed application, if there is one.
  abbrev pub of_current : Option (Attribute Seconds) → Option Seconds
  of_current (some (seconds t)) = some t
  of_current _ = none

  abbrev pub of_app : Option (Attribute Seconds) → Option (Attribute Seconds) → Option Seconds
  of_app (some null) current = none
  of_app (some (seconds t)) current = some t
  of_app _ current = of_current current

  abbrev pub of_parsed : Option Seconds → Option Seconds → Option Seconds
  of_parsed none rest = rest
  of_parsed (some t) rest = some t

  -- `none` is "no timeout".
  unfoldable pub default_timeout :
      Option String → Option (Attribute Seconds) → Option (Attribute Seconds) → Option Seconds
  default_timeout none app current = of_app app current
  default_timeout (some env) app current =
      if str_eq env "" then of_app app current else of_parsed (float env) (of_app app current)

  -- The `timeout` argument of `submit`: not given, or given.
  unfoldable pub submit_timeout :
      Option (Option Seconds)
      → Option String
      → Option (Attribute Seconds)
      → Option (Attribute Seconds)
      → Option Seconds
  unfolding default_timeout
  submit_timeout none env app current = default_timeout env app current
  submit_timeout (some t) env app current = t

  -- An application that is passed explicitly and has the attribute decides its own submits: neither
  -- the application constructed last nor an environment variable that is unset, empty or no number
  -- changes the timeout, also where it is None.
  pub submit_timeout-isolated :
      (env : String) (t : Attribute Seconds) (current other : Option (Attribute Seconds))
      → float env ≡ none
      → t ≢ missing
      → (submit_timeout none (some env) (some t) current ≡ of_current (some t))
        × (submit_timeout none none (some t) current
            ≡ submit_timeout none (some env) (some t) other)
  unfolding submit_timeout
  submit_timeout-isolated env t current other f m = ground arith
