-- ===== src/Middleware/Shim/Tests.antt =====
-- A middleware that passes all on, around a streaming response.
use fastapi_turbo.Prelude.{ℕ, ◌≡◌, refl, false, [], ◌∷◌, Option, none, some}
use fastapi_turbo.Middleware.Shim.{
  Response, responds, fails, shim, drive, capture, sends, raises, body,
}
use fastapi_turbo.Middleware.Shim.Calls.{passes_on, relayed, shim-passes_on}

abbrev error : Response ℕ
error = record { status = 500; headers = 0; content = some (69 ∷ []) }

abbrev streaming : Response ℕ
streaming = record { status = 200; headers = 7; content = none }

abbrev convert : ℕ → Option (Response ℕ)
convert e = none

passes_example :
    shim false error convert (responds streaming) passes_on
    ≡ (relayed convert (responds streaming), 1)
passes_example = shim-passes_on error convert (responds streaming)

-- A body and an exception: the body that was captured is dropped.
rejected :
    shim false error convert (responds streaming) (sends (body (1 ∷ [])) (raises 4)) ≡ (fails 4, 0)
unfolding shim drive capture
rejected = refl
