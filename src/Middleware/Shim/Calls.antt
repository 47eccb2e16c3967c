-- ===== src/Middleware/Shim/Calls.antt =====
-- What the request gets through a raw ASGI middleware, and how often the rest of the chain runs.
use fastapi_turbo.Prelude.{
  ℕ, ◌≡◌, refl, sym, ap, ◌∙◌, false, List, [], ◌∷◌, ◌++◌, append_assoc, append-nil, Option, none,
  some,
}
use fastapi_turbo.Middleware.Shim.{
  Frame, start, body, Response, Next, responds, fails, Script, returns, raises, sends, calls_app,
  Captured, nothing_captured, capture, content_of, drive, converted, answer, shim,
}

module _ {Headers : Type 0} where
  -- The last start of these messages, if there is one, and the bodies of all of them, joined.
  abbrev pub last_start : List (Frame Headers) → Option (ℕ × Headers) → Option (ℕ × Headers)
  last_start [] o = o
  last_start (start status headers ∷ fs) o = last_start fs (some (status, headers))
  last_start (body chunk ∷ fs) o = last_start fs o

  abbrev pub bodies : List (Frame Headers) → List ℕ
  bodies [] = []
  bodies (start status headers ∷ fs) = bodies fs
  bodies (body chunk ∷ fs) = chunk ++ bodies fs

module _ {Headers Exc : Type 0} where
  abbrev pub send_all : List (Frame Headers) → Script Headers Exc → Script Headers Exc
  send_all [] s = s
  send_all (f ∷ fs) s = sends f (send_all fs s)

  drive-send_all :
      (error : Response Headers) (next : Next Headers Exc) (fs : List (Frame Headers))
      (s : Script Headers Exc) (c : Captured Headers)
      → drive error next (send_all fs s) c
        ≡ drive error next s
            (record { begun = last_start fs c.begun; content = c.content ++ bodies fs })
  unfolding drive capture
  drive-send_all error next [] s c =
      ap (λ bytes. drive error next s (record { begun = c.begun; content = bytes }))
        (sym (append-nil c.content))
  drive-send_all error next (start status headers ∷ fs) s c =
      drive-send_all error next fs s (record c { begun = some (status, headers) })
  drive-send_all error next (body chunk ∷ fs) s c =
      drive-send_all error next fs s (record c { content = c.content ++ chunk })
      ∙ ap (λ bytes. drive error next s (record { begun = last_start fs c.begun; content = bytes }))
          (append_assoc c.content chunk (bodies fs))

  abbrev ends : Option Exc → Script Headers Exc
  ends none = returns
  ends (some e) = raises e

  -- A middleware that passes on what the application below it sends and raises.
  abbrev pub passes_on : Script Headers Exc
  passes_on = calls_app (λ fs raised. send_all fs (ends raised))

  -- What is left of the answer: a streaming response loses its body, and an exception is converted.
  abbrev pub relayed : (Exc → Option (Response Headers)) → Next Headers Exc → Next Headers Exc
  relayed convert (responds r) = responds (record r { content = some (content_of r.content) })
  relayed convert (fails e) = converted e (convert e)

  -- Through a middleware that passes on all that the application below it sends and raises, the rest of
  -- the chain runs once; an exception of it is raised, or answered if it is an `HTTPException`; and of
  -- its response the status and the headers stay and the body does, but a streaming response is left
  -- with an empty body.
  pub shim-passes_on :
      (error : Response Headers) (convert : Exc → Option (Response Headers))
      (next : Next Headers Exc)
      → shim false error convert next passes_on ≡ (relayed convert next, 1)
  unfolding shim drive capture
  shim-passes_on error convert (responds r) = refl
  shim-passes_on error convert (fails e) = refl

  -- What a middleware answers that sends these messages itself.
  abbrev pub own_answer : Next Headers Exc → Option (ℕ × Headers) → List ℕ → Next Headers Exc × ℕ
  own_answer next none bytes = (next, 1)
  own_answer next (some (status, headers)) bytes =
      (responds (record { status = status; headers = headers; content = some bytes }), 0)

  -- A middleware that sends messages of its own, calls no application and returns answers with the last
  -- status and headers that it sent and with all its bodies joined, and the rest of the chain does not
  -- run; if it sent no start, its bodies are dropped, and the rest of the chain runs once and answers.
  pub shim-answers :
      (error : Response Headers) (convert : Exc → Option (Response Headers))
      (next : Next Headers Exc) (fs : List (Frame Headers))
      → shim false error convert next (send_all fs returns)
        ≡ own_answer next (last_start fs none) (bodies fs)
  unfolding shim drive
  shim-answers error convert next fs =
      ap (answer convert next) (drive-send_all error next fs returns nothing_captured)
      ∙ by_start (last_start fs none)
    where
      by_start :
          (o : Option (ℕ × Headers))
          → answer convert next (record { begun = o; content = bodies fs }, none, 0)
            ≡ own_answer next o (bodies fs)
      by_start none = refl
      by_start (some (status, headers)) = refl

  -- A middleware that calls the application below it and then returns without having sent anything has
  -- the rest of the chain run a second time, which answers.
  pub shim-twice :
      (error : Response Headers) (convert : Exc → Option (Response Headers))
      (next : Next Headers Exc)
      → shim false error convert next (calls_app (λ fs raised. returns)) ≡ (next, 2)
  unfolding shim drive
  shim-twice error convert next = refl
