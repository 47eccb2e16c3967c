-- ===== src/Middleware/Chain/Layers.antt =====
-- In which order the layers of the chain do what they do.
use mathlib.Core.List.{reverse, reverse-append}
use fastapi_turbo.Prelude.{
  ℕ, ◌≡◌, refl, sym, ap, ◌∙◌, true, List, [], ◌∷◌, ◌++◌, append_assoc, append-nil, Option,
}
use fastapi_turbo.Middleware.Chain.{
  Endpoint, Script, ends, next, Middleware, Call, send_endpoint, normalised, call_handler_sync,
  send_middleware, run_chain, run_endpoint, drive_async_fallback, wrapped_sync,
}
use fastapi_turbo.Middleware.Chain.Onion.{
  Immediate, send_endpoint-Agrees, normalised-Agrees, unless_suspended-settled,
}

abbrev pub befores : List (ℕ × ℕ) → List ℕ
befores [] = []
befores ((a, b) ∷ ps) = a ∷ befores ps

abbrev pub afters : List (ℕ × ℕ) → List ℕ
afters [] = []
afters ((a, b) ∷ ps) = b ∷ afters ps

module _ {Response Exc : Type 0} where
  -- A middleware that does one thing before the rest of the chain, and another after it.
  abbrev pub around : ℕ × ℕ → Middleware Response Exc
  around (a, b) = record {
    is_function = true;
    script = Script.acts a (next (λ o. Script.acts b (ends o)));
  }

  abbrev pub around_all : List (ℕ × ℕ) → List (Middleware Response Exc)
  around_all [] = []
  around_all (p ∷ ps) = around p ∷ around_all ps

  run_chain-append :
      (ms ns : List (Middleware Response Exc)) (h : Call Response Exc)
      → run_chain (ms ++ ns) h ≡ run_chain ms (run_chain ns h)
  unfolding run_chain
  run_chain-append [] ns h = refl
  run_chain-append (m ∷ ms) ns h = ap (send_middleware m.script) (run_chain-append ms ns h)

  run_chain-around :
      (ps : List (ℕ × ℕ)) (h : Call Response Exc)
      → run_chain (reverse (around_all ps)) h ≡ (reverse (befores ps) ++ (h.0 ++ afters ps), h.1)
  unfolding run_chain send_middleware
  run_chain-around [] h = ap (λ l. (l, h.1)) (sym (append-nil h.0))
  run_chain-around ((a, b) ∷ ps) h =
      ap (λ ms. run_chain ms h) (reverse-append (around (a, b) ∷ []) (around_all ps))
      ∙ run_chain-append (reverse (around_all ps)) (around (a, b) ∷ []) h
      ∙ run_chain-around ps (a ∷ (h.0 ++ b ∷ []), h.1)
      ∙ ap (λ l. (l, h.1))
          (ap (λ l. reverse (befores ps) ++ (a ∷ l)) (append_assoc h.0 (b ∷ []) (afters ps))
            ∙ sym (append_assoc (reverse (befores ps)) (a ∷ []) (h.0 ++ (b ∷ afters ps)))
            ∙ ap (λ l. l ++ (h.0 ++ (b ∷ afters ps))) (sym (reverse-append (a ∷ []) (befores ps))))

  -- Let every middleware do one thing before the rest of the chain and another after it, however that
  -- ended, and let the endpoint not wait. Then what is seen is first what the middlewares do before, the
  -- one declared last first; then the endpoint; then what they do after, in the order of declaration;
  -- and the result is the endpoint's, its exceptions converted.
  pub wrapped_sync-layers :
      (convert : Exc → Option Response) (ps : List (ℕ × ℕ)) (endpoint : Endpoint Response Exc)
      → Immediate endpoint.body
      → let h = normalised convert (run_endpoint endpoint.body) in
        wrapped_sync convert (around_all ps) endpoint
        ≡ (reverse (befores ps) ++ (h.0 ++ afters ps), h.1)
  unfolding wrapped_sync call_handler_sync
  wrapped_sync-layers convert ps endpoint i =
      let c = send_endpoint endpoint.body in
      let d = run_endpoint endpoint.body in
      let a = normalised-Agrees convert c d (send_endpoint-Agrees endpoint.body i) in
      let r = run_chain-around ps (normalised convert c) in
      unless_suspended-settled (run_chain (reverse (around_all ps)) (normalised convert c))
        (drive_async_fallback (reverse (around_all ps)) endpoint) a.1.0
        (ap (λ (x : Call Response Exc). x.1) r ∙ a.1.1)
      ∙ r
      ∙ ap (λ (h : Call Response Exc). (reverse (befores ps) ++ (h.0 ++ afters ps), h.1)) a.0
