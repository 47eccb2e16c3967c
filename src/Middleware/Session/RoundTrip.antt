-- ===== src/Middleware/Session/RoundTrip.antt =====
-- A cookie that was signed is read back.
use fastapi_turbo.Prelude.{
  ℕ, zero, suc, ◌+◌, ◌-◌, ◌%◌, ◌<◌, ◌≡◌, refl, sym, ap, ◌∙◌, Bool, true, false, List, [], ◌∷◌, ◌++◌,
  append_assoc, append-nil, Option, none, some, ◌==◌, all, length, All, same_refl, arith,
}
use fastapi_turbo.Prelude.Int.{ℤ, pos, ◌-ℤ◌, lt_ℤ}
use fastapi_turbo.Prelude.Decimal.{show, int_of-show, is_digit, show-IsDigit}
use fastapi_turbo.Middleware.Session.{
  split, keep_code, rstrip, equals, padded, is_ascii, with_signature, encode, load_fresh, decode,
  ◌>>=◌, SetCookie, initial, save,
}

-- A code that may stand in a part of a cookie.
abbrev pub Plain : ℕ → Type 0
Plain c = (c < 128) × ((c == b'.') ≡ false) × ((c == b'=') ≡ false)

-- Text that stands in base64: of a length that is a multiple of 4, with at most three `=`, at its end.
pub record IsBase64 (s : List ℕ) : Type 0 where
  pub digits : List ℕ
  pub padding : ℕ
  pub text : s ≡ digits ++ equals padding
  pub all_plain : All Plain digits
  pub few : padding < 4
  pub in_fours : (length digits + padding) % 4 ≡ 0

keep_code-Plain : (c : ℕ) (s : List ℕ) → (c == b'=') ≡ false → keep_code c s ≡ c ∷ s
keep_code-Plain c [] h = rw h
keep_code-Plain c (d ∷ s) h = refl

rstrip-equals : (n : ℕ) → rstrip (equals n) ≡ []
unfolding rstrip
rstrip-equals zero = refl
rstrip-equals (suc n) = rw (rstrip-equals n)

rstrip-append_equals : (s : List ℕ) (n : ℕ) → All Plain s → rstrip (s ++ equals n) ≡ s
unfolding rstrip
rstrip-append_equals [] n h = rstrip-equals n
rstrip-append_equals (c ∷ s) n h =
    ap (keep_code c) (rstrip-append_equals s n h.1) ∙ keep_code-Plain c s h.0.2

padded-rstrip : (s : List ℕ) → IsBase64 s → padded (rstrip s) ≡ s
padded-rstrip s h =
    ap (λ t. padded (rstrip t)) h.text
    ∙ ap padded (rstrip-append_equals h.digits h.padding h.all_plain)
    ∙ ap (λ n. h.digits ++ equals n) count
    ∙ sym h.text
  where
    count : (4 - length h.digits % 4) % 4 ≡ h.padding
    count = let few = h.few in let fours = h.in_fours in omega arith

Plain-rstrip : (s : List ℕ) → IsBase64 s → All Plain (rstrip s)
Plain-rstrip s h = rw h.text (rw (rstrip-append_equals h.digits h.padding h.all_plain) h.all_plain)

Plain-digits : (s : List ℕ) → All (λ c. is_digit c ≡ true) s → All Plain s
Plain-digits [] h = tt
Plain-digits (c ∷ s) h =
    let d : is_digit c ≡ true = h.0 in
    ((ground arith, ground arith, ground arith), Plain-digits s h.1)

split-Plain : (s : List ℕ) → All Plain s → split s ≡ (s, [])
unfolding split
split-Plain [] h = refl
split-Plain (c ∷ s) h = rw (split-Plain s h.1) (rw h.0.1)

split-dot : (s t : List ℕ) → All Plain s → split (s ++ b'.' ∷ t) ≡ (s, (split t).0 ∷ (split t).1)
unfolding split
split-dot [] t h = refl
split-dot (c ∷ s) t h = rw (split-dot s t h.1) (rw h.0.1)

all_ascii-Plain :
    (s t : List ℕ) → All Plain s → all is_ascii t ≡ true → all is_ascii (s ++ t) ≡ true
all_ascii-Plain [] t h e = e
all_ascii-Plain (c ∷ s) t h e =
    let small : c < 128 = h.0.0 in let more = all_ascii-Plain s t h.1 e in ground arith

-- The cookie of the time `now` is not older than `max_age` at the time `later`.
abbrev pub IsFresh : Option ℤ → ℕ → ℕ → Type 0
IsFresh none now later = Unit
IsFresh (some max_age) now later = lt_ℤ max_age (pos later -ℤ pos now) ≡ false

-- What a client sends back: a cookie that was set, none that was cleared, and else what it had.
abbrev pub kept : Option (List ℕ) → Option SetCookie → Option (List ℕ)
kept old none = old
kept old (some (value, true)) = none
kept old (some (value, false)) = some value

module _ {Data : Type 0} (dumps : Data → Option (List ℕ)) (loads : List ℕ → Option Data)
    (b64encode : List ℕ → List ℕ) (b64decode : List ℕ → Option (List ℕ)) (digest : List ℕ → List ℕ)
    (encoded : (s : List ℕ) → IsBase64 (b64encode s))
    (decoded : (s : List ℕ) → b64decode (b64encode s) ≡ some s) where
  unpadded : (s : List ℕ) → b64decode (padded (rstrip (b64encode s))) ≡ some s
  unpadded s = ap b64decode (padded-rstrip (b64encode s) (encoded s)) ∙ decoded s

  code : List ℕ → List ℕ
  code s = rstrip (b64encode s)

  code-Plain : (s : List ℕ) → All Plain (code s)
  unfolding code
  code-Plain s = Plain-rstrip (b64encode s) (encoded s)

  -- A cookie made of its three parts passes the test of the characters, and comes apart into them.
  cookie-ascii :
      (raw ts sig : List ℕ)
      → All Plain ts
      → all is_ascii ((code raw ++ b'.' ∷ ts) ++ b'.' ∷ code sig) ≡ true
  cookie-ascii raw ts sig h =
      ap (all is_ascii) (append_assoc (code raw) (b'.' ∷ ts) (b'.' ∷ code sig))
      ∙ all_ascii-Plain (code raw) _ (code-Plain raw) (
          all_ascii-Plain ts _ h (
            ap (all is_ascii) (sym (append-nil (code sig)))
            ∙ all_ascii-Plain (code sig) [] (code-Plain sig) refl))

  cookie-split :
      (raw ts sig : List ℕ)
      → All Plain ts
      → split ((code raw ++ b'.' ∷ ts) ++ b'.' ∷ code sig) ≡ (code raw, ts ∷ code sig ∷ [])
  cookie-split raw ts sig h =
      ap split (append_assoc (code raw) (b'.' ∷ ts) (b'.' ∷ code sig))
      ∙ split-dot (code raw) (ts ++ b'.' ∷ code sig) (code-Plain raw)
      ∙ ap (λ r. (code raw, r.0 ∷ r.1)) (split-dot ts (code sig) h)
      ∙ ap (λ r. (code raw, ts ∷ r.0 ∷ r.1)) (split-Plain (code sig) (code-Plain sig))

  load_fresh-show :
      (max_age : Option ℤ) (now later : ℕ) (raw : List ℕ)
      → IsFresh max_age now later
      → load_fresh dumps loads b64encode b64decode digest max_age later (code raw) (show now)
        ≡ loads raw
  unfolding code
  load_fresh-show none now later raw fresh = rw (unpadded raw)
  load_fresh-show (some max_age) now later raw fresh =
      rw (int_of-show now) (rw fresh (rw (unpadded raw)))

  decode-with_signature :
      (max_age : Option ℤ) (now later : ℕ) (raw : List ℕ)
      → IsFresh max_age now later
      → decode dumps loads b64encode b64decode digest max_age later
          (with_signature dumps loads b64encode b64decode digest (code raw ++ b'.' ∷ show now))
        ≡ loads raw
  unfolding decode code
  decode-with_signature max_age now later raw fresh =
      let stamp = Plain-digits (show now) (show-IsDigit now) in
      let payload = code raw ++ b'.' ∷ show now in
      rw (cookie-ascii raw (show now) (digest payload) stamp) (
        rw (cookie-split raw (show now) (digest payload) stamp) (
          rw (unpadded (digest payload))
            (rw (same_refl (digest payload)) (load_fresh-show max_age now later raw fresh))))

  -- A session that a request leaves, which is not empty and which JSON gives back, is the session that
  -- the next request with the client's cookie begins with, as long as the cookie is not older than
  -- `max_age`, and whatever cookie there was before. This is for a base64 that pads its text to a
  -- multiple of four characters and reads back what it wrote, and for any digest.
  pub save-initial :
      (is_empty : Data → Bool) (no_data : Data) (max_age : Option ℤ) (now later : ℕ)
      (old : Option (List ℕ)) (before session : Data)
      → (dumps session >>= loads) ≡ some session
      → is_empty session ≡ false
      → IsFresh max_age now later
      → (save dumps loads b64encode b64decode digest is_empty no_data now before session >>= λ set.
          some (
            initial dumps loads b64encode b64decode digest is_empty no_data max_age later
              (kept old set)))
        ≡ some session
  unfolding save initial encode code
  save-initial is_empty no_data max_age now later old before session json full fresh =
      by_dump (dumps session) refl json
    where
      by_dump :
          (dumped : Option (List ℕ))
          → dumps session ≡ dumped
          → (dumped >>= loads) ≡ some session
          → (save dumps loads b64encode b64decode digest is_empty no_data now before session
              >>= λ set. some (
                  initial dumps loads b64encode b64decode digest is_empty no_data max_age later
                    (kept old set)))
            ≡ some session
      by_dump none e back = cc
      by_dump (some raw) e back =
          rw full
            (rw e (rw (decode-with_signature max_age now later raw fresh) (rw back (rw full refl))))
