-- ===== src/Middleware/Session.antt =====
-- python/fastapi_turbo/middleware/sessions.py: the session in a signed cookie. Text and bytes are lists of
-- codes. JSON, base64 and HMAC are parameters, and so is the truth value of a session; `none` stands for
-- an exception. Writing the header, other than its value and whether it clears the cookie, and
-- `SimpleCookie` are not modelled.
pub mod RoundTrip
mod Tests
use fastapi_turbo.Prelude.{
  ℕ, zero, suc, ◌-◌, ◌%◌, Bool, true, false, not, ◌&&◌, ◌||◌, List, [], ◌∷◌, ◌++◌, Option, none,
  some, ◌==◌, ltb, if◌then◌else◌, all, length, same,
}
use fastapi_turbo.Prelude.Int.{ℤ, pos, ◌-ℤ◌, lt_ℤ}
use fastapi_turbo.Prelude.Decimal.{show, int_of}

-- An exception skips what follows it.
infixl 5 ◌>>=◌
abbrev pub ◌>>=◌ {ℓ κ} : {A : Type ℓ} {B : Type κ} → Option A → (A → Option B) → Option B
none >>= f = none
some a >>= f = f a

-- `bytes.split(b".")`: the first part, and the others.
abbrev pub put : Bool → ℕ → List ℕ × List (List ℕ) → List ℕ × List (List ℕ)
put true c (first, others) = ([], first ∷ others)
put false c (first, others) = (c ∷ first, others)

unfoldable pub split : List ℕ → List ℕ × List (List ℕ)
split [] = ([], [])
split (c ∷ s) = put (c == b'.') c (split s)

-- `bytes.rstrip(b"=")`.
abbrev pub keep_code : ℕ → List ℕ → List ℕ
keep_code c [] = if c == b'=' then [] else c ∷ []
keep_code c (d ∷ s) = c ∷ d ∷ s

unfoldable pub rstrip : List ℕ → List ℕ
rstrip [] = []
rstrip (c ∷ s) = keep_code c (rstrip s)

-- `b"=" * n`.
abbrev pub equals : ℕ → List ℕ
equals zero = []
equals (suc n) = b'=' ∷ equals n

-- `s + b"=" * (-len(s) % 4)`.
abbrev pub padded : List ℕ → List ℕ
padded s = s ++ equals ((4 - length s % 4) % 4)

abbrev pub is_ascii : ℕ → Bool
is_ascii c = ltb c 128

-- What a response is given: the value of the cookie, and whether it is cleared.
abbrev pub SetCookie : Type 0
SetCookie = List ℕ × Bool

module _ {Data : Type 0} (dumps : Data → Option (List ℕ)) (loads : List ℕ → Option Data)
    (b64encode : List ℕ → List ℕ) (b64decode : List ℕ → Option (List ℕ))
    (digest : List ℕ → List ℕ) where
  abbrev pub with_signature : List ℕ → List ℕ
  with_signature payload = payload ++ b'.' ∷ rstrip (b64encode (digest payload))

  -- `_encode`.
  unfoldable pub encode : ℕ → Data → Option (List ℕ)
  encode now session = do
    raw ← dumps session
    some (with_signature (rstrip (b64encode raw) ++ b'.' ∷ show now))

  abbrev pub load : List ℕ → Option Data
  load b64 = do raw ← b64decode (padded b64); loads raw

  abbrev pub load_fresh : Option ℤ → ℕ → List ℕ → List ℕ → Option Data
  load_fresh none now b64 ts = load b64
  load_fresh (some max_age) now b64 ts = do
    stamp ← int_of ts
    if lt_ℤ max_age (pos now -ℤ stamp) then none else load b64

  -- `_decode`, from the signature on.
  abbrev pub checked : Option ℤ → ℕ → List ℕ → List ℕ → Option (List ℕ) → Option Data
  checked max_age now b64 ts none = none
  checked max_age now b64 ts (some actual) =
      if same (digest (b64 ++ b'.' ∷ ts)) actual then load_fresh max_age now b64 ts else none

  abbrev pub decode_parts : Option ℤ → ℕ → List ℕ × List (List ℕ) → Option Data
  decode_parts max_age now (b64, ts ∷ sig ∷ []) =
      checked max_age now b64 ts (b64decode (padded sig))
  decode_parts max_age now _ = none

  -- `_decode`.
  unfoldable pub decode : Option ℤ → ℕ → List ℕ → Option Data
  decode max_age now cookie =
      if all is_ascii cookie then decode_parts max_age now (split cookie) else none

  module _ (is_empty : Data → Bool) (no_data : Data) where
    abbrev pub or_empty : Option Data → Data
    or_empty none = no_data
    or_empty (some d) = if is_empty d then no_data else d

    -- The session that a request begins with.
    unfoldable pub initial : Option ℤ → ℕ → Option (List ℕ) → Data
    initial max_age now none = no_data
    initial max_age now (some cookie) = or_empty (decode max_age now cookie)

    -- What `__call__` does behind a response. `before` is what the dictionary `initial` holds by then, the
    -- changes made in place among it, and `after` what `request.scope["session"]` holds, which may be the
    -- same dictionary or another.
    unfoldable pub save : ℕ → Data → Data → Option (Option SetCookie)
    save now before after =
        if not (is_empty after) || not (is_empty before) then attached else some none
      where
        attached : Option (Option SetCookie)
        attached = do
          value ← encode now after
          some (some (if is_empty after then [] else value, is_empty after))
