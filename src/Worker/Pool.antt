-- ===== src/Worker/Pool.antt =====
-- The pool of completion events of python/fastapi_turbo/_async_worker.py: `_acquire_event`,
-- `_release_event` and the warming in `init`. An event is a number; `fresh` is the next new one.
use fastapi_turbo.Prelude.{
  ℕ, zero, suc, ◌+◌, ◌≤◌, ◌<◌, ◌≡◌, refl, List, [], ◌∷◌, ◌++◌, arith, ltb, lt→ltb, true,
  if◌then◌else◌, length, length-append,
}

pub record Pool : Type 0 where
  pub events : List ℕ
  pub fresh : ℕ

-- `deque.pop` takes from the right end.
abbrev pub pop_last : ℕ → List ℕ → ℕ × List ℕ
pop_last e [] = (e, [])
pop_last e (f ∷ es) = let r = pop_last f es in (r.0, e ∷ r.1)

abbrev pub acquire_from : List ℕ → Pool → ℕ × Pool
acquire_from [] p = (p.fresh, record p { fresh = suc p.fresh })
acquire_from (e ∷ es) p = let r = pop_last e es in (r.0, record p { events = r.1 })

unfoldable pub acquire_event : Pool → ℕ × Pool
acquire_event p = acquire_from p.events p

unfoldable pub release_event : ℕ → Pool → Pool
release_event ev p =
    if ltb (length p.events) 128 then record p { events = p.events ++ ev ∷ [] } else p

-- The warming loop, `n` rounds of it; `init` runs 64.
unfoldable pub warm : ℕ → Pool → Pool
warm zero p = p
warm (suc n) p = warm n (record p { events = p.events ++ p.fresh ∷ []; fresh = suc p.fresh })

abbrev pub at_init : Pool
at_init = record { events = []; fresh = 0 }

pub data Use : Type 0 where
  acquire : Use
  release : ℕ → Use

unfoldable pub use_pool : List Use → Pool → Pool
unfolding acquire_event release_event
use_pool [] p = p
use_pool (acquire ∷ us) p = use_pool us (acquire_event p).1
use_pool (release ev ∷ us) p = use_pool us (release_event ev p)

length-pop_last : (e : ℕ) (es : List ℕ) → length (pop_last e es).1 ≡ length es
length-pop_last e [] = refl
length-pop_last e (f ∷ es) = omega (arith, length-pop_last f es)

acquire_from-le :
    (n : ℕ) (es : List ℕ) (p : Pool)
    → p.events ≡ es
    → length es ≤ n
    → length (acquire_from es p).1.events ≤ n
acquire_from-le n [] p q h = rw q h
acquire_from-le n (e ∷ es) p q h = omega (arith, length-pop_last e es)

release_event-le :
    (ev : ℕ) (p : Pool) → length p.events ≤ 128 → length (release_event ev p).events ≤ 128
unfolding release_event
release_event-le ev p h = ground (arith, length-append p.events (ev ∷ []))

use_pool-le :
    (us : List Use) (p : Pool) → length p.events ≤ 128 → length (use_pool us p).events ≤ 128
unfolding use_pool
use_pool-le [] p h = h
use_pool-le (acquire ∷ us) p h =
    use_pool-le us (acquire_event p).1 (acquire_from-le 128 p.events p refl h)
use_pool-le (release ev ∷ us) p h = use_pool-le us (release_event ev p) (release_event-le ev p h)

length-warm : (n : ℕ) (p : Pool) → length (warm n p).events ≡ length p.events + n
unfolding warm
length-warm zero p = omega arith
length-warm (suc n) p = omega (
  arith,
  length-append p.events (p.fresh ∷ []),
  length-warm n (record p { events = p.events ++ p.fresh ∷ []; fresh = suc p.fresh }),
)

-- After the warming, whatever is acquired and released, in any order and any number of times, the
-- pool never holds more than 128 events.
pub use_pool-bounded : (us : List Use) → length (use_pool us (warm 64 at_init)).events ≤ 128
use_pool-bounded us = use_pool-le us (warm 64 at_init) (omega (arith, length-warm 64 at_init))

pop_last-append : (e f : ℕ) (es : List ℕ) → pop_last e (es ++ f ∷ []) ≡ (f, e ∷ es)
pop_last-append e f [] = refl
pop_last-append e f (d ∷ es) = rw (pop_last-append d f es)

acquire_from-append :
    (es : List ℕ) (f : ℕ) (p : Pool) → acquire_from (es ++ f ∷ []) p ≡ (f, record p { events = es })
acquire_from-append [] f p = refl
acquire_from-append (e ∷ es) f p = rw (pop_last-append e f es)

-- An event that is released while the pool has room is the next one to be acquired, and acquiring it
-- leaves the pool as it was.
pub acquire_event-release_event :
    (ev : ℕ) (p : Pool) → length p.events < 128 → acquire_event (release_event ev p) ≡ (ev, p)
unfolding acquire_event release_event
acquire_event-release_event ev p h =
    let room : ltb (length p.events) 128 ≡ true = lt→ltb (length p.events) 128 h in
    rw room (acquire_from-append p.events ev (record p { events = p.events ++ ev ∷ [] }))
